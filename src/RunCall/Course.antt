-- ===== src/RunCall/Course.antt =====
-- How a call of run-call.ts comes to its end, over any course of events.
pub mod Over
pub mod Ending
use node_dubbo.Prelude.{
  ℕ, zero, suc, ◌≡◌, ◌≢◌, refl, sym, subst, ap, ◌∙◌, ◌==◌, Bool-cases, inl, inr, Bool, true, false,
  List, [], ◌∷◌, Option, none, some, arith, if◌then◌else◌, All,
}
use node_dubbo.Error.{Code, Reason, dubbo, from}
use node_dubbo.RunCall.Signals.{
  Signal, Source, Linked, abort_error, get_abort_signal_reason, unlink, abort_own, source_event,
  own_aborts, on_abort, link, create_linked_abort_controller, abort_at, source_at, source_aborts,
  timed_out, create_deadline_signal,
}
use node_dubbo.RunCall.{
  CallSignal, deadline_of, setup_signal, deadline_fires, caller_aborts, reason_or, abort_reason,
  abort, done,
}

-- What happens to a call: the caller aborts, the deadline passes, the transport throws, or the
-- call ends well. A streaming call may have several of the last two.
pub data Event : Type 0 where
  cancelled : Option Reason → Event
  expired : Event
  threw : Reason → Event
  ended : Event

unfoldable pub step : Event → CallSignal → CallSignal
step (cancelled reason) c = caller_aborts reason c
step expired c = deadline_fires c
step (threw reason) c = abort reason c
step ended c = done c

pub run : CallSignal → List Event → CallSignal
run c [] = c
run c (e ∷ es) = run (step e c) es

abbrev pub known : Option Reason → Reason
known none = abort_error
known (some reason) = reason

-- What first aborts a call that has a signal of the caller, or a deadline.
unfoldable pub first_abort : Bool → Bool → List Event → Signal
first_abort caller deadline [] = none
first_abort true deadline (cancelled reason ∷ es) = some (some (known reason))
first_abort false deadline (cancelled reason ∷ es) = first_abort false deadline es
first_abort caller true (expired ∷ es) = some (some timed_out)
first_abort caller false (expired ∷ es) = first_abort caller false es
first_abort caller deadline (threw reason ∷ es) = some (some (dubbo (from reason Code.unknown)))
first_abort caller deadline (ended ∷ es) = some none

-- What aborts a call at all: a signal that was aborted before, a deadline of 0, or an event.
unfoldable pub call_abort : Option Signal → Option ℕ → List Event → Signal
unfolding first_abort
call_abort (some (some reason)) timeout es = some (some (known reason))
call_abort (some none) none es = first_abort true false es
call_abort (some none) (some zero) es = some (some timed_out)
call_abort (some none) (some (suc n)) es = first_abort true true es
call_abort none none es = first_abort false false es
call_abort none (some zero) es = some (some timed_out)
call_abort none (some (suc n)) es = first_abort false true es

-- Nobody is heard any more.
abbrev pub IsSilent : Linked → Type 0
IsSilent l = All (λ (s : Source). s.listened ≡ false) l.sources × (l.own.listened ≡ false)

-- A controller that was aborted, with no listener left.
abbrev pub Over : Option Reason → Linked → Type 0
Over reason l = (l.own.signal ≡ some reason) × IsSilent l

-- How the signal of a call stands: aborted, with nobody listening any more, or not aborted.
abbrev pub Stands : Signal → CallSignal → Type 0
Stands (some reason) c = Over reason c.controller
Stands none c = c.controller.own.signal ≡ none

-- The timer runs until the deadline passes or the call has ended.
unfoldable pub timer_left : Bool → List Event → Bool
timer_left timer [] = timer
timer_left timer (cancelled reason ∷ es) = timer_left timer es
timer_left timer (expired ∷ es) = timer_left false es
timer_left timer (threw reason ∷ es) = timer_left false es
timer_left timer (ended ∷ es) = timer_left false es

unfoldable pub is_timed : Option ℕ → Bool
is_timed none = false
is_timed (some zero) = false
is_timed (some (suc n)) = true
