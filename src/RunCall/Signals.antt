-- ===== src/RunCall/Signals.antt =====
-- packages/dubbo/src/protocol/signals.ts. A signal is what it was aborted with, if it was: the
-- reason, which some platforms do not keep. A controller that is linked to signals listens to
-- them and to its own.
use node_dubbo.Prelude.{
  ℕ, zero, suc, Bool, true, false, List, [], ◌∷◌, ◌++◌, Option, none, some, if◌then◌else◌,
}
use node_dubbo.Error.{Code, Reason, native, dubbo, error}

abbrev pub Signal : Type 0
Signal = Option (Option Reason)

abbrev pub abort_error : Reason
abort_error = native "AbortError" "This operation was aborted"

unfoldable pub get_abort_signal_reason : Signal → Option Reason
get_abort_signal_reason none = none
get_abort_signal_reason (some (some reason)) = some reason
get_abort_signal_reason (some none) = some abort_error

-- A signal with the listener `onAbort` on it, or without.
pub record Source : Type 0 where
  pub signal : Signal
  pub listened : Bool

-- The closure of createLinkedAbortController: the signals given, and the controller's own one.
pub record Linked : Type 0 where
  pub sources : List Source
  pub own : Source

abbrev pub unheard : Source → Source
unheard s = record s { listened = false }

unfoldable pub unlink : List Source → List Source
unlink [] = []
unlink (s ∷ ss) = unheard s ∷ unlink ss

-- `controller.abort(reason)`: the second time nothing happens; the listener on the own signal
-- removes all of them.
abbrev pub abort_own : Option Reason → Linked → Signal → Bool → Linked
abort_own reason l (some before) b = l
abort_own reason l none false = record l { own = record { signal = some reason; listened = false } }
abort_own reason l none true = record {
  sources = unlink l.sources;
  own = record { signal = some reason; listened = false };
}

unfoldable pub own_aborts : Option Reason → Linked → Linked
unfolding unlink
own_aborts reason l = abort_own reason l l.own.signal l.own.listened

-- `onAbort`, for the signal that was aborted.
unfoldable pub on_abort : Signal → Linked → Linked
unfolding own_aborts get_abort_signal_reason
on_abort signal l =
    let l' = own_aborts (get_abort_signal_reason signal) l in
    record { sources = unlink l'.sources; own = unheard l'.own }

abbrev pub unheard_all : List Signal → List Source
unheard_all [] = []
unheard_all (s ∷ ss) = record { signal = s; listened = false } ∷ unheard_all ss

-- The loop that adds the listeners: it stops at a signal that is aborted already. `before` are the
-- signals that have a listener.
unfoldable pub link : List Source → List Signal → Linked
unfolding on_abort
link before [] = record { sources = before; own = record { signal = none; listened = true } }
link before (none ∷ signals) =
    link (before ++ (record { signal = none; listened = true } ∷ [])) signals
link before (some reason ∷ signals) = on_abort (some reason) (record {
  sources = before ++ unheard_all (some reason ∷ signals);
  own = record { signal = none; listened = false };
})

unfoldable pub create_linked_abort_controller : List Signal → Linked
unfolding link
create_linked_abort_controller signals = link [] signals

-- The signal at a place is aborted, unless it was before.
unfoldable pub abort_at : ℕ → Option Reason → List Source → List Source
abort_at n reason [] = []
abort_at zero reason (s ∷ ss) = record s { signal = some reason } ∷ ss
abort_at (suc n) reason (s ∷ ss) = s ∷ abort_at n reason ss

unfoldable pub source_at : ℕ → List Source → Source
source_at n [] = record { signal = none; listened = false }
source_at zero (s ∷ ss) = s
source_at (suc n) (s ∷ ss) = source_at n ss

abbrev pub source_event : ℕ → Option Reason → Linked → Source → Linked
source_event n reason l s = elim s.signal [
  | some before ↦ l
  | none ↦
      let l' = record l { sources = abort_at n reason l.sources } in
      if s.listened then on_abort (some reason) l' else l'
]

unfoldable pub source_aborts : ℕ → Option Reason → Linked → Linked
unfolding on_abort abort_at source_at
source_aborts n reason l = source_event n reason l (source_at n l.sources)

abbrev pub timed_out : Reason
timed_out = dubbo (error "the operation timed out" Code.deadline_exceeded)

-- createDeadlineSignal: the signal, and if the timer is set. A timeout below 0 is like one of 0.
pub record Deadline : Type 0 where
  pub signal : Signal
  pub timer : Bool

unfoldable pub create_deadline_signal : Option ℕ → Deadline
create_deadline_signal none = record { signal = none; timer = false }
create_deadline_signal (some zero) = record { signal = some (some timed_out); timer = false }
create_deadline_signal (some (suc n)) = record { signal = none; timer = true }
