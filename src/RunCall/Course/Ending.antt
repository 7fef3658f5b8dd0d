-- ===== src/RunCall/Course/Ending.antt =====
-- What aborts the signal of a call of run-call.ts, and how long its timer runs.
use node_dubbo.Prelude.{
  ℕ, zero, suc, ◌≡◌, refl, ap, ◌∙◌, Bool-cases, inl, inr, Bool, true, false, List, [], ◌∷◌, Option,
  none, some, arith,
}
use node_dubbo.Error.{Code, Reason, dubbo, from}
use node_dubbo.RunCall.Signals.{Signal, Source, abort_error, timed_out}
use node_dubbo.RunCall.{CallSignal, setup_signal, deadline_fires, caller_aborts, abort, done}
use node_dubbo.RunCall.Course.{
  Event, cancelled, expired, threw, ended, step, run, first_abort, call_abort, timer_left, is_timed,
  Stands,
}
use node_dubbo.RunCall.Course.Over.{run-Over}

abbrev open_source : Source
open_source = record { signal = none; listened = true }

-- A call that has just begun, with a signal of the caller or without.
abbrev opened : Bool → Bool → CallSignal
opened true timer = record {
  controller = record { sources = open_source ∷ open_source ∷ []; own = open_source };
  timer = timer;
  deadline = 1;
}
opened false timer = record {
  controller = record { sources = open_source ∷ []; own = open_source };
  timer = timer;
  deadline = 0;
}

run-opened :
    (caller timer : Bool) (es : List Event)
    → Stands (first_abort caller timer es) (run (opened caller timer) es)
unfolding first_abort run step abort done caller_aborts deadline_fires
run-opened true timer [] = refl
run-opened false timer [] = refl
run-opened true timer (cancelled none ∷ es) =
    run-Over es _ (some abort_error) (refl, ((refl, (refl, tt)), refl))
run-opened true timer (cancelled (some reason) ∷ es) =
    run-Over es _ (some reason) (refl, ((refl, (refl, tt)), refl))
run-opened false timer (cancelled reason ∷ es) = run-opened false timer es
run-opened true true (expired ∷ es) =
    run-Over es _ (some timed_out) (refl, ((refl, (refl, tt)), refl))
run-opened true false (expired ∷ es) = run-opened true false es
run-opened false true (expired ∷ es) = run-Over es _ (some timed_out) (refl, ((refl, tt), refl))
run-opened false false (expired ∷ es) = run-opened false false es
run-opened true timer (threw reason ∷ es) =
    run-Over es _ (some (dubbo (from reason Code.unknown))) (refl, ((refl, (refl, tt)), refl))
run-opened false timer (threw reason ∷ es) =
    run-Over es _ (some (dubbo (from reason Code.unknown))) (refl, ((refl, tt), refl))
run-opened true timer (ended ∷ es) = run-Over es _ none (refl, ((refl, (refl, tt)), refl))
run-opened false timer (ended ∷ es) = run-Over es _ none (refl, ((refl, tt), refl))

caller_aborts-timer :
    (reason : Option Reason) (c : CallSignal) → (caller_aborts reason c).timer ≡ c.timer
unfolding caller_aborts
caller_aborts-timer reason c = ground arith

deadline_fires-timer : (c : CallSignal) → (deadline_fires c).timer ≡ false
unfolding deadline_fires
deadline_fires-timer c = elim (Bool-cases c.timer) [
  | inl set ↦ rw set refl
  | inr unset ↦ rw unset refl
]

run-timer : (es : List Event) (c : CallSignal) → (run c es).timer ≡ timer_left c.timer es
unfolding run step timer_left abort done
run-timer [] c = refl
run-timer (cancelled reason ∷ es) c =
    run-timer es (caller_aborts reason c) ∙ ap (λ b. timer_left b es) (caller_aborts-timer reason c)
run-timer (expired ∷ es) c =
    run-timer es (deadline_fires c) ∙ ap (λ b. timer_left b es) (deadline_fires-timer c)
run-timer (threw reason ∷ es) c = run-timer es (abort reason c)
run-timer (ended ∷ es) c = run-timer es (done c)

setup_signal-timer :
    (caller : Option Signal) (timeout_ms : Option ℕ)
    → (setup_signal caller timeout_ms).timer ≡ is_timed timeout_ms
unfolding setup_signal is_timed
setup_signal-timer none none = refl
setup_signal-timer none (some zero) = refl
setup_signal-timer none (some (suc n)) = refl
setup_signal-timer (some s) none = refl
setup_signal-timer (some s) (some zero) = refl
setup_signal-timer (some s) (some (suc n)) = refl

run-setup_signal-Stands :
    (caller : Option Signal) (timeout_ms : Option ℕ) (es : List Event)
    → Stands (call_abort caller timeout_ms es) (run (setup_signal caller timeout_ms) es)
unfolding setup_signal call_abort
run-setup_signal-Stands none none es = run-opened false false es
run-setup_signal-Stands none (some zero) es =
    run-Over es _ (some timed_out) (refl, ((refl, tt), refl))
run-setup_signal-Stands none (some (suc n)) es = run-opened false true es
run-setup_signal-Stands (some none) none es = run-opened true false es
run-setup_signal-Stands (some none) (some zero) es =
    run-Over es _ (some timed_out) (refl, ((refl, (refl, tt)), refl))
run-setup_signal-Stands (some none) (some (suc n)) es = run-opened true true es
run-setup_signal-Stands (some (some none)) timeout_ms es =
    run-Over es _ (some abort_error) (refl, ((refl, (refl, tt)), refl))
run-setup_signal-Stands (some (some (some reason))) timeout_ms es =
    run-Over es _ (some reason) (refl, ((refl, (refl, tt)), refl))

-- Over any course of events of a call (the caller aborts its signal, the deadline passes, the
-- transport throws, the call ends well), the signal of the call is aborted by the first thing that
-- aborts it, with its reason, and nothing after that changes it: a signal of the caller that was
-- aborted already, a deadline of 0, or the first event that is one of a caller with a signal, of a
-- deadline that was set, or an end. It is not aborted before that, and once it is, no listener is
-- left on any signal. The timer of the deadline is set as long as there is one above 0 and neither
-- it has passed nor the call has come to an end.
pub run-setup_signal :
    (caller : Option Signal) (timeout_ms : Option ℕ) (es : List Event)
    → Stands (call_abort caller timeout_ms es) (run (setup_signal caller timeout_ms) es)
      × ((run (setup_signal caller timeout_ms) es).timer ≡ timer_left (is_timed timeout_ms) es)
run-setup_signal caller timeout_ms es = (
  run-setup_signal-Stands caller timeout_ms es,
  run-timer es (setup_signal caller timeout_ms)
      ∙ ap (λ b. timer_left b es) (setup_signal-timer caller timeout_ms),
)
