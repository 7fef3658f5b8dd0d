-- ===== src/RunCall.antt =====
-- packages/dubbo/src/protocol/run-call.ts: the signal of a call, and how a call ends. Interceptors
-- are in Interceptors.
pub mod Signals
pub mod Course
use node_dubbo.Prelude.{
  ℕ, Bool, true, false, ◌==◌, List, [], ◌∷◌, Option, none, some, if◌then◌else◌,
}
use node_dubbo.Error.{Code, Reason, DubboError, dubbo, from, Outcome, ok, thrown}
use Signals.{
  Source, Signal, Linked, Deadline, get_abort_signal_reason, create_linked_abort_controller,
  create_deadline_signal, source_aborts, source_at, own_aborts, timed_out,
}

-- The closure of `setupSignal`: the controller is linked to the caller's signal, if there is one,
-- and to that of the deadline behind it.
pub record CallSignal : Type 0 where
  pub controller : Linked
  pub timer : Bool
  -- The place of the deadline's signal among the sources.
  pub deadline : ℕ

unfoldable pub deadline_of : Linked → ℕ → Bool → CallSignal
deadline_of controller n timer = record { controller = controller; timer = timer; deadline = n }

unfoldable pub setup_signal : Option Signal → Option ℕ → CallSignal
unfolding deadline_of create_linked_abort_controller create_deadline_signal
setup_signal none timeout_ms =
    let d = create_deadline_signal timeout_ms in
    deadline_of (create_linked_abort_controller (d.signal ∷ [])) 0 d.timer
setup_signal (some signal) timeout_ms =
    let d = create_deadline_signal timeout_ms in
    deadline_of (create_linked_abort_controller (signal ∷ d.signal ∷ [])) 1 d.timer

-- The timer of the deadline.
unfoldable pub deadline_fires : CallSignal → CallSignal
unfolding source_aborts
deadline_fires c =
    if c.timer
    then record c {
      controller = source_aborts c.deadline (some timed_out) c.controller;
      timer = false;
    }
    else c

-- The caller aborts its signal, if it has given one.
unfoldable pub caller_aborts : Option Reason → CallSignal → CallSignal
unfolding source_aborts
caller_aborts reason c =
    if c.deadline == 0 then c else record c { controller = source_aborts 0 reason c.controller }

abbrev pub reason_or : Option Reason → Reason → Reason
reason_or none reason = reason
reason_or (some found) reason = found

-- The error that `abort` rejects with: that of the deadline comes first.
unfoldable pub abort_reason : Reason → CallSignal → DubboError
unfolding get_abort_signal_reason source_at
abort_reason reason c =
    from
      (reason_or (get_abort_signal_reason (source_at c.deadline c.controller.sources).signal)
        reason)
      Code.unknown

-- `abort` and `done`.
unfoldable pub abort : Reason → CallSignal → CallSignal
unfolding abort_reason own_aborts
abort reason c = record c {
  controller = own_aborts (some (dubbo (abort_reason reason c))) c.controller;
  timer = false;
}

unfoldable pub done : CallSignal → CallSignal
unfolding own_aborts
done c = record c { controller = own_aborts none c.controller; timer = false }

-- runUnaryCall behind its interceptors: what `next` comes to ends the call.
unfoldable pub settle_unary {ℓ} : {O : Type ℓ} → Outcome O → CallSignal → Outcome O × CallSignal
unfolding abort done
settle_unary (ok response) c = (ok response, done c)
settle_unary (thrown reason) c = (thrown (dubbo (abort_reason reason c)), abort reason c)

-- A `next()` of the messages that runStreamingCall returns: a message, the end, or a throw.
pub data Read {ℓ} (O : Type ℓ) : Type ℓ where
  message : O → Read O
  end : Read O
  failed : Reason → Read O

unfoldable pub settle_read {ℓ} : {O : Type ℓ} → Read O → CallSignal → Read O × CallSignal
unfolding abort done
settle_read (message value) c = (message value, c)
settle_read end c = (end, done c)
settle_read (failed reason) c = (failed (dubbo (abort_reason reason c)), abort reason c)
