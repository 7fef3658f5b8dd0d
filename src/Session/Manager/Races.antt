-- ===== src/Session/Manager/Races.antt =====
-- Orders of events that lose a connection.
use node_dubbo.Prelude.{
  ℕ, ◌+◌, ◌≡◌, refl, ap, sym, subst, ◌==◌, true, false, List, [], inl, inr, ◌⊎◌, Bool-cases,
}
use node_dubbo.Error.{DubboError, Reason, dubbo, native, other, out_of_fuel}
use node_dubbo.Session.Ready.{
  ping_alive, SessionOptions, ReadyState, requires_verify, common_ping, ping_answered, cleanup,
  on_exit_state,
}
use node_dubbo.Session.Manager.{
  State, closed, failed, connecting, verifying, ready, Manager, closed_or_error, connect,
  enter_ready, verify, goto_ready, abort, settle, run_settled, on_close, on_error, on_connect,
  connect_event, on_verify_answer, settle_all, goto_state, abort_state, close_event, error_event,
  answer_event, is_canceled,
}

abbrev pub managing : State → SessionOptions → ℕ → List ReadyState → Manager
managing state options opened unanswered = record {
  state = state;
  options = options;
  queue = [];
  opened = opened;
  unanswered = unanswered;
}

-- The manager after a request that verifies a connection, and the answer to its PING frame.
abbrev pub after_verification : SessionOptions → ℕ → ReadyState → ℕ → ℕ → Manager
after_verification options opened r now later =
    run_settled later
      (on_verify_answer ping_alive later (goto_ready now (managing (ready r) options opened [])))

goto_verify :
    (options : SessionOptions) (opened : ℕ) (r : ReadyState) (now : ℕ)
    → requires_verify options now r ≡ true
    → goto_ready now (managing (ready r) options opened [])
      ≡ verify r (managing (ready r) options opened [])
unfolding goto_ready goto_state
goto_verify options opened r now h = rw h refl

-- The state that the connection is then in: nothing listens to it.
abbrev pub deaf : ReadyState → ℕ → ReadyState
deaf r later = record r {
  last_alive_at = later;
  ping_interval = false;
  ping_timeout = false;
  idle_timeout = false;
  listening = false;
  reporting = true;
}

after_verification_same :
    (options : SessionOptions) (opened : ℕ) (r : ReadyState) (now later : ℕ)
    → requires_verify options now r ≡ true
    → after_verification options opened r now later
      ≡ managing (ready (deaf r later)) options opened []
unfolding run_settled settle_all settle on_verify_answer answer_event verify enter_ready
    on_exit_state common_ping cleanup ping_answered
after_verification_same options opened r now later h =
    ap (λ m. run_settled later (on_verify_answer ping_alive later m))
      (goto_verify options opened r now h)

deaf_events :
    (options : SessionOptions) (opened : ℕ) (r : ReadyState) (later conn : ℕ) (e : DubboError)
    → (on_close conn (managing (ready (deaf r later)) options opened [])
        ≡ managing (ready (deaf r later)) options opened [])
      × (on_error conn e (managing (ready (deaf r later)) options opened [])
          ≡ managing (ready (deaf r later)) options opened [])
unfolding on_close close_event on_error error_event
deaf_events options opened r later conn e = elim (Bool-cases (r.conn == conn)) [
  | inl same ↦ (rw same refl, rw same refl)
  | inr distinct ↦ (rw distinct refl, rw distinct refl)
]

verify_untimed :
    (options : SessionOptions) (opened : ℕ) (r : ReadyState) (m : Manager)
    → (s : ReadyState) × ((verify r m).state ≡ verifying s) × (s.ping_timeout ≡ false)
unfolding verify on_exit_state cleanup common_ping
verify_untimed options opened r m = (_, refl, refl)

-- The timeout of a verification's PING frame is cleared right when the verification starts. Once a
-- verification has succeeded, the manager is in the state "ready", and neither a close nor an
-- error of a connection changes it.
pub after_verification-deaf :
    (options : SessionOptions) (opened : ℕ) (r : ReadyState) (now later conn : ℕ) (e : DubboError)
    → requires_verify options now r ≡ true
    → ((s : ReadyState) × ((goto_ready now (managing (ready r) options opened [])).state
          ≡ verifying s)
        × (s.ping_timeout ≡ false))
      × ((after_verification options opened r now later).state ≡ ready (deaf r later))
      × (on_close conn (after_verification options opened r now later)
          ≡ after_verification options opened r now later)
      × (on_error conn e (after_verification options opened r now later)
          ≡ after_verification options opened r now later)
after_verification-deaf options opened r now later conn e h =
    let started = verify_untimed options opened r (managing (ready r) options opened []) in
    let same = after_verification_same options opened r now later h in
    let (closes, errs) = deaf_events options opened r later conn e in
    (
      subst (λ (m : Manager). (s : ReadyState) × (m.state ≡ verifying s) × (s.ping_timeout ≡ false))
          (sym (goto_verify options opened r now h)) started,
      ap (λ (m : Manager). m.state) same,
      subst (λ m. on_close conn m ≡ m) (sym same) closes,
      subst (λ m. on_error conn e m ≡ m) (sym same) errs,
    )

closed_or_error-cases :
    (reason : Reason)
    → (closed_or_error reason ≡ closed) ⊎ ((f : Reason) × (closed_or_error reason ≡ failed f))
unfolding closed_or_error
closed_or_error-cases (dubbo e) = elim (Bool-cases (is_canceled e)) [
  | inl canceled ↦ inl (rw canceled refl)
  | inr distinct ↦ inr (dubbo e, rw distinct refl)
]
closed_or_error-cases (native n t) = inr (_, refl)
closed_or_error-cases (other t) = inr (_, refl)
closed_or_error-cases out_of_fuel = inr (_, refl)

-- The manager after `abort` while a connection is being opened, and a request right behind it.
abbrev pub after_abort : SessionOptions → ℕ → ℕ → Reason → ℕ → ℕ → Manager
after_abort options opened conn reason now later =
    run_settled later
      (goto_ready now (abort reason (managing (connecting conn true) options opened [])))

goto_after_abort :
    (options : SessionOptions) (opened conn : ℕ) (reason : Reason) (now : ℕ)
    → goto_ready now (abort reason (managing (connecting conn true) options opened []))
      ≡ connect (abort reason (managing (connecting conn true) options opened []))
unfolding abort abort_state goto_ready goto_state
goto_after_abort options opened conn reason now = elim (closed_or_error-cases reason) [
  | inl canceled ↦ rw canceled refl
  | inr (f, error) ↦ rw error refl
]

after_abort_same :
    (options : SessionOptions) (opened conn : ℕ) (reason : Reason) (now later : ℕ)
    → after_abort options opened conn reason now later
      ≡ managing (closed_or_error reason) options (opened + 1) []
unfolding abort abort_state run_settled settle_all settle connect
after_abort_same options opened conn reason now later =
    ap (run_settled later) (goto_after_abort options opened conn reason now)

unnoticed :
    (options : SessionOptions) (opened conn : ℕ) (reason : Reason)
    → on_connect conn (managing (closed_or_error reason) options opened [])
      ≡ managing (closed_or_error reason) options opened []
unfolding on_connect connect_event
unnoticed options opened conn reason = elim (closed_or_error-cases reason) [
  | inl canceled ↦ rw canceled refl
  | inr (f, error) ↦ rw error refl
]

-- After abort while a connection is being opened, a request right behind it opens another
-- connection, and then the rejected promise of the first one closes the state: the manager is
-- closed or failed, and does not take notice when the other connection is there.
pub after_abort_lost :
    (options : SessionOptions) (opened conn : ℕ) (reason : Reason) (now later : ℕ)
    → ((after_abort options opened conn reason now later).state ≡ closed_or_error reason)
      × ((after_abort options opened conn reason now later).opened ≡ opened + 1)
      × (on_connect opened (after_abort options opened conn reason now later)
          ≡ after_abort options opened conn reason now later)
after_abort_lost options opened conn reason now later =
    let same = after_abort_same options opened conn reason now later in
    (
      ap (λ (m : Manager). m.state) same,
      ap (λ (m : Manager). m.opened) same,
      subst (λ m. on_connect opened m ≡ m) (sym same)
          (unnoticed options (opened + 1) opened reason),
    )
