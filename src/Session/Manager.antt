-- ===== src/Session/Manager.antt =====
-- http2-session-manager.ts: the states of the manager, and how requests, events of the connection
-- and promises move it between them. What a settled promise does is put in a queue, and done by
-- `run_settled`: the language runs it after the code that is running. The connections are numbered
-- in the order in which they are opened. An event of a connection carries the error that
-- `dubboErrorFromNodeReason` makes of it.
pub mod Races
use node_dubbo.Prelude.{
  ℕ, suc, ◌+◌, ◌≡◌, Bool, true, false, not, ◌||◌, ◌&&◌, List, [], ◌∷◌, ◌++◌, Option, none, some,
  ◌==◌, if◌then◌else◌,
}
use node_dubbo.Error.{
  Code, DubboError, Reason, dubbo, native, other, out_of_fuel, error, code_number,
}
use node_dubbo.Session.Ready.{
  PingResult, ping_alive, Duration, twice, SessionOptions, ReadyState, new_ready, requires_verify,
  common_ping, ping_answered, cleanup, on_exit_state,
}

-- `connecting` holds the connection, and whether its listeners are there.
pub data State : Type 0 where
  closed : State
  failed : Reason → State
  connecting : ℕ → Bool → State
  verifying : ReadyState → State
  ready : ReadyState → State

-- A settled promise: of `connecting`, resolved or rejected, and of `verifying`, resolved with the
-- state that it has verified.
pub data Settled : Type 0 where
  connected : ℕ → Settled
  refused : Reason → Settled
  verified : ReadyState → Settled
  reconnect : Settled

pub record Manager : Type 0 where
  pub state : State
  pub options : SessionOptions
  pub queue : List Settled
  pub opened : ℕ
  -- The verifications whose PING frame has no answer, with the states to go back to.
  pub unanswered : List ReadyState

unfoldable pub new_manager : SessionOptions → Manager
new_manager options = record {
  state = closed;
  options = options;
  queue = [];
  opened = 0;
  unanswered = [];
}

unfoldable pub is_canceled : DubboError → Bool
is_canceled e = code_number e.code == 1

unfoldable pub closed_or_error : Reason → State
unfolding is_canceled
closed_or_error (dubbo e) = if is_canceled e then closed else failed (dubbo e)
closed_or_error (native name message) = failed (native name message)
closed_or_error (other text) = failed (other text)
closed_or_error out_of_fuel = failed out_of_fuel

-- `connect(authority, options)`: a new connection.
unfoldable pub connect : Manager → Manager
connect m = record m { state = connecting m.opened true; opened = m.opened + 1 }

-- `setState` with the state "ready": the state reports to the manager.
unfoldable pub enter_ready : ReadyState → Manager → Manager
enter_ready r m = record m { state = ready (record r { reporting = true }) }

-- `verify`, and the way out of the state "ready": the PING frame is sent first.
unfoldable pub verify : ReadyState → Manager → Manager
unfolding common_ping on_exit_state
verify r m =
    let left = on_exit_state (common_ping m.options r) in
    record m { state = verifying left; unanswered = m.unanswered ++ (left ∷ []) }

goto_state : ℕ → Manager → State → Manager
unfolding connect verify requires_verify
goto_state now m closed = connect m
goto_state now m (failed e) = connect m
goto_state now m (ready r) = if requires_verify m.options now r then verify r m else m
goto_state now m (connecting conn listening) = m
goto_state now m (verifying r) = m

-- `gotoReady`, up to where it waits.
unfoldable pub goto_ready : ℕ → Manager → Manager
unfolding goto_state
goto_ready now m = goto_state now m m.state

-- `reject` does nothing once the listeners have settled the promise of the connection.
abort_state : Reason → Manager → State → Manager
unfolding closed_or_error
abort_state reason m (connecting conn true) = record m {
  state = closed_or_error reason;
  queue = m.queue ++ (refused reason ∷ []);
}
abort_state reason m _ = record m { state = closed_or_error reason }

unfoldable pub abort : Reason → Manager → Manager
unfolding abort_state
abort reason m = abort_state reason m m.state

-- One settled promise takes its effect, at the time `now`.
unfoldable pub settle : ℕ → Settled → Manager → Manager
unfolding enter_ready connect closed_or_error
settle now (connected conn) m = enter_ready (new_ready m.options conn now) m
settle now (refused reason) m = record m { state = closed_or_error reason }
settle now (verified r) m = enter_ready r m
settle now reconnect m = connect m

settle_all : ℕ → List Settled → Manager → Manager
settle_all now [] m = m
settle_all now (s ∷ ss) m = settle_all now ss (settle now s m)

unfoldable pub run_settled : ℕ → Manager → Manager
unfolding settle_all settle
run_settled now m = settle_all now m.queue (record m { queue = [] })

-- The events of connection `conn`, at the listeners that are there.
connect_event : ℕ → Manager → State → Manager
connect_event conn m (connecting c true) =
    if c == conn
    then record m { state = connecting c false; queue = m.queue ++ (connected c ∷ []) }
    else m
connect_event conn m _ = m

unfoldable pub on_connect : ℕ → Manager → Manager
unfolding connect_event
on_connect conn m = connect_event conn m m.state

enhance_your_calm : DubboError
enhance_your_calm =
    error
      "http/2 connection closed with error code ENHANCE_YOUR_CALM (0xb), too_many_pings, doubled the interval"
      Code.resource_exhausted

error_event : ℕ → DubboError → Manager → State → Manager
unfolding closed_or_error cleanup enhance_your_calm
error_event conn e m (connecting c true) =
    if c == conn
    then record m { state = connecting c false; queue = m.queue ++ (refused (dubbo e) ∷ []) }
    else m
error_event conn e m (ready r) =
    if (r.conn == conn) && r.listening
    then if r.reporting
      then record m {
        state = closed_or_error (dubbo (if r.too_many_pings then enhance_your_calm else e));
      }
      else record m { state = ready (cleanup r) }
    else m
error_event conn e m _ = m

unfoldable pub on_error : ℕ → DubboError → Manager → Manager
unfolding error_event
on_error conn e m = error_event conn e m m.state

close_event : ℕ → Manager → State → Manager
unfolding cleanup
close_event conn m (ready r) =
    if (r.conn == conn) && r.listening
    then if r.reporting then record m { state = closed } else record m { state = ready (cleanup r) }
    else m
close_event conn m _ = m

unfoldable pub on_close : ℕ → Manager → Manager
unfolding close_event
on_close conn m = close_event conn m m.state

goaway_event : ℕ → Bool → Manager → State → Manager
goaway_event conn too_many_pings m (ready r) =
    if (r.conn == conn) && (r.listening && too_many_pings)
    then record m {
      state = ready (record r { too_many_pings = true });
      options = record (m.options) { ping_interval_ms = twice (m.options.ping_interval_ms) };
    }
    else m
goaway_event conn too_many_pings m _ = m

-- `too_many_pings` is that the frame has the code ENHANCE_YOUR_CALM and that text.
unfoldable pub on_goaway : ℕ → Bool → Manager → Manager
unfolding goaway_event
on_goaway conn too_many_pings m = goaway_event conn too_many_pings m m.state

answer_event : PingResult → ℕ → Manager → List ReadyState → Manager
unfolding ping_answered
answer_event ping_alive now m (r ∷ rs) = record m {
  unanswered = rs;
  queue = m.queue ++ (verified (ping_answered ping_alive now r) ∷ []);
}
answer_event result now m rs = m

-- The answer to the PING frame of the oldest verification that has none: only one in time resolves
-- the promise.
unfoldable pub on_verify_answer : PingResult → ℕ → Manager → Manager
unfolding answer_event
on_verify_answer result now m = answer_event result now m m.unanswered

failure_event : Manager → List ReadyState → Manager
failure_event m [] = m
failure_event m (r ∷ rs) = record m { unanswered = rs; queue = m.queue ++ (reconnect ∷ []) }

-- An "error" of the connection of that verification.
unfoldable pub on_verify_failure : Manager → Manager
unfolding failure_event
on_verify_failure m = failure_event m m.unanswered

idle_event : Manager → State → Manager
unfolding cleanup
idle_event m (ready r) =
    if r.idle_timeout
    then if r.reporting then record m { state = closed } else record m { state = ready (cleanup r) }
    else m
idle_event m _ = m

-- The idle timer of the connection in use goes off.
unfoldable pub on_idle_timeout : Manager → Manager
unfolding idle_event
on_idle_timeout m = idle_event m m.state
