-- ===== src/Session/Ready/Timers.antt =====
-- Which timers of the state "ready" run, over any course of events.
use node_dubbo.Prelude.{ℕ, ◌<◌, ◌≡◌, Bool, true, false, ◌⊎◌, arith}
use node_dubbo.Session.Ready.{
  PingResult, ping_failed, ping_late, ping_alive, armed, twice, SessionOptions, ReadyState,
  new_ready, requires_verify, register_request, on_response, on_stream_close, response_byte_read,
  on_ping_interval, interval_answered, reset_ping_interval, reset_idle_timeout, common_ping,
  ping_answered, cleanup, on_exit_state,
}

-- The options of the manager with the frames of GOAWAY that make pings less frequent.
abbrev pub calmer : SessionOptions → SessionOptions
calmer options = record options { ping_interval_ms = twice options.ping_interval_ms }

-- What happens to a connection and the options of its manager. A stream is registered, gets its
-- response, is read or closes, also while the manager is in another state; the ping interval
-- passes, and a PING frame is answered. The manager leaves the state to verify it, or for good, the
-- verification is answered, and the manager enters the state again. The connection closes, fails,
-- or has been idle for too long, and it, or another one of the manager, is told to go away.
pub data Step : SessionOptions → ReadyState → SessionOptions → ReadyState → Type 0 where
  registered : {o : SessionOptions} {r : ReadyState} → Step o r o (register_request o r)
  responded : {o : SessionOptions} {r : ReadyState} (now : ℕ) → Step o r o (on_response o now r)
  stream_closed :
      {o : SessionOptions} {r : ReadyState} → 0 < r.stream_count → Step o r o (on_stream_close o r)
  byte_read :
      {o : SessionOptions} {r : ReadyState} (same_session usable : Bool) (now : ℕ)
      → Step o r o (response_byte_read o same_session usable now r)
  interval_passed :
      {o : SessionOptions} {r : ReadyState}
      → r.ping_interval ≡ true
      → Step o r o (on_ping_interval o r)
  answered :
      {o : SessionOptions} {r : ReadyState} (result : PingResult) (now : ℕ)
      → Step o r o (interval_answered o result now r)
  verify_sent :
      {o : SessionOptions} {r : ReadyState} (now : ℕ)
      → requires_verify o now r ≡ true
      → Step o r o (on_exit_state (common_ping o r))
  verify_answered :
      {o : SessionOptions} {r : ReadyState} (result : PingResult) (now : ℕ)
      → Step o r o (ping_answered result now r)
  entered : {o : SessionOptions} {r : ReadyState} → Step o r o (record r { reporting = true })
  exited : {o : SessionOptions} {r : ReadyState} → Step o r o (on_exit_state r)
  closed :
      {o : SessionOptions} {r : ReadyState}
      → (r.listening ≡ true) ⊎ (r.idle_timeout ≡ true)
      → Step o r o (cleanup r)
  went_away :
      {o : SessionOptions} {r : ReadyState}
      → r.listening ≡ true
      → Step o r (calmer o) (record r { too_many_pings = true })
  other_went_away : {o : SessionOptions} {r : ReadyState} → Step o r (calmer o) r

pub data Reached : SessionOptions → ReadyState → Type 0 where
  opened : (o : SessionOptions) (conn now : ℕ) → Reached o (new_ready o conn now)
  stepped : {o o' : SessionOptions} {r s : ReadyState} → Reached o r → Step o r o' s → Reached o' s

-- With no stream open the idle timer runs, as far as its duration lets a timer run, while the
-- listeners of the connection are there; with a stream open it does not run; and the ping interval
-- runs only while there is a stream or idle connections are to be pinged.
abbrev pub IsTidy : SessionOptions → ReadyState → Type 0
IsTidy options r =
    ((r.listening ≡ true)
      → (r.stream_count ≡ 0)
      → r.idle_timeout ≡ armed options.idle_connection_timeout_ms)
    × ((0 < r.stream_count) → r.idle_timeout ≡ false)
    × ((r.ping_interval ≡ true) → (0 < r.stream_count) ⊎ (options.ping_idle_connection ≡ true))

Step-IsTidy :
    (o : SessionOptions) (r : ReadyState) (o' : SessionOptions) (s : ReadyState)
    → Step o r o' s
    → IsTidy o r
    → IsTidy o' s
unfolding register_request on_response on_stream_close response_byte_read on_ping_interval
    interval_answered reset_ping_interval reset_idle_timeout common_ping ping_answered cleanup
    on_exit_state
Step-IsTidy o r o' s registered (a, b, c) = ground arith
Step-IsTidy o r o' s (responded now) (a, b, c) = ground arith
Step-IsTidy o r o' s (stream_closed some_open) (a, b, c) = ground arith
Step-IsTidy o r o' s (byte_read same usable now) (a, b, c) = ground arith
Step-IsTidy o r o' s (interval_passed h) (a, b, c) = ground arith
Step-IsTidy o r o' s (answered ping_failed now) (a, b, c) = ground arith
Step-IsTidy o r o' s (answered ping_late now) (a, b, c) = ground arith
Step-IsTidy o r o' s (answered ping_alive now) (a, b, c) = ground arith
Step-IsTidy o r o' s (verify_sent now h) (a, b, c) = ground arith
Step-IsTidy o r o' s (verify_answered ping_failed now) (a, b, c) = (a, b, c)
Step-IsTidy o r o' s (verify_answered ping_late now) (a, b, c) = (a, b, c)
Step-IsTidy o r o' s (verify_answered ping_alive now) (a, b, c) = (a, b, c)
Step-IsTidy o r o' s entered (a, b, c) = (a, b, c)
Step-IsTidy o r o' s exited (a, b, c) = ground arith
Step-IsTidy o r o' s (closed h) (a, b, c) = ground arith
Step-IsTidy o r o' s (went_away h) (a, b, c) = (a, b, c)
Step-IsTidy o r o' s other_went_away (a, b, c) = (a, b, c)

-- Over any course of events of a connection, in use, being verified, entered again or left, with
-- an open stream the idle timer does not run; with no open stream, and as long as the listeners of
-- the connection are there, it runs as far as its duration lets a timer run; and the ping interval
-- runs only while there is a stream or idle connections are to be pinged.
pub Reached-IsTidy :
    (options : SessionOptions) (r : ReadyState) → Reached options r → IsTidy options r
unfolding new_ready reset_idle_timeout
Reached-IsTidy options r (opened o conn now) = ground arith
Reached-IsTidy options r (stepped before step) =
    Step-IsTidy _ _ options r step (Reached-IsTidy _ _ before)
