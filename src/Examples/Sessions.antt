-- ===== src/Examples/Sessions.antt =====
-- The theorems about HTTP/2 sessions, at concrete options and states.
use node_dubbo.Prelude.{◌+◌, ◌<◌, ◌≡◌, refl, true, false, [], arith}
use node_dubbo.Error.{Code, DubboError, dubbo, error}
use node_dubbo.Session.Ready.{
  ms, SessionOptions, ReadyState, new_ready, register_request, on_stream_close, requires_verify,
  ping_alive, ping_answered, common_ping, cleanup, on_exit_state,
}
use node_dubbo.Session.Ready.Timers.{
  calmer, opened, stepped, registered, stream_closed, other_went_away, verify_sent, verify_answered,
  entered, IsTidy, Reached-IsTidy,
}
use node_dubbo.Session.Manager.{
  verifying, ready, closed_or_error, goto_ready, on_close, on_error, on_connect,
}
use node_dubbo.Session.Manager.Races.{
  managing, after_verification, deaf, after_verification-deaf, after_abort, after_abort_lost,
}

abbrev each_second : SessionOptions
each_second = record {
  ping_interval_ms = ms 1000;
  ping_timeout_ms = ms 500;
  ping_idle_connection = false;
  idle_connection_timeout_ms = ms 60000;
}

abbrev each_two_seconds : SessionOptions
each_two_seconds = calmer each_second

-- A stream is open when the connection is verified, and is closed when it is in use again.
abbrev with_stream : ReadyState
with_stream = register_request each_second (new_ready each_second 0 7)

abbrev verified_once : ReadyState
verified_once =
    record (ping_answered ping_alive 5010
      (on_exit_state (common_ping each_two_seconds with_stream))) { reporting = true }

unproved : requires_verify each_two_seconds 5000 with_stream ≡ true
unfolding requires_verify register_request new_ready
unproved = refl

one_open : 0 < verified_once.stream_count
unfolding register_request new_ready ping_answered on_exit_state cleanup common_ping
one_open = omega arith

timers_example : IsTidy each_two_seconds (on_stream_close each_two_seconds verified_once)
timers_example = Reached-IsTidy each_two_seconds (on_stream_close each_two_seconds verified_once) (
    stepped
      (stepped
        (stepped
          (stepped (stepped (stepped (opened each_second 0 7) registered) other_went_away)
            (verify_sent 5000 unproved))
          (verify_answered ping_alive 5010))
        entered)
      (stream_closed one_open))

abbrev fresh : ReadyState
fresh = record {
  conn = 0;
  last_alive_at = 0;
  stream_count = 0;
  ping_interval = false;
  ping_timeout = false;
  idle_timeout = true;
  too_many_pings = false;
  listening = true;
  reporting = true;
}

abbrev reset : DubboError
reset = error "connection reset" Code.unavailable

paused : requires_verify each_second 5000 fresh ≡ true
unfolding requires_verify
paused = refl

deaf_example :
    ((s : ReadyState) × ((goto_ready 5000 (managing (ready fresh) each_second 1 [])).state
        ≡ verifying s)
      × (s.ping_timeout ≡ false))
    × ((after_verification each_second 1 fresh 5000 5010).state ≡ ready (deaf fresh 5010))
    × (on_close 0 (after_verification each_second 1 fresh 5000 5010)
        ≡ after_verification each_second 1 fresh 5000 5010)
    × (on_error 0 reset (after_verification each_second 1 fresh 5000 5010)
        ≡ after_verification each_second 1 fresh 5000 5010)
deaf_example = after_verification-deaf each_second 1 fresh 5000 5010 0 reset paused

lost_example :
    ((after_abort each_second 1 0 (dubbo reset) 3 4).state ≡ closed_or_error (dubbo reset))
    × ((after_abort each_second 1 0 (dubbo reset) 3 4).opened ≡ 1 + 1)
    × (on_connect 1 (after_abort each_second 1 0 (dubbo reset) 3 4)
        ≡ after_abort each_second 1 0 (dubbo reset) 3 4)
lost_example = after_abort_lost each_second 1 0 (dubbo reset) 3 4
