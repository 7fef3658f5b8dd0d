-- ===== src/Session/Ready.antt =====
-- http2-session-manager.ts: the state "ready" of a connection, its counters and timers.
pub mod Timers
use node_dubbo.Prelude.{
  ℕ, ◌+◌, ◌-◌, ◌*◌, ◌≡◌, Bool, true, false, not, ◌||◌, ◌&&◌, ltb, leb, ◌==◌, if◌then◌else◌,
}

-- `Number.POSITIVE_INFINITY`, the default of `pingIntervalMs`, or a number.
pub data Duration : Type 0 where
  infinite : Duration
  ms : ℕ → Duration

-- `safeSetTimeout`: whether a timer is started.
abbrev pub armed : Duration → Bool
armed infinite = false
armed (ms n) = leb n 0x7fffffff

abbrev pub exceeds : ℕ → Duration → Bool
exceeds elapsed infinite = false
exceeds elapsed (ms n) = ltb n elapsed

abbrev pub twice : Duration → Duration
twice infinite = infinite
twice (ms n) = ms (n * 2)

pub data PingResult : Type 0 where
  ping_failed : PingResult
  ping_late : PingResult
  ping_alive : PingResult

pub record SessionOptions : Type 0 where
  pub ping_interval_ms : Duration
  pub ping_timeout_ms : Duration
  pub ping_idle_connection : Bool
  pub idle_connection_timeout_ms : Duration

pub record ReadyState : Type 0 where
  pub conn : ℕ
  pub last_alive_at : ℕ
  pub stream_count : ℕ
  pub ping_interval : Bool
  pub ping_timeout : Bool
  pub idle_timeout : Bool
  pub too_many_pings : Bool
  -- Whether the listeners of the connection are there, and whether `onClose` and `onError` are set.
  pub listening : Bool
  pub reporting : Bool

abbrev pub stop_ping_interval : ReadyState → ReadyState
stop_ping_interval r = record r { ping_interval = false; ping_timeout = false }

abbrev pub stop_idle_timeout : ReadyState → ReadyState
stop_idle_timeout r = record r { idle_timeout = false }

module _ (options : SessionOptions) where
  unfoldable pub reset_ping_interval : ReadyState → ReadyState
  reset_ping_interval r =
      if ltb 0 r.stream_count || options.ping_idle_connection
      then record r { ping_interval = armed options.ping_interval_ms; ping_timeout = false }
      else stop_ping_interval r

  unfoldable pub reset_idle_timeout : ReadyState → ReadyState
  reset_idle_timeout r = record r { idle_timeout = armed options.idle_connection_timeout_ms }

  -- `ready(conn, options)` at the time `now`.
  unfoldable pub new_ready : ℕ → ℕ → ReadyState
  unfolding reset_idle_timeout
  new_ready conn now = reset_idle_timeout (record {
    conn = conn;
    last_alive_at = now;
    stream_count = 0;
    ping_interval = false;
    ping_timeout = false;
    idle_timeout = false;
    too_many_pings = false;
    listening = true;
    reporting = false;
  })

  unfoldable pub requires_verify : ℕ → ReadyState → Bool
  requires_verify now r = exceeds (now - r.last_alive_at) options.ping_interval_ms

  unfoldable pub register_request : ReadyState → ReadyState
  unfolding reset_ping_interval
  register_request r =
      let opened = record r { stream_count = r.stream_count + 1 } in
      if r.stream_count + 1 == 1 then stop_idle_timeout (reset_ping_interval opened) else opened

  -- The listener of a stream's "response".
  unfoldable pub on_response : ℕ → ReadyState → ReadyState
  unfolding reset_ping_interval
  on_response now r = reset_ping_interval (record r { last_alive_at = now })

  -- The listener of a stream's "close".
  unfoldable pub on_stream_close : ReadyState → ReadyState
  unfolding reset_ping_interval reset_idle_timeout
  on_stream_close r =
      let left = record r { stream_count = r.stream_count - 1 } in
      if r.stream_count - 1 == 0 then reset_idle_timeout (reset_ping_interval left) else left

  -- `same_session` is `stream.session === conn`, `usable` that the connection is neither closed nor
  -- destroyed.
  unfoldable pub response_byte_read : Bool → Bool → ℕ → ReadyState → ReadyState
  unfolding reset_ping_interval
  response_byte_read same_session usable now r =
      if not same_session || (not usable || not (ltb 0 r.stream_count))
      then r
      else reset_ping_interval (record r { last_alive_at = now })

  -- `commonPing` until the answer.
  unfoldable pub common_ping : ReadyState → ReadyState
  common_ping r = record r { ping_timeout = armed options.ping_timeout_ms }

  -- The timer of the ping interval goes off.
  unfoldable pub on_ping_interval : ReadyState → ReadyState
  unfolding common_ping
  on_ping_interval r = common_ping (record r { ping_interval = false })

  -- What the callback of `conn.ping` is called for: an error, an answer that took too long, which
  -- destroys the connection, or an answer in time.
  unfoldable pub ping_result : Bool → ℕ → PingResult
  ping_result failed duration =
      if failed
      then ping_failed
      else if exceeds duration options.ping_timeout_ms
      then ping_late
      else ping_alive

-- The callback before it calls `onSuccess`.
unfoldable pub ping_answered : PingResult → ℕ → ReadyState → ReadyState
ping_answered ping_failed now r = record r { ping_timeout = false }
ping_answered ping_late now r = record r { ping_timeout = false }
ping_answered ping_alive now r = record r { ping_timeout = false; last_alive_at = now }

-- The answer to the PING frame of `onPingInterval`.
unfoldable pub interval_answered : SessionOptions → PingResult → ℕ → ReadyState → ReadyState
unfolding ping_answered reset_ping_interval
interval_answered options ping_failed now r = ping_answered ping_failed now r
interval_answered options ping_late now r = ping_answered ping_late now r
interval_answered options ping_alive now r =
    reset_ping_interval options (ping_answered ping_alive now r)

-- `cleanup` and `onExitState`.
unfoldable pub cleanup : ReadyState → ReadyState
cleanup r = record r {
  ping_interval = false;
  ping_timeout = false;
  idle_timeout = false;
  listening = false;
}

unfoldable pub on_exit_state : ReadyState → ReadyState
unfolding cleanup
on_exit_state r = record (cleanup r) { reporting = false }
