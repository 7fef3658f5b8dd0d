-- ===== src/Node/HttpClient.antt =====
-- packages/dubbo-node/src/node-universal-client.ts, the client over HTTP/2: the sentinel of a
-- request, and what the events of its stream do. Node.js and its streams are the events.
pub mod Course
use node_dubbo.Prelude.{
  ℕ, suc, Bool, true, false, ◌&&◌, not, String, List, [], ◌∷◌, ◌++◌, Option, none, some, any,
  length, ◌==◌, str_eq, ◌+++◌, if◌then◌else◌,
}
use node_dubbo.ByteArray.{Bytes}
use node_dubbo.Error.{Code, code_number, DubboError, error}
use node_dubbo.Node.Reasons.{
  Thrown, Store, has_code, code_at, unwrap_node_error_chain, dubbo_error_from_node_reason,
  dubbo_error_from_h2_reset_code,
}

-- `createSentinel`: the promise and the flags `resolved` and `rejected`.
pub data Sentinel : Type 0 where
  pending : Sentinel
  resolved : Sentinel
  rejected : DubboError → Sentinel

-- What settles the promise of the response, or a read of its body.
pub data Answer : Type 0 where
  waiting : Answer
  answered : ℕ → Answer
  refused : DubboError → Answer

pub data Result : Type 0 where
  chunk : Bytes → Result
  end : Result
  failed : DubboError → Result
  thrown : Thrown → Result

abbrev pub cancel : ℕ
cancel = 8

abbrev pub internal_error : ℕ
internal_error = 2

-- A request: its sentinel and response, if the stream is closed, the code that it was closed with
-- by the client, and what the reads of the body have come to.
pub record Request : Type 0 where
  pub sentinel : Sentinel
  pub answer : Answer
  pub opened : Bool
  pub closed : Bool
  pub rst_sent : Option ℕ
  pub results : List Result

unfoldable pub start : Request
start = record {
  sentinel = pending;
  answer = waiting;
  opened = false;
  closed = false;
  rst_sent = none;
  results = [];
}

unfoldable pub resolve : Sentinel → Sentinel
resolve pending = resolved
resolve resolved = resolved
resolve (rejected e) = rejected e

-- `reject` of the response's promise.
abbrev pub refuse : DubboError → Answer → Answer
refuse e waiting = refused e
refuse e (answered status) = answered status
refuse e (refused e') = refused e'

abbrev pub rst_code : DubboError → ℕ
rst_code e = if code_number e.code == code_number Code.canceled then cancel else internal_error

-- The `catch` handlers of the sentinel: the stream is closed unless it is closed already, or not
-- there yet.
abbrev pub close_stream : DubboError → Request → Request
close_stream e r =
    if r.opened && not r.closed then record r { closed = true; rst_sent = some (rst_code e) } else r

abbrev pub rejects : DubboError → Request → Sentinel → Request
rejects e r pending =
    close_stream e (record r { sentinel = rejected e; answer = refuse e r.answer })
rejects e r resolved = r
rejects e r (rejected e') = r

unfoldable pub reject_with : DubboError → Request → Request
reject_with e r = rejects e r r.sentinel

-- The listener on "close" of the stream.
abbrev pub reset : Option DubboError → Request → Request
reset none r = r
reset (some e) r = reject_with e r

unfoldable pub stream_close : ℕ → Request → Request
unfolding reject_with
stream_close rst r = reset (dubbo_error_from_h2_reset_code rst) (record r { closed = true })

-- The stream is there once the session manager has opened it: a sentinel that was rejected before
-- closes it at once.
abbrev pub close_if_rejected : Sentinel → Request → Request
close_if_rejected pending r = r
close_if_rejected resolved r = r
close_if_rejected (rejected e) r = close_stream e r

unfoldable pub stream_opened : Request → Request
stream_opened r = close_if_rejected r.sentinel (record r { opened = true })

-- Resolving a promise that is settled does nothing.
abbrev pub respond_to : ℕ → Request → Answer → Request
respond_to status r waiting = record r { answer = answered status }
respond_to status r (answered status') = r
respond_to status r (refused e) = r

unfoldable pub response : ℕ → Request → Request
response status r = respond_to status r r.answer

-- The URL of the request is looked at before a stream is asked for.
unfoldable pub check_origin : String → String → Request → Request
unfolding reject_with
check_origin origin authority r =
    if str_eq origin authority
    then r
    else reject_with
        (error
          ("cannot make a request to "
            +++ (origin +++ (": the http2 session is connected to " +++ authority)))
          Code.internal)
        r

module _ (store : Store) where
  -- `sentinel.reject(reason)`; the fuel is one more than there are errors.
  unfoldable pub reject : Thrown → Request → Request
  unfolding reject_with
  reject reason r = reject_with (dubbo_error_from_node_reason (suc (length store)) store reason) r

  -- `unwrapNodeErrorChain(e).map(getNodeErrorProps).some(...)`.
  unfoldable pub is_write_after_end : Thrown → Bool
  unfolding unwrap_node_error_chain has_code code_at
  is_write_after_end reason =
      any (λ n. has_code ("ERR_STREAM_WRITE_AFTER_END" ∷ []) (code_at store n))
        (unwrap_node_error_chain (suc (length store)) store reason)

  -- The listener on "error" of the stream, and the callback of a write.
  unfoldable pub stream_error : Bool → Thrown → Request → Request
  unfolding is_write_after_end reject
  stream_error writable_ended e r = if writable_ended && is_write_after_end e then r else reject e r

-- Who is first where `next` races the body against the sentinel.
pub data First : Type 0 where
  body_chunk : Bytes → First
  body_end : First
  body_fails : Thrown → First
  sentinel_settled : First

abbrev pub result_of : Sentinel → Result
result_of pending = end
result_of resolved = end
result_of (rejected e) = failed e

abbrev pub early : DubboError
early = error "sentinel completed early" Code.internal

abbrev pub add : Result → Request → Request
add result r = record r { results = r.results ++ (result ∷ []) }

-- A `next()` of the body. A promise that is pending does not win.
abbrev pub next_of : First → Request → Sentinel → Request
next_of (body_chunk bytes) r s = add (chunk bytes) r
next_of body_end r s = add (result_of (resolve s)) (record r { sentinel = resolve s })
next_of (body_fails e) r s = add (thrown e) r
next_of sentinel_settled r pending = r
next_of sentinel_settled r resolved = add (failed early) r
next_of sentinel_settled r (rejected e) = add (failed e) r

unfoldable pub next : First → Request → Request
unfolding resolve
next first r = next_of first r r.sentinel
