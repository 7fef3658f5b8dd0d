-- ===== src/Node/HttpClient/Course.antt =====
-- A request of node-universal-client.ts over any course of events.
pub mod Soundness
pub mod Settling
use node_dubbo.Prelude.{
  ℕ, ◌≢◌, ◌≡◌, refl, sym, subst, ap, ◌∙◌, Bool, true, false, ◌&&◌, not, str_eq, String, List, [],
  ◌∷◌, ◌++◌, Option, none, some, arith, All, Bool-cases, inl, inr, if◌then◌else◌,
}
use node_dubbo.Error.{DubboError, code_number}
use node_dubbo.Node.Reasons.{Thrown, Store, dubbo_error_from_h2_reset_code}
use node_dubbo.Node.HttpClient.{
  Sentinel, pending, resolved, rejected, Answer, waiting, answered, refused, Result, chunk, end,
  failed, thrown, Request, start, resolve, refuse, rst_code, close_stream, rejects, reject_with,
  reject, stream_error, reset, stream_close, close_if_rejected, stream_opened, respond_to, response,
  check_origin, is_write_after_end, First, body_chunk, body_end, body_fails, sentinel_settled,
  early, add, next_of, next,
}

-- What may happen: the origin is checked, the stream is opened, has an error, is closed, or gets
-- its response, the caller aborts or something else rejects the sentinel, or the body is read.
pub data Event : Type 0 where
  checked : String → String → Event
  opened : Event
  errored : Bool → Thrown → Event
  closed_by : ℕ → Event
  responded : ℕ → Event
  aborted : Thrown → Event
  read : First → Event

unfoldable pub step : Store → Event → Request → Request
step store (checked origin authority) r = check_origin origin authority r
step store opened r = stream_opened r
step store (errored ended e) r = stream_error store ended e r
step store (closed_by rst) r = stream_close rst r
step store (responded status) r = response status r
step store (aborted reason) r = reject store reason r
step store (read first) r = next first r

pub run : Store → Request → List Event → Request
run store r [] = r
run store r (e ∷ es) = run store (step store e r) es

-- What a read can have come to, by how the sentinel is settled.
abbrev pub Fits : Sentinel → Result → Type 0
Fits s (chunk bytes) = Unit
Fits s (thrown e) = Unit
Fits pending end = ⊥
Fits resolved end = Unit
Fits (rejected e) end = ⊥
Fits pending (failed e) = ⊥
Fits resolved (failed e) = e ≡ early
Fits (rejected e) (failed e') = e' ≡ e

abbrev pub IsSettled : Answer → Type 0
IsSettled waiting = ⊥
IsSettled (answered status) = Unit
IsSettled (refused e) = Unit

-- The code of canceled is 1; CANCEL is 8, and INTERNAL_ERROR is 2.
abbrev pub ClosedFor : DubboError → Option ℕ → Type 0
ClosedFor e none = Unit
ClosedFor e (some code) = (code_number e.code ≡ 1 → code ≡ 8) × (code_number e.code ≢ 1 → code ≡ 2)

abbrev pub IsSoundAt : Sentinel → Request → Type 0
IsSoundAt pending r = (r.rst_sent ≡ none) × All (Fits pending) r.results
IsSoundAt resolved r = (r.rst_sent ≡ none) × All (Fits resolved) r.results
IsSoundAt (rejected e) r =
    IsSettled r.answer
    × (ClosedFor e r.rst_sent
        × ((r.opened ≡ true → r.closed ≡ true) × All (Fits (rejected e)) r.results))

abbrev pub IsSound : Request → Type 0
IsSound r = IsSoundAt r.sentinel r

-- What is settled stays as it is.
abbrev pub KeepsSentinel : Sentinel → Sentinel → Type 0
KeepsSentinel pending s = Unit
KeepsSentinel resolved s = s ≡ resolved
KeepsSentinel (rejected e) s = s ≡ rejected e

abbrev pub KeepsAnswer : Answer → Answer → Type 0
KeepsAnswer waiting a = Unit
KeepsAnswer (answered status) a = a ≡ answered status
KeepsAnswer (refused e) a = a ≡ refused e

abbrev pub Keeps : Request → Request → Type 0
Keeps r r' = KeepsSentinel r.sentinel r'.sentinel × KeepsAnswer r.answer r'.answer
