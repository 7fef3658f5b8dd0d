-- ===== src/Examples/Clients.antt =====
-- The theorems about clients and the errors of Node.js, at concrete calls.
use node_dubbo.Prelude.{ℕ, ◌≤◌, ◌≡◌, refl, false, List, [], ◌∷◌, Option, none, some, length, arith}
use node_dubbo.Error.{Reason, native, ok}
use node_dubbo.Stream.{raised, yields}
use node_dubbo.Client.{StreamResponse}
use node_dubbo.Client.Callback.{Called, server_streaming_calls}
use node_dubbo.Client.Callback.Closing.{closes, closes-server_streaming_calls}
use node_dubbo.Node.Reasons.{Store, error_at, unwrap_node_error_chain}
use node_dubbo.Node.HttpClient.{start, body_chunk, body_end, sentinel_settled}
use node_dubbo.Node.HttpClient.Course.{
  Event, opened, closed_by, responded, aborted, read, IsSound, Keeps, run,
}
use node_dubbo.Node.HttpClient.Course.Settling.{run-start-Keeps}
use node_dubbo.Node.Reasons.Chain.{unwrap_node_error_chain-fuel}

abbrev broken : Reason
broken = native "Error" "broken"

abbrev no_throws : Called ℕ → Option Reason
no_throws c = none

abbrev broken_response : StreamResponse ℕ
broken_response = record { header = []; messages = yields 4 (raised broken); trailer = [] }

closes_example : closes (server_streaming_calls no_throws false (ok broken_response)) ≡ 1
closes_example = closes-server_streaming_calls no_throws false (ok broken_response) refl

-- Two errors that cause one another.
abbrev cycle : Store
cycle =
    record { seen = broken; code = none; syscall = none; cause = some (error_at 1) }
    ∷ record { seen = broken; code = some "ECONNRESET"; syscall = none; cause = some (error_at 0) }
    ∷ []

chain_example :
    (unwrap_node_error_chain 3 cycle (error_at 1) ≡ unwrap_node_error_chain 9 cycle (error_at 1))
    × (length (unwrap_node_error_chain 3 cycle (error_at 1)) ≤ length cycle)
chain_example = unwrap_node_error_chain-fuel 3 9 cycle (error_at 1) (omega arith) (omega arith)

abbrev a_request : List Event
a_request =
    opened
    ∷ responded 200
    ∷ read (body_chunk (7 ∷ []))
    ∷ aborted (error_at 1)
    ∷ read sentinel_settled
    ∷ []

abbrev more_events : List Event
more_events = closed_by 8 ∷ read body_end ∷ []

request_example :
    IsSound (run cycle start a_request)
    × Keeps (run cycle start a_request) (run cycle (run cycle start a_request) more_events)
request_example = run-start-Keeps cycle a_request more_events
