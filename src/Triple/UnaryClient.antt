-- ===== src/Triple/UnaryClient.antt =====
-- packages/dubbo/src/protocol-triple: validate-response.ts, and the response of a unary call in
-- transport.ts. The HTTP client, interceptors and abort signals are left out.
pub mod Failure
use node_dubbo.Prelude.{
  ℕ, Bool, true, false, not, String, List, [], Option, none, some, ◌==◌, str_eq, decimal, lower,
  ◌+++◌, if◌then◌else◌,
}
use node_dubbo.ByteArray.{Bytes}
use node_dubbo.Headers.{Headers, get}
use node_dubbo.Error.{Code, DubboError, new_error, Outcome, ok, thrown, dubbo, ◌>>=◌}
use node_dubbo.Error.HttpStatus.{code_from_http_status}
use node_dubbo.Stream.{Stream}
use node_dubbo.Envelope.{Compression}
use node_dubbo.Iterable.{Serialization}
use node_dubbo.Iterable.ReadAll.{read_all_bytes}
use node_dubbo.Grpc.Response.{response_encoding}
use node_dubbo.Triple.Json.{JsonCoding}
use node_dubbo.Triple.ErrorJson.{error_from_json_bytes}
use node_dubbo.Triple.EndStream.{append_headers}
use node_dubbo.Triple.Mux.{trailer_demux}
use node_dubbo.Triple.UnaryHandler.{hint_of, decompressed}

-- The error that a status stands for: a unary method may find a better one in the body.
unfoldable pub status_error : ℕ → Headers → DubboError
status_error status headers =
    new_error ("HTTP " +++ decimal status) (code_from_http_status status) headers []

unfoldable pub validate_response : Bool → ℕ → Headers → Outcome (Option DubboError)
unfolding status_error
validate_response is_unary status headers =
    if not (status == 200)
    then if is_unary
      then ok (some (status_error status headers))
      else thrown (dubbo (status_error status headers))
    else ok none

-- The encoding is looked at first.
unfoldable pub validate_response_with_compression :
    Bool → List Compression → ℕ → Headers → Outcome (Option Compression × Option DubboError)
unfolding validate_response response_encoding
validate_response_with_compression is_unary accept status headers = do
  compression ←
      response_encoding accept headers
        (get (if is_unary then "Content-Encoding" else "Connect-Content-Encoding") headers)
  unary_error ← validate_response is_unary status headers
  ok (compression, unary_error)

pub record UnaryResponse {ℓ} (O : Type ℓ) : Type ℓ where
  pub header : Headers
  pub message : O
  pub trailer : Headers

module _ {ℓ} {O : Type ℓ} (coding : JsonCoding) (serialization : Serialization O) where
  unfoldable pub read_outcome :
      Headers × Headers → Bytes → Option DubboError → Outcome (UnaryResponse O)
  unfolding append_headers
  read_outcome (header, trailer) body (some fallback) =
      error_from_json_bytes coding body (append_headers header trailer) fallback
      >>= (λ e. thrown (dubbo e))
  read_outcome (header, trailer) body none =
      serialization.parse body
      >>= (λ message. ok (record { header = header; message = message; trailer = trailer }))

  unfoldable pub read_unary_response :
      List Compression → ℕ → ℕ → Headers → Stream Bytes → Outcome (UnaryResponse O)
  unfolding validate_response_with_compression read_outcome trailer_demux
  read_unary_response accept read_max_bytes status header body = do
    (compression, unary_error) ← validate_response_with_compression true accept status header
    all_bytes ← read_all_bytes body read_max_bytes (hint_of (get "Content-Length" header))
    response_body ← decompressed compression read_max_bytes all_bytes
    read_outcome (trailer_demux header) response_body unary_error
