-- ===== src/Grpc/Response.antt =====
-- packages/dubbo/src: protocol-grpc/validate-response.ts, and protocol-grpc-web/validate-response.ts,
-- which takes every status from 200 to 299 as valid.
use node_dubbo.Prelude.{
  ℕ, Bool, not, ◌&&◌, String, List, [], Option, none, some, ltb, leb, ◌==◌, str_eq, ◌+++◌, decimal,
  lower, if◌then◌else◌,
}
use node_dubbo.Headers.{Headers, get, has}
use node_dubbo.Error.{Code, new_error, Outcome, ok, thrown, dubbo, ◌>>=◌, ◌>>◌}
use node_dubbo.Error.HttpStatus.{grpc_code_from_http_status}
use node_dubbo.Envelope.{Compression}
use node_dubbo.Compression.{find_named}
use node_dubbo.Grpc.Status.{
  TextCoding, header_grpc_status, header_grpc_message, find_trailer_error, throw_found,
}
use node_dubbo.Grpc.Request.{header_encoding}

-- `throw new DubboError(message, code, headers)`.
abbrev refused {ℓ} : {A : Type ℓ} → String → Code → Headers → Outcome A
refused message code headers = thrown (dubbo (new_error message code headers []))

abbrev found_encoding : String → Headers → Option Compression → Outcome (Option Compression)
found_encoding encoding headers (some c) = ok (some c)
found_encoding encoding headers none =
    refused ("unsupported response encoding \"" +++ (encoding +++ "\"")) Code.invalid_argument
      headers

-- The compression that the header names.
unfoldable pub response_encoding :
    List Compression → Headers → Option String → Outcome (Option Compression)
response_encoding accept headers none = ok none
response_encoding accept headers (some encoding) =
    if not (str_eq (lower encoding) "identity")
    then found_encoding encoding headers (find_named accept encoding)
    else ok none

module _ (coding : TextCoding) where
  -- If a status was found in the header.
  unfoldable pub found_status : Headers → Outcome Bool
  unfolding find_trailer_error
  found_status headers =
      find_trailer_error coding headers >>= throw_found >> ok (has header_grpc_status headers)

  unfoldable pub validate_response : ℕ → Headers → Outcome Bool
  unfolding found_status
  validate_response status headers =
      if not (status == 200)
      then refused ("HTTP " +++ decimal status) (grpc_code_from_http_status status) headers
      else found_status headers

  abbrev or_status : ℕ → Option String → String
  or_status status none = "HTTP " +++ decimal status
  or_status status (some text) = text

  unfoldable pub validate_web_response : ℕ → Headers → Outcome Bool
  unfolding found_status
  validate_web_response status headers =
      if leb 200 status && ltb status 300
      then found_status headers
      else coding.decode_component (or_status status (get header_grpc_message headers))
        >>= (λ message. refused message (grpc_code_from_http_status status) headers)

  abbrev pub with_compression :
      (ℕ → Headers → Outcome Bool)
      → List Compression
      → ℕ
      → Headers
      → Outcome (Bool × Option Compression)
  with_compression validate accept status headers = do
    found ← validate status headers
    compression ← response_encoding accept headers (get header_encoding headers)
    ok (found, compression)

  unfoldable pub validate_response_with_compression :
      List Compression → ℕ → Headers → Outcome (Bool × Option Compression)
  unfolding validate_response response_encoding
  validate_response_with_compression = with_compression validate_response

  unfoldable pub validate_web_response_with_compression :
      List Compression → ℕ → Headers → Outcome (Bool × Option Compression)
  unfolding validate_web_response response_encoding
  validate_web_response_with_compression = with_compression validate_web_response
