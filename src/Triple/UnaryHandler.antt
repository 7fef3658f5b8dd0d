-- ===== src/Triple/UnaryHandler.antt =====
-- packages/dubbo/src/protocol-triple/handler-factory.ts: createUnaryHandler. Timers, abort signals
-- and the cause of an error are left out. The parameters of the query of a GET request are those
-- that the platform's `URL` has read, and the coding of texts is the platform's.
use node_dubbo.Prelude.{
  ℕ, Bool, not, ◌&&◌, String, [], ◌∷◌, Option, none, some, str_eq, leb, length, decimal, ◌+++◌,
  if◌then◌else◌,
}
use node_dubbo.ByteArray.{Bytes}
use node_dubbo.Headers.{Headers, get, set, set_all}
use node_dubbo.Error.{Code, DubboError, Detail, Reason, Outcome, ok, thrown, raise, ◌>>=◌, ◌>>◌}
use node_dubbo.Error
use node_dubbo.Error.HttpStatus.{code_to_http_status}
use node_dubbo.Stream.{Stream, create_async_iterable}
use node_dubbo.Envelope.{Compression}
use node_dubbo.Compression.{Negotiated, compression_negotiate}
use node_dubbo.Iterable.{Serialization}
use node_dubbo.Iterable.ReadAll.{LengthHint, read_all_bytes}
use node_dubbo.Invoke.{Effects, no_effects, invoke_unary_implementation}
use node_dubbo.Triple.Json.{Json, JsonCoding}
use node_dubbo.Triple.ErrorJson.{error_to_json_bytes}
use node_dubbo.Triple.Mux.{trailer_mux}
use node_dubbo.Triple.Request.{
  ContentType, Timeout, header_timeout, parse_content_type, parse_encoding_query, parse_timeout,
  protocol_version, require_protocol_version_header,
}
use node_dubbo.Triple.StreamHandler.{
  HandlerOptions, ServerResponse, status_only, throw_if, reported,
}

-- `URLSearchParams` by `get`, and the body of a request: bytes, or JSON that a framework has read.
pub data UnaryBody : Type 0 where
  byte_stream : Stream Bytes → UnaryBody
  json_value : Json → UnaryBody

pub record UnaryRequest : Type 0 where
  pub method : String
  pub query : String → Option String
  pub header : Headers
  pub body : UnaryBody

pub data Input : Type 0 where
  bytes : Bytes → Input
  json : Json → Input

-- requireProtocolVersionParam of version.ts.
unfoldable pub require_protocol_version_param : Option String → Outcome (Unit {0})
require_protocol_version_param none =
    raise ("missing required parameter: set triple to \"v" +++ (protocol_version +++ "\""))
      Code.invalid_argument
require_protocol_version_param (some v) =
    if not (str_eq v ("v" +++ protocol_version))
    then raise ("triple must be \"v" +++ (protocol_version +++ ("\": got \"" +++ (v +++ "\""))))
        Code.invalid_argument
    else ok tt

abbrev pub hint_of : Option String → LengthHint
hint_of none = LengthHint.absent
hint_of (some s) = LengthHint.text s

abbrev pub decompressed : Option Compression → ℕ → Bytes → Outcome Bytes
decompressed none max b = ok b
decompressed (some c) max b = c.decompress b max

unfoldable pub read_unary_message_from_body :
    ℕ → Option Compression → Headers → UnaryBody → Outcome Input
read_unary_message_from_body max compression header (json_value v) = ok (json v)
read_unary_message_from_body max compression header (byte_stream s) = do
  all_bytes ← read_all_bytes s max (hint_of (get "Content-Length" header))
  plain ← decompressed compression max all_bytes
  ok (bytes plain)

abbrev or_empty : Option String → String
or_empty none = ""
or_empty (some s) = s

module _ (coding : JsonCoding) (encode : String → Bytes) where
  unfoldable pub decoded_message : Option String → String → Outcome Bytes
  decoded_message none message = ok (encode message)
  decoded_message (some base64) message =
      if str_eq base64 "1" then coding.base64_dec message else ok (encode message)

  unfoldable pub read_unary_message_from_query :
      ℕ → Option Compression → (String → Option String) → Outcome Input
  unfolding decoded_message
  read_unary_message_from_query max compression query = do
    decoded ← decoded_message (query "base64") (or_empty (query "message"))
    plain ← decompressed compression max decoded
    ok (bytes plain)

-- `from_json` is `method.I.fromJson` of @bufbuild/protobuf.
unfoldable pub parse_unary_message {ℓ} :
    {I : Type ℓ} → (Bool → Serialization I) → (Json → Outcome I) → Bool → Input → Outcome I
parse_unary_message serialization from_json binary (bytes b) = (serialization binary).parse b
parse_unary_message serialization from_json binary (json v) =
    if binary
    then raise "received parsed JSON request body, but content-type indicates binary format"
        Code.internal
    else elim (from_json v) [
      | ok input ↦ ok input
      | thrown e ↦ thrown (Error.Reason.dubbo (Error.from e Code.invalid_argument))
    ]

-- What the `try` and the `catch` leave: the status, the header and the body.
pub record Answer : Type 0 where
  pub status : ℕ
  pub header : Headers
  pub body : Bytes

module _ (coding : JsonCoding) (debug_of : Detail → Option Json) where
  unfoldable pub answer_error : Headers → DubboError → Answer
  answer_error header e = record {
    status = code_to_http_status e.code;
    header = set_all e.metadata (set "Content-Type" "application/json" header);
    body = error_to_json_bytes coding debug_of e;
  }

  unfoldable pub answer : Headers → Outcome Bytes → Answer
  unfolding answer_error reported
  answer header (ok body) = record { status = 200; header = header; body = body }
  answer header (thrown e) = answer_error header (reported e)

-- Long bodies are compressed.
unfoldable pub answer_with : Option Compression → ℕ → Answer → Outcome Answer
answer_with none compress_min_bytes a = ok a
answer_with (some c) compress_min_bytes a =
    if leb compress_min_bytes (length a.body)
    then c.compress a.body
      >>= (λ b. ok (record a { body = b; header = set "Content-Encoding" c.name a.header }))
    else ok a

unfoldable pub unary_response : Headers → Answer → ServerResponse
unfolding trailer_mux
unary_response trailer a = record {
  status = a.status;
  header = set "Content-Length" (decimal (length a.body)) (trailer_mux a.header trailer);
  body = some (create_async_iterable (a.body ∷ []));
}

module _ {ℓ κ μ} {I : Type ℓ} {R : Type κ} {O : Type μ} (opt : HandlerOptions)
    (serialization_i : Bool → Serialization I) (serialization_o : Bool → Serialization O)
    (coding : JsonCoding) (debug_of : Detail → Option Json) (encode : String → Bytes)
    (from_json : Json → Outcome I) (normalize : R → Outcome O) (impl : I → Outcome R)
    (no_side_effects : Bool) (effects : I → Effects) where
  -- What is thrown before the message of the request is read.
  unfoldable pub check_unary_request :
      UnaryRequest → Bool → Negotiated → Timeout → Outcome (Unit {0})
  unfolding require_protocol_version_param
  check_unary_request req is_get compression timeout =
      (if opt.require_connect_protocol_header
        then if is_get
          then require_protocol_version_param (req.query "triple")
          else require_protocol_version_header req.header
        else ok tt)
      >> throw_if compression.error
      >> throw_if timeout.error

  -- The `try` block, up to the call of the implementation.
  unfoldable pub unary_input : UnaryRequest → Bool → Bool → Negotiated → Timeout → Outcome I
  unfolding check_unary_request read_unary_message_from_body read_unary_message_from_query
      parse_unary_message
  unary_input req is_get binary compression timeout = do
    check_unary_request req is_get compression timeout
    req_body ←
        if is_get
        then read_unary_message_from_query coding encode opt.read_max_bytes compression.request
            req.query
        else read_unary_message_from_body opt.read_max_bytes compression.request req.header req.body
    parse_unary_message serialization_i from_json binary req_body

  -- The rest of it.
  unfoldable pub unary_output : Bool → Outcome I → Outcome Bytes
  unary_output binary read = do
    input ← read
    output ← invoke_unary_implementation normalize impl input
    (serialization_o binary).serialize output

  -- `effects` is what the implementation does to the response, if it is called.
  abbrev pub unary_effects : Outcome I → Effects
  unary_effects (ok input) = effects input
  unary_effects (thrown e) = no_effects

  unfoldable pub handle_unary : UnaryRequest → Bool → Option String → Bool → Outcome ServerResponse
  unfolding unary_input unary_output answer answer_with unary_response
  handle_unary req is_get encoding binary = do
    let timeout = parse_timeout (get header_timeout req.header) opt.max_timeout_ms
    let compression =
        compression_negotiate opt.accept_compression encoding (get "Accept-Encoding" req.header)
          "Accept-Encoding"
    let input = unary_input req is_get binary compression timeout
    let done = unary_effects input
    let header =
        done.to_header
          (set "Content-Type" (if binary then "application/proto" else "application/json") [])
    a ←
        answer_with compression.response opt.compress_min_bytes
          (answer coding debug_of header (unary_output binary input))
    ok (unary_response (done.to_trailer []) a)

  unfoldable pub handle_unary_type :
      UnaryRequest → Bool → Option String → Option ContentType → Outcome ServerResponse
  unfolding handle_unary
  handle_unary_type req is_get encoding none = ok (status_only 415)
  handle_unary_type req is_get encoding (some type) =
      if type.stream then ok (status_only 415) else handle_unary req is_get encoding type.binary

  unfoldable pub create_unary_handler : UnaryRequest → Outcome ServerResponse
  unfolding handle_unary_type
  create_unary_handler req =
      let is_get = str_eq req.method "GET" in
      if is_get && not no_side_effects
      then ok (status_only 405)
      else handle_unary_type req is_get
          (if is_get then req.query "compression" else get "Content-Encoding" req.header)
          (if is_get
            then parse_encoding_query (req.query "encoding")
            else parse_content_type (get "Content-Type" req.header))
