-- ===== src/Triple/StreamHandler.antt =====
-- packages/dubbo/src/protocol-triple/handler-factory.ts, createStreamHandler, with untilFirst of
-- protocol/async-iterable.ts and the responses of protocol/universal.ts. Timers, abort signals and
-- the cause of an error are left out.
use node_dubbo.Prelude.{
  ℕ, Bool, false, not, String, List, [], Option, none, some, str_eq, if◌then◌else◌,
}
use node_dubbo.ByteArray.{Bytes}
use node_dubbo.Headers.{Headers, get, set}
use node_dubbo.Error.{
  Code, DubboError, Reason, dubbo, native, other, out_of_fuel, Outcome, ok, thrown, ◌>>=◌, ◌>>◌,
}
use node_dubbo.Error
use node_dubbo.Stream.{Stream, finished, raised, yields}
use node_dubbo.Envelope.{EnvelopedMessage, Compression}
use node_dubbo.Compression.{Negotiated, compression_negotiate}
use node_dubbo.Iterable.{
  Serialization, transform_prepend, transform_catch_finally, transform_serialize_envelope,
  transform_parse_messages, transform_compress_envelope, transform_decompress_envelope,
  transform_join_envelopes,
}
use node_dubbo.Iterable.Split.{transform_split_envelope}
use node_dubbo.Invoke.{MethodImpl, Effects, effects_on, transform_invoke_implementation}
use node_dubbo.Triple.Request.{
  ContentType, Timeout, header_timeout, parse_content_type, parse_timeout,
  require_protocol_version_header,
}

abbrev pub end_stream_flag : ℕ
end_stream_flag = 2

pub record EndStreamResponse : Type 0 where
  pub metadata : Headers
  pub error : Option DubboError

-- The error that an EndStreamResponse reports for what the pipe has thrown.
unfoldable pub reported : Reason → DubboError
reported (dubbo e) = e
reported (native name message) = Error.error "internal error" Code.internal
reported (other text) = Error.error "internal error" Code.internal
reported out_of_fuel = Error.error "internal error" Code.internal

unfoldable pub end_of : Headers → Option Reason → EndStreamResponse
unfolding reported
end_of trailer none = record { metadata = trailer; error = none }
end_of trailer (some e) = record { metadata = trailer; error = some (reported e) }

-- `untilFirst`: the first element is waited for, and its error is the promise's.
unfoldable pub until_first {ℓ} : {A : Type ℓ} → Stream A → Outcome (Stream A)
until_first finished = ok finished
until_first (raised e) = thrown e
until_first (yields x s) = ok (yields x s)

-- The options of a handler that it uses.
pub record HandlerOptions : Type 0 where
  pub accept_compression : List Compression
  pub compress_min_bytes : ℕ
  pub read_max_bytes : ℕ
  pub require_connect_protocol_header : Bool
  pub max_timeout_ms : ℕ

pub data Body : Type 0 where
  byte_stream : Stream Bytes → Body
  json_value : Body

pub record ServerRequest : Type 0 where
  pub method : String
  pub header : Headers
  pub body : Body

pub record ServerResponse : Type 0 where
  pub status : ℕ
  pub header : Headers
  pub body : Option (Stream Bytes)

abbrev pub status_only : ℕ → ServerResponse
status_only status = record { status = status; header = []; body = none }

abbrev pub throw_if : Option DubboError → Outcome (Unit {0})
throw_if none = ok tt
throw_if (some e) = thrown (dubbo e)

abbrev pub encoding_header : Option Compression → Headers → Headers
encoding_header none h = h
encoding_header (some c) h = set "Connect-Content-Encoding" c.name h

-- The pipe from the outputs of the implementation to the bytes of the response's body.
unfoldable pub end_envelope :
    Serialization EndStreamResponse → Headers → Option Reason → Outcome (Option EnvelopedMessage)
unfolding end_of
end_envelope end_serialization trailer e = do
  payload ← end_serialization.serialize (end_of trailer e)
  ok (some (record { flags = end_stream_flag; payload = payload }))

unfoldable pub respond {ℓ} :
    {O : Type ℓ}
    → Serialization O
    → Serialization EndStreamResponse
    → Headers
    → Option Compression
    → ℕ
    → Stream O
    → Stream Bytes
unfolding end_envelope
respond serialization end_serialization trailer compression compress_min_bytes output =
    transform_join_envelopes (
      transform_compress_envelope compression compress_min_bytes (
        transform_catch_finally (end_envelope end_serialization trailer)
          (transform_serialize_envelope serialization output)))

module _ {ℓ} {I : Type ℓ} (opt : HandlerOptions) (serialization_i : Bool → Serialization I) where
  -- What is thrown before the first byte of the body is read.
  unfoldable pub check_request : ServerRequest → Negotiated → Timeout → Outcome (Option Bytes)
  check_request req compression timeout = do
    (if opt.require_connect_protocol_header
        then require_protocol_version_header req.header
        else ok tt)
    throw_if compression.error
    throw_if timeout.error
    ok none

  -- The pipe from the bytes of the request's body to the inputs of the implementation.
  unfoldable pub read_request :
      ServerRequest → Stream Bytes → Bool → Negotiated → Timeout → Stream I
  unfolding check_request
  read_request req body binary compression timeout =
      transform_parse_messages (serialization_i binary) (some end_stream_flag) false (
        transform_decompress_envelope compression.request opt.read_max_bytes (
          transform_split_envelope opt.read_max_bytes
            (transform_prepend (check_request req compression timeout) body)))

module _ {ℓ κ μ} {I : Type ℓ} {R : Type κ} {O : Type μ} (opt : HandlerOptions)
    (serialization_i : Bool → Serialization I) (serialization_o : Bool → Serialization O)
    (end_serialization : Serialization EndStreamResponse) (normalize : R → Outcome O)
    (impl : MethodImpl I R) (effects : Stream I → Effects) where
  -- `effects` is what the implementation does to the response, by the inputs that it gets.
  unfoldable pub handle_body : ServerRequest → Stream Bytes → Bool → Outcome ServerResponse
  unfolding respond read_request effects_on
  handle_body req body binary = do
    let timeout = parse_timeout (get header_timeout req.header) opt.max_timeout_ms
    let compression =
        compression_negotiate opt.accept_compression (get "Connect-Content-Encoding" req.header)
          (get "Connect-Accept-Encoding" req.header) "Connect-Accept-Encoding"
    let input = read_request opt serialization_i req body binary compression timeout
    let done = effects_on impl effects input
    output ← until_first (
        respond (serialization_o binary) end_serialization (done.to_trailer []) compression.response
          opt.compress_min_bytes (transform_invoke_implementation normalize impl input))
    ok (record {
      status = 200;
      header = done.to_header (
          encoding_header compression.response (
            set "Content-Type"
              (if binary then "application/connect+proto" else "application/connect+json") []));
      body = some output;
    })

  unfoldable pub handle_type :
      ServerRequest → Stream Bytes → Option ContentType → Outcome ServerResponse
  unfolding handle_body
  handle_type req body none = ok (status_only 415)
  handle_type req body (some type) =
      if not type.stream
      then ok (status_only 415)
      else if not (str_eq req.method "POST")
      then ok (status_only 405)
      else handle_body req body type.binary

  unfoldable pub handle_stream : ServerRequest → Body → Outcome ServerResponse
  unfolding handle_type
  handle_stream req json_value = thrown (native "Error" "byte stream required, but received JSON")
  handle_stream req (byte_stream body) =
      handle_type req body (parse_content_type (get "Content-Type" req.header))

  unfoldable pub create_stream_handler : ServerRequest → Outcome ServerResponse
  unfolding handle_stream
  create_stream_handler req = handle_stream req req.body
