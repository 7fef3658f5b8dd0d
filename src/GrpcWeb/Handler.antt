-- ===== src/GrpcWeb/Handler.antt =====
-- packages/dubbo/src/protocol-grpc-web: handler-factory.ts, content-type.ts and request-header.ts.
-- Timers, abort signals and the cause of an error are left out.
use node_dubbo.Prelude.{
  ℕ, Bool, true, false, not, String, List, [], ◌∷◌, Option, none, some, str_eq, lower, ◌+++◌,
  if◌then◌else◌,
}
use node_dubbo.ByteArray.{Bytes}
use node_dubbo.Headers.{Headers, get, set}
use node_dubbo.Error.{Reason, native, Outcome, ok, thrown, ◌>>=◌}
use node_dubbo.Stream.{Stream}
use node_dubbo.Envelope.{EnvelopedMessage, Compression}
use node_dubbo.Compression.{Negotiated, compression_negotiate}
use node_dubbo.Iterable.{
  Serialization, transform_prepend, transform_catch_finally, transform_serialize_envelope,
  transform_parse_messages, transform_compress_envelope, transform_decompress_envelope,
  transform_join_envelopes,
}
use node_dubbo.Iterable.Split.{transform_split_envelope}
use node_dubbo.Invoke.{MethodImpl, Effects, effects_on, transform_invoke_implementation}
use node_dubbo.Triple.StreamHandler.{
  HandlerOptions, Body, byte_stream, json_value, ServerRequest, ServerResponse, status_only,
  until_first,
}
use node_dubbo.Grpc.Status.{header_grpc_status, grpc_status_ok, TextCoding}
use node_dubbo.Grpc.Timeout.{Timeout, parse_timeout}
use node_dubbo.Grpc.Request.{
  header_content_type, header_encoding, header_accept_encoding, header_timeout, set_timeout,
  set_encoding, set_accept_encoding,
}
use node_dubbo.Grpc.Handler.{settle, check_request}
use node_dubbo.GrpcWeb.Trailer.{TextCoder, trailer_flag, create_trailer_serialization}

pub record ContentType : Type 0 where
  pub text : Bool
  pub binary : Bool

-- What `contentTypeRegExp` matches behind "application/grpc-web" or "application/grpc-web-text",
-- in lower case, and if it stands for binary data.
abbrev pub formats : List (String × Bool)
formats =
    ("", true)
    ∷ ("+proto", true)
    ∷ ("+json", false)
    ∷ ("+json;charset=utf8", false)
    ∷ ("+json;charset=utf-8", false)
    ∷ ("+json; charset=utf8", false)
    ∷ ("+json; charset=utf-8", false)
    ∷ []

unfoldable pub find_format : List (String × Bool) → String → Option ContentType
find_format [] value = none
find_format ((format, binary) ∷ rest) value =
    let found = find_format rest value in
    if str_eq ("application/grpc-web" +++ format) value
    then some (record { text = false; binary = binary })
    else if str_eq ("application/grpc-web-text" +++ format) value
    then some (record { text = true; binary = binary })
    else found

unfoldable pub parse_content_type : Option String → Option ContentType
unfolding find_format
parse_content_type none = none
parse_content_type (some value) = find_format formats (lower value)

abbrev pub content_type_of : Bool → String
content_type_of binary =
    if binary then "application/grpc-web+proto" else "application/grpc-web+json"

unfoldable pub request_header : Bool → Option ℕ → Headers → Headers
request_header use_binary_format timeout_ms user_provided_headers = set_timeout timeout_ms (
    set "X-User-Agent" "@apachedubbo/dubbo-web" (
      set "X-Grpc-Web" "1"
        (set header_content_type (content_type_of use_binary_format) user_provided_headers)))

unfoldable pub request_header_with_compression :
    Bool → Option ℕ → Headers → List Compression → Option Compression → Headers
unfolding request_header
request_header_with_compression use_binary_format timeout_ms user_headers accept send =
    set_accept_encoding accept
      (set_encoding send (request_header use_binary_format timeout_ms user_headers))

module _ (coding : TextCoding) (coder : TextCoder) where
  -- What transformCatchFinally yields behind the outputs.
  unfoldable pub trailer_envelope : Headers → Option Reason → Outcome (Option EnvelopedMessage)
  unfolding settle
  trailer_envelope trailer e = do
    settled ← settle coding trailer e
    payload ← (create_trailer_serialization coder).serialize settled
    ok (some (record { flags = trailer_flag; payload = payload }))

  unfoldable pub respond {ℓ} :
      {O : Type ℓ} → Serialization O → Headers → Option Compression → ℕ → Stream O → Stream Bytes
  unfolding trailer_envelope
  respond serialization trailer compression compress_min_bytes output = transform_join_envelopes (
      transform_compress_envelope compression compress_min_bytes (
        transform_catch_finally (trailer_envelope trailer)
          (transform_serialize_envelope serialization output)))

module _ {ℓ} {I : Type ℓ} (opt : HandlerOptions) (serialization_i : Bool → Serialization I) where
  -- The pipe from the bytes of the request's body: a trailer in it is passed over.
  unfoldable pub read_request : Stream Bytes → Bool → Negotiated → Timeout → Stream I
  unfolding check_request
  read_request body binary compression timeout =
      transform_parse_messages (serialization_i binary) (some trailer_flag) false (
        transform_decompress_envelope compression.request opt.read_max_bytes (
          transform_split_envelope opt.read_max_bytes
            (transform_prepend (check_request opt serialization_i compression timeout) body)))

module _ {ℓ κ μ} {I : Type ℓ} {R : Type κ} {O : Type μ} (opt : HandlerOptions)
    (serialization_i : Bool → Serialization I) (serialization_o : Bool → Serialization O)
    (coding : TextCoding) (coder : TextCoder) (number_text : ℕ → String) (normalize : R → Outcome O)
    (impl : MethodImpl I R) (effects : Stream I → Effects) where
  -- `effects` is what the implementation does to the response, by the inputs that it gets; the
  -- trailer has the status of success at first.
  unfoldable pub handle_body : ServerRequest → Stream Bytes → Bool → Outcome ServerResponse
  unfolding respond read_request effects_on
  handle_body req body binary = do
    let timeout = parse_timeout number_text (get header_timeout req.header) opt.max_timeout_ms
    let compression =
        compression_negotiate opt.accept_compression (get header_encoding req.header)
          (get header_accept_encoding req.header) header_accept_encoding
    let input = read_request opt serialization_i body binary compression timeout
    let done = effects_on impl effects input
    let trailer = done.to_trailer (set header_grpc_status grpc_status_ok [])
    output ← until_first (
        respond coding coder (serialization_o binary) trailer compression.response
          opt.compress_min_bytes (transform_invoke_implementation normalize impl input))
    ok (record {
      status = 200;
      header =
          done.to_header (
            set_encoding compression.response
              (set header_content_type (content_type_of binary) []));
      body = some output;
    })

  unfoldable pub handle_type :
      ServerRequest → Stream Bytes → Option ContentType → Outcome ServerResponse
  unfolding handle_body
  handle_type req body none = ok (status_only 415)
  handle_type req body (some type) =
      if type.text
      then ok (status_only 415)
      else if not (str_eq req.method "POST")
      then ok (status_only 405)
      else handle_body req body type.binary

  unfoldable pub create_handler : ServerRequest → Body → Outcome ServerResponse
  unfolding handle_type
  create_handler req json_value = thrown (native "Error" "byte stream required, but received JSON")
  create_handler req (byte_stream body) =
      handle_type req body (parse_content_type (get header_content_type req.header))
