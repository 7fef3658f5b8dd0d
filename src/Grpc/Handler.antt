-- ===== src/Grpc/Handler.antt =====
-- packages/dubbo/src/protocol-grpc/handler-factory.ts. Timers, abort signals and the cause of an
-- error are left out.
use node_dubbo.Prelude.{ℕ, Bool, false, not, String, [], Option, none, some, str_eq, if◌then◌else◌}
use node_dubbo.ByteArray.{Bytes}
use node_dubbo.Headers.{Headers, get, set}
use node_dubbo.Error.{Reason, native, Outcome, ok, thrown, ◌>>=◌, ◌>>◌}
use node_dubbo.Stream.{Stream, ending}
use node_dubbo.Envelope.{Compression}
use node_dubbo.Compression.{Negotiated, compression_negotiate}
use node_dubbo.Iterable.{
  Serialization, transform_prepend, transform_catch_finally, transform_serialize_envelope,
  transform_parse_messages, transform_compress_envelope, transform_decompress_envelope,
  transform_join_envelopes,
}
use node_dubbo.Iterable.Split.{transform_split_envelope}
use node_dubbo.Invoke.{MethodImpl, Effects, effects_on, transform_invoke_implementation}
use node_dubbo.Triple.StreamHandler.{
  HandlerOptions, Body, byte_stream, json_value, ServerRequest, throw_if, reported, until_first,
}
use node_dubbo.Grpc.Status.{header_grpc_status, grpc_status_ok, TextCoding, set_trailer_status}
use node_dubbo.Grpc.Timeout.{Timeout, parse_timeout}
use node_dubbo.Grpc.Request.{
  header_content_type, header_encoding, header_accept_encoding, header_timeout, content_type_of,
  parse_content_type, set_encoding,
}

-- The trailer is complete once the body is read; it may be that setting it throws.
pub record GrpcResponse : Type 0 where
  pub status : ℕ
  pub header : Headers
  pub body : Option (Stream Bytes)
  pub trailer : Outcome Headers

abbrev pub status_only : ℕ → GrpcResponse
status_only status = record { status = status; header = []; body = none; trailer = ok [] }

module _ (coding : TextCoding) where
  -- What transformCatchFinally does to the trailer that the implementation leaves.
  unfoldable pub settle : Headers → Option Reason → Outcome Headers
  unfolding set_trailer_status reported
  settle trailer none = ok trailer
  settle trailer (some e) = set_trailer_status coding trailer (some (reported e))

  unfoldable pub settled : Headers → Option Reason → Outcome (Option Bytes)
  unfolding settle
  settled trailer e = settle trailer e >>= (λ t. ok none)

module _ {ℓ} {O : Type ℓ} (serialization : Serialization O) (compression : Option Compression)
    (compress_min_bytes : ℕ) where
  -- The pipe from the outputs of the implementation to bytes.
  unfoldable pub write_messages : Stream O → Stream Bytes
  write_messages output = transform_join_envelopes (
      transform_compress_envelope compression compress_min_bytes
        (transform_serialize_envelope serialization output))

  -- The body, and the trailer when it has ended.
  unfoldable pub respond : TextCoding → Headers → Stream O → Stream Bytes × Outcome Headers
  unfolding write_messages settled settle
  respond coding trailer output = (
    transform_catch_finally (settled coding trailer) (write_messages output),
    settle coding trailer (ending (write_messages output)),
  )

module _ {ℓ} {I : Type ℓ} (opt : HandlerOptions) (serialization_i : Bool → Serialization I) where
  -- What is thrown before the first byte of the body is read.
  unfoldable pub check_request : Negotiated → Timeout → Outcome (Option Bytes)
  check_request compression timeout = do throw_if compression.error; throw_if timeout.error; ok none

  -- The pipe from the bytes of the request's body to the inputs of the implementation.
  unfoldable pub read_request : Stream Bytes → Bool → Negotiated → Timeout → Stream I
  unfolding check_request
  read_request body binary compression timeout =
      transform_parse_messages (serialization_i binary) none false (
        transform_decompress_envelope compression.request opt.read_max_bytes (
          transform_split_envelope opt.read_max_bytes
            (transform_prepend (check_request compression timeout) body)))

module _ {ℓ κ μ} {I : Type ℓ} {R : Type κ} {O : Type μ} (opt : HandlerOptions)
    (serialization_i : Bool → Serialization I) (serialization_o : Bool → Serialization O)
    (coding : TextCoding) (number_text : ℕ → String) (normalize : R → Outcome O)
    (impl : MethodImpl I R) (effects : Stream I → Effects) where
  -- `effects` is what the implementation does to the response, by the inputs that it gets; the
  -- trailer has the status of success at first.
  unfoldable pub handle_body : ServerRequest → Stream Bytes → Bool → Outcome GrpcResponse
  unfolding respond read_request effects_on
  handle_body req body binary = do
    let timeout = parse_timeout number_text (get header_timeout req.header) opt.max_timeout_ms
    let compression =
        compression_negotiate opt.accept_compression (get header_encoding req.header)
          (get header_accept_encoding req.header) header_accept_encoding
    let input = read_request opt serialization_i body binary compression timeout
    let done = effects_on impl effects input
    let trailer = done.to_trailer (set header_grpc_status grpc_status_ok [])
    let (output, final) =
        respond (serialization_o binary) compression.response opt.compress_min_bytes coding trailer
          (transform_invoke_implementation normalize impl input)
    first ← until_first output
    ok (record {
      status = 200;
      header =
          done.to_header (
            set_encoding compression.response
              (set header_content_type (content_type_of binary) []));
      body = some first;
      trailer = final;
    })

  unfoldable pub handle_type : ServerRequest → Stream Bytes → Option Bool → Outcome GrpcResponse
  unfolding handle_body
  handle_type req body none = ok (status_only 415)
  handle_type req body (some binary) =
      if not (str_eq req.method "POST") then ok (status_only 405) else handle_body req body binary

  unfoldable pub create_handler : ServerRequest → Body → Outcome GrpcResponse
  unfolding handle_type
  create_handler req json_value = thrown (native "Error" "byte stream required, but received JSON")
  create_handler req (byte_stream body) =
      handle_type req body (parse_content_type (get header_content_type req.header))
