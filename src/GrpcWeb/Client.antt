-- ===== src/GrpcWeb/Client.antt =====
-- packages/dubbo/src/protocol-grpc-web/transport.ts: what is made of a response. The HTTP client,
-- interceptors and abort signals are left out.
pub mod Delivery
use node_dubbo.Prelude.{ℕ, Bool, true, false, String, List, [], Option, none, some, ◌∷◌}
use node_dubbo.ByteArray.{Bytes}
use node_dubbo.Headers.{Headers, set_all}
use node_dubbo.Error.{Code, dubbo, error, Outcome, ok, thrown, raise, ◌>>=◌, ◌>>◌}
use node_dubbo.Stream.{Stream, finished, raised, yields}
use node_dubbo.Envelope.{Compression}
use node_dubbo.Iterable.{
  Serialization, Parsed, item, end_item, transform_parse_envelope, transform_decompress_envelope,
}
use node_dubbo.Iterable.Split.{transform_split_envelope}
use node_dubbo.Triple.StreamClient.{and_yields}
use node_dubbo.Grpc.Status.{TextCoding, validate_trailer}
use node_dubbo.Grpc.Response.{validate_web_response_with_compression}
use node_dubbo.Grpc.Client.{TransportOptions, required}
use node_dubbo.GrpcWeb.Trailer.{TextCoder, trailer_flag, create_trailer_serialization}

-- The response of the HTTP client: the trailer is in the body.
pub record WebResponse : Type 0 where
  pub status : ℕ
  pub header : Headers
  pub body : Stream Bytes

abbrev refuse {ℓ} : {A : Type ℓ} → String → Outcome A
refuse message = raise message Code.invalid_argument

abbrev pub trailer_of : Option Headers → Outcome Headers
trailer_of none = refuse "protocol error: missing trailer"
trailer_of (some trailer) = ok trailer

module _ {ℓ} {O : Type ℓ} where
  -- The pipe of the body of a response.
  unfoldable pub read_items :
      TextCoder
      → Serialization O
      → Option Compression
      → ℕ
      → Stream Bytes
      → Stream (Parsed O Headers)
  read_items coder serialization compression read_max_bytes body =
      transform_parse_envelope serialization trailer_flag (create_trailer_serialization coder) (
        transform_decompress_envelope compression read_max_bytes
          (transform_split_envelope read_max_bytes body))

  -- The loop over the items of a unary method: its trailer and its message.
  unfoldable pub one_item :
      Option Headers → Option O → Stream (Parsed O Headers) → Outcome (Option Headers × Option O)
  one_item trailer message finished = ok (trailer, message)
  one_item trailer message (raised e) = thrown e
  one_item none message (yields (end_item t) s) = one_item (some t) message s
  one_item (some trailer) message (yields (end_item t) s) =
      refuse "protocol error: received extra trailer"
  one_item trailer none (yields (item value) s) = one_item trailer (some value) s
  one_item trailer (some message) (yields (item value) s) =
      refuse "protocol error: received extra output message for unary method"

  -- What is made of the trailer and the message: the trailer is looked at first.
  unfoldable pub unary_outcome : TextCoding → Option Headers × Option O → Outcome (O × Headers)
  unary_outcome coding (trailer, message) = do
    t ← trailer_of trailer
    validate_trailer coding t
    m ← required message
    ok (m, t)

  abbrev invalid : String → Stream O
  invalid message = raised (dubbo (error message Code.invalid_argument))

  -- A valid trailer is copied to the response.
  abbrev pub valid_or_raises :
      Outcome (Unit {0}) → Headers → (Headers → Stream O × Headers) → Headers → Stream O × Headers
  valid_or_raises (thrown e) value k trailer = (raised e, trailer)
  valid_or_raises (ok u) value k trailer = k (set_all value trailer)

  module _ (coding : TextCoding) where
    -- The generator at the end of the pipe, with its variable `trailerReceived` and the trailer of
    -- the response: what it yields, and the trailer when it has ended.
    unfoldable pub read_to_trailer : Bool → Headers → Stream (Parsed O Headers) → Stream O × Headers
    read_to_trailer true trailer finished = (finished, trailer)
    read_to_trailer false trailer finished = (invalid "protocol error: missing trailer", trailer)
    read_to_trailer received trailer (raised e) = (raised e, trailer)
    read_to_trailer true trailer (yields (end_item value) s) =
        (invalid "protocol error: received extra trailer", trailer)
    read_to_trailer false trailer (yields (end_item value) s) =
        valid_or_raises (validate_trailer coding value) value (λ t. read_to_trailer true t s)
          trailer
    read_to_trailer true trailer (yields (item value) s) =
        (invalid "protocol error: received extra message after trailer", trailer)
    read_to_trailer false trailer (yields (item value) s) =
        and_yields value (read_to_trailer false trailer s)

    -- A response with its status in the header has no body.
    unfoldable pub read_nothing : Stream (Parsed O Headers) → Stream O
    read_nothing finished = finished
    read_nothing (raised e) = raised e
    read_nothing (yields x s) = invalid "protocol error: extra data for trailers-only"

    unfoldable pub read_response : Bool → Stream (Parsed O Headers) → Stream O × Headers
    unfolding read_to_trailer read_nothing
    read_response true items = (read_nothing items, [])
    read_response false items = read_to_trailer false [] items

    module _ (coder : TextCoder) (serialization : Serialization O) (opt : TransportOptions) where
      unfoldable pub read_unary_response : WebResponse → Outcome (O × Headers)
      unfolding read_items one_item unary_outcome
      read_unary_response res = do
        (found, compression) ←
            validate_web_response_with_compression coding opt.accept_compression res.status
              res.header
        read ←
            one_item none none
              (read_items coder serialization compression opt.read_max_bytes res.body)
        unary_outcome coding read

      unfoldable pub read_stream_response : WebResponse → Outcome (Stream O × Headers)
      unfolding read_items read_response
      read_stream_response res = do
        (found, compression) ←
            validate_web_response_with_compression coding opt.accept_compression res.status
              res.header
        ok (
            read_response found
              (read_items coder serialization compression opt.read_max_bytes res.body))
