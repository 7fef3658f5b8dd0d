-- ===== src/Grpc/Client.antt =====
-- packages/dubbo/src/protocol-grpc/transport.ts: the body of a request, and what is made of a
-- response. The HTTP client, interceptors and abort signals are left out.
pub mod Delivery
pub mod Verdict
use node_dubbo.Prelude.{ℕ, Bool, true, false, String, List, [], ◌∷◌, Option, none, some}
use node_dubbo.ByteArray.{Bytes}
use node_dubbo.Headers.{Headers}
use node_dubbo.Error.{Code, Outcome, ok, thrown, raise, ◌>>=◌, ◌>>◌}
use node_dubbo.Stream.{Stream, finished, raised, yields, create_async_iterable}
use node_dubbo.Envelope.{Compression}
use node_dubbo.Iterable.{Serialization, transform_parse_messages, transform_decompress_envelope}
use node_dubbo.Iterable.Split.{transform_split_envelope}
use node_dubbo.Grpc.Status.{TextCoding, validate_trailer}
use node_dubbo.Grpc.Response.{validate_response_with_compression}
use node_dubbo.Grpc.Handler.{write_messages}

-- The response of the HTTP client: the trailer is complete when the body has ended.
pub record ClientResponse : Type 0 where
  pub status : ℕ
  pub header : Headers
  pub body : Stream Bytes
  pub trailer : Headers

-- The options of a transport that it uses.
pub record TransportOptions : Type 0 where
  pub accept_compression : List Compression
  pub send_compression : Option Compression
  pub compress_min_bytes : ℕ
  pub read_max_bytes : ℕ

module _ {ℓ} {I : Type ℓ} where
  -- The bodies of the requests.
  unfoldable pub unary_body : Serialization I → TransportOptions → I → Stream Bytes
  unfolding write_messages
  unary_body serialization opt message =
      write_messages serialization opt.send_compression opt.compress_min_bytes
        (create_async_iterable (message ∷ []))

  -- `normalize` is transformNormalizeMessage: of @bufbuild/protobuf, and it may be run twice.
  unfoldable pub stream_body :
      Serialization I → TransportOptions → (Stream I → Stream I) → Stream I → Stream Bytes
  unfolding write_messages
  stream_body serialization opt normalize input =
      write_messages serialization opt.send_compression opt.compress_min_bytes
        (normalize (normalize input))

module _ {ℓ} {O : Type ℓ} where
  -- The pipe of the body of a response.
  unfoldable pub read_messages : Serialization O → Option Compression → ℕ → Stream Bytes → Stream O
  read_messages serialization compression read_max_bytes body =
      transform_parse_messages serialization none false (
        transform_decompress_envelope compression read_max_bytes
          (transform_split_envelope read_max_bytes body))

  -- The loop over the messages of a unary method.
  unfoldable pub one_message : Option O → Stream O → Outcome (Option O)
  one_message message finished = ok message
  one_message message (raised e) = thrown e
  one_message none (yields chunk s) = one_message (some chunk) s
  one_message (some message) (yields chunk s) =
      raise "protocol error: received extra output message for unary method" Code.invalid_argument

  abbrev pub required : Option O → Outcome O
  required (some message) = ok message
  required none =
      raise "protocol error: missing output message for unary method" Code.invalid_argument

  -- What is yielded when the messages have ended.
  abbrev pub validated : Outcome (Unit {0}) → Stream O
  validated (ok u) = finished
  validated (thrown e) = raised e

  -- `yield* iterable; if (!foundStatus) validateTrailer(trailer)`.
  unfoldable pub then_validate : Bool → Outcome (Unit {0}) → Stream O → Stream O
  then_validate true verdict finished = finished
  then_validate false verdict finished = validated verdict
  then_validate found verdict (raised e) = raised e
  then_validate found verdict (yields x s) = yields x (then_validate found verdict s)

  module _ (coding : TextCoding) (serialization : Serialization O) (opt : TransportOptions) where
    unfoldable pub read_unary_response : ClientResponse → Outcome O
    unfolding read_messages one_message
    read_unary_response res = do
      (found, compression) ←
          validate_response_with_compression coding opt.accept_compression res.status res.header
      message ←
          one_message none (read_messages serialization compression opt.read_max_bytes res.body)
      validate_trailer coding res.trailer
      required message

    unfoldable pub read_stream_response : ClientResponse → Outcome (Stream O)
    unfolding read_messages then_validate
    read_stream_response res = do
      (found, compression) ←
          validate_response_with_compression coding opt.accept_compression res.status res.header
      ok (
          then_validate found (validate_trailer coding res.trailer)
            (read_messages serialization compression opt.read_max_bytes res.body))
