-- ===== src/Triple/StreamClient.antt =====
-- packages/dubbo/src/protocol-triple/transport.ts, the response of a streaming call: the messages
-- up to the EndStreamResponse, whose metadata become the trailer.
use node_dubbo.Prelude.{ℕ, Bool, true, false, String, [], Option, none, some}
use node_dubbo.ByteArray.{Bytes}
use node_dubbo.Headers.{Headers, set_all}
use node_dubbo.Error.{Code, dubbo, error}
use node_dubbo.Stream.{Stream, finished, raised, yields}
use node_dubbo.Envelope.{Compression}
use node_dubbo.Iterable.{
  Serialization, Parsed, item, end_item, transform_parse_envelope, transform_decompress_envelope,
}
use node_dubbo.Iterable.Split.{transform_split_envelope}
use node_dubbo.Triple.StreamHandler.{EndStreamResponse, end_stream_flag}

abbrev protocol_error {ℓ} : {O : Type ℓ} → String → Stream O
protocol_error message = raised (dubbo (error message Code.invalid_argument))

abbrev pub and_yields {ℓ} : {O : Type ℓ} → O → Stream O × Headers → Stream O × Headers
and_yields x (s, trailer) = (yields x s, trailer)

module _ {ℓ} {O : Type ℓ} where
  -- The generator at the end of the pipe, with its variable `endStreamReceived` and the trailer of
  -- the response: what it yields, and the trailer when it has ended.
  unfoldable pub end_at :
      EndStreamResponse → Headers → (Headers → Stream O × Headers) → Stream O × Headers
  end_at end trailer k = elim end.error [
    | some e ↦ (raised (dubbo e), trailer)
    | none ↦ k (set_all end.metadata trailer)
  ]

  unfoldable pub read_to_end :
      Bool → Headers → Stream (Parsed O EndStreamResponse) → Stream O × Headers
  unfolding end_at
  read_to_end true trailer finished = (finished, trailer)
  read_to_end false trailer finished =
      (protocol_error "protocol error: missing EndStreamResponse", trailer)
  read_to_end received trailer (raised e) = (raised e, trailer)
  read_to_end true trailer (yields (end_item end) s) =
      (protocol_error "protocol error: received extra EndStreamResponse", trailer)
  read_to_end false trailer (yields (end_item end) s) =
      end_at end trailer (λ h. read_to_end true h s)
  read_to_end true trailer (yields (item value) s) =
      (protocol_error "protocol error: received extra message after EndStreamResponse", trailer)
  read_to_end false trailer (yields (item value) s) = and_yields value (read_to_end false trailer s)

  -- The pipe of the response's body.
  unfoldable pub read_response :
      Serialization O
      → Serialization EndStreamResponse
      → Option Compression
      → ℕ
      → Stream Bytes
      → Stream O × Headers
  unfolding read_to_end
  read_response serialization end_serialization compression read_max_bytes body =
      read_to_end false [] (
        transform_parse_envelope serialization end_stream_flag end_serialization (
          transform_decompress_envelope compression read_max_bytes
            (transform_split_envelope read_max_bytes body)))
