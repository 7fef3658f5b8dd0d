-- ===== src/Web.antt =====
-- packages/dubbo-web/src: the transports over the fetch API. What `fetch` answers is a parameter;
-- interceptors, deadlines and signals are those of protocol/run-call.ts.
pub mod DubboTransport
pub mod GrpcTransport
pub mod Plain
use node_dubbo.Prelude.{ℕ, Bool, Option, none, some, if◌then◌else◌}
use node_dubbo.ByteArray.{Bytes}
use node_dubbo.Headers.{Headers}
use node_dubbo.Error.{other, Outcome, ok, thrown, ◌>>=◌}
use node_dubbo.Stream.{Stream, finished, raised, yields}
use node_dubbo.Envelope.{encode_envelope}
use node_dubbo.Iterable.{Serialization}

-- The platform's `Response`.
pub record FetchResponse : Type 0 where
  pub status : ℕ
  pub headers : Headers
  pub body : Option (Stream Bytes)

module _ {ℓ} {I : Type ℓ} (serialize : I → Outcome Bytes) where
  -- The first input: `input[Symbol.asyncIterator]().next()`.
  unfoldable pub first_envelope : Stream I → Outcome Bytes
  first_envelope finished = thrown (other "missing request message")
  first_envelope (raised e) = thrown e
  first_envelope (yields value s) = serialize value >>= (λ bytes. ok (encode_envelope 0 bytes))

  unfoldable pub create_request_body : Bool → Stream I → Outcome Bytes
  unfolding first_envelope
  create_request_body server_streaming input =
      if server_streaming
      then first_envelope input
      else thrown (other "The fetch API does not support streaming request bodies")
