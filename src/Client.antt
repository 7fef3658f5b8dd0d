-- ===== src/Client.antt =====
-- packages/dubbo/src: the clients over a transport, callback-client.ts and promise-client.ts. What a
-- transport answers is a parameter.
pub mod Callback
pub mod Promise
use node_dubbo.Prelude.{Option, none}
use node_dubbo.Headers.{Headers}
use node_dubbo.Stream.{Stream}

-- A UnaryResponse and a StreamResponse: the trailer is complete when the messages have ended.
pub record Response {ℓ} (O : Type ℓ) : Type ℓ where
  pub header : Headers
  pub message : O
  pub trailer : Headers

pub record StreamResponse {ℓ} (O : Type ℓ) : Type ℓ where
  pub header : Headers
  pub messages : Stream O
  pub trailer : Headers
