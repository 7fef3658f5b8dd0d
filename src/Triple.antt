-- ===== src/Triple.antt =====
-- packages/dubbo/src/protocol-triple: the Triple protocol, from its request headers to the
-- streams of handlers and clients.
pub mod ClientRequest
pub mod Mux
pub mod UnaryHandler
pub mod UnaryClient
pub mod EndStream
pub mod Json
pub mod ErrorJson
pub mod Request
pub mod StreamHandler
pub mod StreamClient
pub mod Delivery
pub mod Refusal
