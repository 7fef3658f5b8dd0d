-- ===== src/Node.antt =====
-- packages/dubbo-node/src: what the Node.js adapters have of their own.
pub mod Header
pub mod Reasons
pub mod HttpClient
