-- ===== src/Grpc.antt =====
-- packages/dubbo/src/protocol-grpc.
pub mod Status
pub mod Timeout
pub mod Response
pub mod Request
pub mod Handler
pub mod Client
