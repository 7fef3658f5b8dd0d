-- ===== src/Examples.antt =====
-- Runs of the theorems at concrete inputs.
mod Wire
mod Errors
mod Streams
mod Sessions
mod Protocols
mod Calls
mod Metrics
mod Grpc
mod GrpcWeb
mod Unary
mod Web
mod Clients
