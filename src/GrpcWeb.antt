-- ===== src/GrpcWeb.antt =====
-- packages/dubbo/src/protocol-grpc-web; the parts it shares with the gRPC protocol are in Grpc.
pub mod Trailer
pub mod Handler
pub mod Client
