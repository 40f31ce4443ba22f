-- ===== src/Grpc.antt =====
-- src/grpc.rs: the gRPC layer.
pub mod Status
pub mod Requests
pub mod Convert
pub mod Stream
pub mod Service
pub mod Auth
pub mod Guard
pub mod Strangers
pub mod Panics
pub mod Forwarded
mod Tests
