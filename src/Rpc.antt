-- ===== src/Rpc.antt =====
-- rpc/: the wire form of requests and responses, the server's dispatch and the client's calls.
pub mod Bytes
pub mod Message
pub mod Server
pub mod Client
