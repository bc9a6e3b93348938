-- ===== src/Rpc.antt =====
-- Messages between Paxos servers, and from clients, over gRPC
-- (multipaxos_kvstore/server/grpc_server.go, paxos_client.go; the messages are those of proto/paxos.proto).
pub mod Wire
pub mod Server
pub mod Peer
pub mod RoundTrip
pub mod Truncation
mod Tests
