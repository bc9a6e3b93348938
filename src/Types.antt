-- ===== src/Types.antt =====
-- The types that the Paxos server, its store on disk and its wire format share
-- (multipaxos_kvstore/types/types.go).
pub mod Ballot
pub mod Entry
pub mod KvStore
pub mod Role
mod Tests
