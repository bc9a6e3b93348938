-- ===== src/Paxos.antt =====
-- The Multi-Paxos server (multipaxos_kvstore/server/paxos_server.go): its state, and a module for
-- each role. A handler that holds the mutex is one function on the state; a method that releases
-- the mutex while it waits for its peers is a function for each locked part, with the peers'
-- replies as an argument, in the order in which they come in.
pub mod State
pub mod Acceptor
pub mod Learner
pub mod Election
pub mod Replication
pub mod Heartbeat
pub mod Transfer
pub mod Clients
pub mod Loops
pub mod Events
pub mod Quorum
pub mod Reign
mod Tests
