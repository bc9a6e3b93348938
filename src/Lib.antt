-- ===== src/Lib.antt =====
-- A verification library for the distributed key-value stores of this repository.
--
-- The program has two stores. The Multi-Paxos store (multipaxos_kvstore/) replicates a log of
-- commands: clients send Put, Get and Delete to a server; the leader appends a command to its log and
-- has it accepted by its peers; each server applies the committed commands to its own map. The
-- primary/backup store has a view service (view/viewservice/) that names a primary and a backup, servers
-- (kv_server_main/kvserver/) that ping it, and clients (client_main/client/) that ask it for the primary.
--
-- Which file models which part; a definition has the name of the Go function in lower case:
-- - Base and its children: Go's `int` as a signed integer with its wrap-around, maps as association
--   lists, methods that return an error or panic as functions from a state to an outcome and a state.
-- - Text: what the programs use of Go's `strings` and `fmt`, on texts as lists of characters.
-- - Types: BallotNumber, LogEntry, OperationType, KVStore and ServerState of
--   multipaxos_kvstore/types/types.go.
-- - Persistence: PersistentState of multipaxos_kvstore/persistence/persistence.go. The file is a field
--   of the state, and so is the list of how the coming saves end.
-- - Paxos: PaxosServer of multipaxos_kvstore/server/paxos_server.go. State holds the fields and
--   NewPaxosServer; Acceptor, Learner, Election, Replication, Heartbeat, Transfer and Clients hold the
--   methods, Loops the two event loops. A method that gives up the mutex to call its peers is split
--   there: the part before, which reads the state, and the part after, which takes the list of the
--   peers' replies as an argument. Events is the relation of the steps that a server takes under its
--   mutex, in any order, and Events/Crashes adds a crash with a new start from the file; Quorum puts
--   several acceptors together, each with any of these between the two phases; Reign is one
--   leader with its followers and the messages between them; Clients/Session is a sequence of
--   requests to one leader beside a map.
-- - Rpc: the conversions to messages with 32-bit integers, the handlers of
--   multipaxos_kvstore/server/grpc_server.go and the calls of multipaxos_kvstore/server/paxos_client.go,
--   each call as request, handler and answer in one function.
-- - KvClient: KVClient of multipaxos_kvstore/client/client.go, over any world that its stubs act on.
--   Cluster gives it the servers of Paxos behind the handlers of Rpc as that world: a Put of a leader
--   sends its Accept to the peers over a network that may lose it or the answer, each peer that it
--   reaches handles it, and the leader counts what it hears. Puts and then Reads are of one client.
-- - Views: ViewServer of view/viewservice/server.go. Go visits a map in an order of its own: the tick
--   takes the two orders as arguments, and what is stated of it holds for every order.
-- - Replica: KVServer of kv_server_main/kvserver/server.go, a primary `p` and its backup `b`.
--   Replica/Life and Views/Ticker are the lives of a server and of the view service, with their loops
--   and with the main functions of kv_server_main/kv_server_main.go and view/view_server.go.
-- - System: the view service with any number of such servers. Its steps are the ticks, the Pings
--   that arrive, the answers that are written out, each some time after its Ping from the live view
--   object, the answers that arrive, late or out of order or not at all, and what a server does
--   between two answers. In these runs no tick runs while an answer is written out; Torn is about an
--   answer that is written out around a tick. Takeover follows the backup of a silent primary.
-- - ViewClient: the loops of client_main/client/client_func.go, turn by turn.
-- - Programs: the main functions. Shell is the client of multipaxos_kvstore/client/client.go, with its
--   one operation or its prompt; Sequence is client_main/client.go; ServerMain is
--   multipaxos_kvstore/main.go up to the point where it serves.
-- Each component's theorems stand in its child modules, its small runs in its module Tests.
--
-- Bounds: term numbers and indices are Go's 64-bit `int`, view numbers are 64-bit words; the theorems
-- that need it ask for numbers below the largest. The loop of the learner runs for as many rounds as
-- the commit index is above the last applied index, and Paxos/Learner/Ends shows that it has ended
-- then. The decimal of a number is written with as many rounds as the number counts, which is at
-- least its digits. The client's loops run for the turns of a list, the event loops for the
-- events of one; a loop that hangs in a heartbeat that never returns says so in its end.
--
-- Not modelled: the generated protobuf code; listening, dialling and timeouts of gRPC, and
-- the scheduling of goroutines; JSON (a file gives back what was saved to it); logging, and what the
-- client library of the Multi-Paxos store prints itself. Texts are taken to be valid UTF-8, and ToLower
-- keeps a character whose lower case is no ASCII letter. What a peer, the network, the disk or the
-- file system does is an argument of the functions. A server listed among the peers by an address is
-- its place in the list.
mod Base
mod Text
pub mod Types
pub mod Persistence
pub mod Paxos
pub mod Views
pub mod Replica
pub mod System
pub mod Rpc
pub mod KvClient
pub mod ViewClient
pub mod Cluster
pub mod Programs
