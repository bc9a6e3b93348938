-- ===== src/Cluster.antt =====
-- A client and the servers of the Multi-Paxos store together: what the client library calls is
-- the gRPC server of each process, and what a leader proposes is sent to the gRPC servers of its
-- peers (multipaxos_kvstore/client/client.go, multipaxos_kvstore/server/grpc_server.go,
-- multipaxos_kvstore/server/paxos_client.go, multipaxos_kvstore/server/paxos_server.go).
pub mod Puts
pub mod Reads
mod Tests
use go_distributed_system_de.Base.{
  ℤ, ℕ, suc, zero, ◌==◌, ltb, not, ◌&&◌, String, Bool, true, false, List, [], ◌∷◌, length, Option,
  none, some, Outcome, ok, err, panic, str_eq, if◌then◌else◌,
}
use go_distributed_system_de.Types.Ballot.{BallotNumber}
use go_distributed_system_de.Types.Entry.{LogEntry, new_log_entry, op_put, op_delete}
use go_distributed_system_de.Paxos.State.{PaxosServer, Error}
use go_distributed_system_de.Paxos.Replication.{
  AcceptReply, no_client, rpc_failed, replied, begin_proposal,
}
use go_distributed_system_de.Paxos.Clients.{read_position}
use go_distributed_system_de.Rpc.Server
use go_distributed_system_de.Rpc.Server.{ClientResponse}
use go_distributed_system_de.Rpc.Peer
use go_distributed_system_de.KvClient.{Stub, KvClient}

-- The servers by their ids, which are their places in the list of peers and in the client's list.
abbrev pub Cluster : Type 0
Cluster = ℕ → PaxosServer

abbrev pub change : Cluster → ℕ → PaxosServer → Cluster
change w i s j = if j == i then s else w j

-- How an Accept fares on its way to a peer and back.
pub data Link : Type 0 where
  no_connection lost reply_lost delivered : Link

-- The network during one proposal: the link to each peer, and when an Accept arrives there.
pub record Network : Type 0 where
  pub links : ℕ → Link
  pub arrival : ℕ → ℕ

abbrev pub arrives : Link → Bool
arrives no_connection = false
arrives lost = false
arrives reply_lost = true
arrives delivered = true

-- What `begin_proposal` hands on to be sent.
abbrev sent_entry : Outcome Error LogEntry → Option LogEntry
sent_entry (ok entry) = some entry
sent_entry (err e) = none
sent_entry panic = none

-- The entry that a Put, a Delete on the server sends to its peers, if any: with the ballot under
-- which it is proposed.
unfoldable pub put_sends : String → String → PaxosServer → Option LogEntry
put_sends key value s = elim (read_position s) [
  | none ↦ none
  | some (ballot, index) ↦
      if str_eq value "reject"
      then none
      else sent_entry (begin_proposal (new_log_entry index ballot op_put key value) s).0
]

unfoldable pub delete_sends : String → PaxosServer → Option LogEntry
delete_sends key s = elim (read_position s) [
  | none ↦ none
  | some (ballot, index) ↦
      sent_entry (begin_proposal (new_log_entry index ballot op_delete key "") s).0
]

-- Server `j` after the Accept of server `i`, if one is sent to it and arrives.
abbrev pub accept_one : Network → ℕ → LogEntry → Cluster → Cluster
accept_one net i entry w j =
    if not (j == i) && ltb j (length (w i).peers) && arrives (net.links j)
    then (Peer.accept entry.ballot_num entry (net.arrival j) (w j)).1
    else w j

-- All servers after the Accepts of server `i`. Each handles its own, in any order.
unfoldable pub accept_all : Network → ℕ → Option LogEntry → Cluster → Cluster
accept_all net i none w = w
accept_all net i (some entry) w = accept_one net i entry w

accept_reply : Link → Option (Bool × ℤ × BallotNumber) → AcceptReply
accept_reply no_connection r = no_client
accept_reply lost r = rpc_failed
accept_reply reply_lost r = rpc_failed
accept_reply delivered none = rpc_failed
accept_reply delivered (some (accepted, index, ballot)) = replied accepted

-- What `proposeEntry` hears from `count` peers from number `j` on; it skips itself.
replies_from : Network → ℕ → LogEntry → Cluster → ℕ → ℕ → List AcceptReply
unfolding accept_reply
replies_from net i entry w zero j = []
replies_from net i entry w (suc count) j =
    let rest = replies_from net i entry w count (suc j) in
    if j == i
    then rest
    else accept_reply (net.links j) (Peer.accept entry.ballot_num entry (net.arrival j) (w j)).0
      ∷ rest

unfoldable pub replies_to : Network → ℕ → Option LogEntry → Cluster → List AcceptReply
unfolding replies_from
replies_to net i none w = []
replies_to net i (some entry) w = replies_from net i entry w (length (w i).peers) 0

-- A Put, a Delete of server `i`: it sends its entry, its peers handle it, and it counts what it hears.
abbrev pub put_at_server : Network → ℕ → String → String → Cluster → Option ClientResponse × Cluster
put_at_server net i key value w =
    let entry = put_sends key value (w i) in
    let (r, s) = Server.put key value (replies_to net i entry w) (w i) in
    (r, change (accept_all net i entry w) i s)

abbrev pub delete_at_server : Network → ℕ → String → Cluster → Option ClientResponse × Cluster
delete_at_server net i key w =
    let entry = delete_sends key (w i) in
    let (r, s) = Server.delete key (replies_to net i entry w) (w i) in
    (r, change (accept_all net i entry w) i s)

abbrev pub get_at_server : ℕ → String → Cluster → Option ClientResponse × Cluster
get_at_server i key w = (Server.get key (w i), w)

-- The stub of server `i`; `net` is the network during what that server proposes.
abbrev pub stub_of : Network → ℕ → Stub Cluster
stub_of net i = record {
  put = put_at_server net i;
  get = get_at_server i;
  delete = delete_at_server net i;
}

-- The stubs of `count` servers from number `i` on.
abbrev pub stubs_from : (ℕ → Network) → ℕ → ℕ → List (Option (Stub Cluster))
stubs_from nets zero i = []
stubs_from nets (suc count) i = some (stub_of (nets i) i) ∷ stubs_from nets count (suc i)

abbrev pub client_of : (ℕ → Network) → ℕ → KvClient Cluster
client_of nets count = record { servers = []; clients = stubs_from nets count 0; conns = [] }
