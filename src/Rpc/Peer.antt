-- ===== src/Rpc/Peer.antt =====
-- Calls of a peer (`PaxosClient` of multipaxos_kvstore/server/paxos_client.go). A call here is
-- the request, what the peer's handler answers, and the answer read back: none is an error.
use go_distributed_system_de.Base.{
  ℤ, wrap32, ℕ, Bool, List, map, Option, none, some, Outcome, ok, err, panic,
}
use go_distributed_system_de.Types.Ballot.{BallotNumber}
use go_distributed_system_de.Types.Entry.{LogEntry}
use go_distributed_system_de.Paxos.State.{PaxosServer}
use go_distributed_system_de.Rpc.Wire.{
  ballot_to_pb, pb_to_ballot, convert_log_entry_to_pb, convert_pb_to_log_entry,
}
use go_distributed_system_de.Rpc.Server
use go_distributed_system_de.Rpc.Server.{
  PrepareResponse, AcceptResponse, HeartbeatResponse, RpcError,
}

-- An answer read back; the caller of a peer that fails, or that ends, gets an error.
abbrev pub read_back :
    {A B : Type 0} → (A → B) → Outcome RpcError A × PaxosServer → Option B × PaxosServer
read_back read (ok a, s) = (some (read a), s)
read_back read (err e, s) = (none, s)
read_back read (panic, s) = (none, s)

abbrev pub prepare_result : PrepareResponse → Bool × BallotNumber × List LogEntry
prepare_result resp =
    (resp.promise, pb_to_ballot resp.ballot, map convert_pb_to_log_entry resp.accepted_entries)

unfoldable pub prepare :
    BallotNumber → ℕ → PaxosServer → Option (Bool × BallotNumber × List LogEntry) × PaxosServer
prepare ballot now s = read_back prepare_result (Server.prepare (some (ballot_to_pb ballot)) now s)

abbrev pub accept_result : AcceptResponse → Bool × ℤ × BallotNumber
accept_result resp = (resp.accepted, resp.index, pb_to_ballot resp.ballot)

unfoldable pub accept :
    BallotNumber → LogEntry → ℕ → PaxosServer → Option (Bool × ℤ × BallotNumber) × PaxosServer
accept ballot entry now s =
    read_back accept_result
      (Server.accept (some (ballot_to_pb ballot)) (some (convert_log_entry_to_pb entry)) now s)

abbrev pub heartbeat_result : HeartbeatResponse → Bool × ℤ
heartbeat_result resp = (resp.success, resp.last_log_entry_index)

unfoldable pub heartbeat : BallotNumber → ℤ → ℕ → PaxosServer → Option (Bool × ℤ) × PaxosServer
heartbeat ballot commit_index now s =
    read_back heartbeat_result
      (Server.heartbeat (some (ballot_to_pb ballot)) (wrap32 commit_index) now s)

unfoldable pub transfer_state : List LogEntry → PaxosServer → Option Bool × PaxosServer
transfer_state missing s =
    read_back (λ success. success) (Server.transfer_state (map convert_log_entry_to_pb missing) s)
