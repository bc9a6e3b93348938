-- ===== src/Rpc/Server.antt =====
-- The handlers of the gRPC server (`GRPCServer` of multipaxos_kvstore/server/grpc_server.go).
use go_distributed_system_de.Base.{
  ℤ, pos, wrap32, ℕ, String, Bool, true, false, List, [], ◌∷◌, map, Option, none, some, Outcome, ok,
  err, panic, Exec,
}
use go_distributed_system_de.Types.Ballot.{BallotNumber}
use go_distributed_system_de.Types.Entry.{LogEntry}
use go_distributed_system_de.Paxos.State.{PaxosServer, Error}
use go_distributed_system_de.Paxos.Acceptor.{handle_prepare, handle_accept}
use go_distributed_system_de.Paxos.Heartbeat.{handle_heartbeat}
use go_distributed_system_de.Paxos.Transfer.{handle_state_transfer}
use go_distributed_system_de.Paxos.Replication.{AcceptReply}
use go_distributed_system_de.Paxos.Clients
use go_distributed_system_de.Paxos.Clients.{Message, text, text_of, Reply, reply, crashed}
use go_distributed_system_de.Rpc.Wire.{
  PbBallot, PbEntry, ballot_to_pb, pb_to_ballot, convert_log_entry_to_pb, convert_pb_to_log_entry,
}

pub record PrepareResponse : Type 0 where
  pub promise : Bool
  pub ballot : Option PbBallot
  pub accepted_entries : List PbEntry

pub record AcceptResponse : Type 0 where
  pub accepted : Bool
  pub index : ℤ
  pub ballot : Option PbBallot

pub record HeartbeatResponse : Type 0 where
  pub success : Bool
  pub last_log_entry_index : ℤ

pub data RpcError : Type 0 where
  ballot_required entry_required leader_ballot_required : RpcError
  handler_failed : Error → RpcError

abbrev pub Rpc : Type 0 → Type 0
Rpc A = Exec PaxosServer RpcError A

-- What a handler returned, converted.
abbrev pub answer :
    {A B : Type 0} → (A → B) → Outcome Error A × PaxosServer → Outcome RpcError B × PaxosServer
answer convert (ok a, s) = (ok (convert a), s)
answer convert (err e, s) = (err (handler_failed e), s)
answer convert (panic, s) = (panic, s)

abbrev pub prepare_response : Bool × BallotNumber × List LogEntry → PrepareResponse
prepare_response (promise, ballot, entries) = record {
  promise = promise;
  ballot = some (ballot_to_pb ballot);
  accepted_entries = map convert_log_entry_to_pb entries;
}

unfoldable pub prepare : Option PbBallot → ℕ → Rpc PrepareResponse
prepare none now s = (err ballot_required, s)
prepare (some ballot) now s =
    answer prepare_response (handle_prepare (pb_to_ballot (some ballot)) now s)

abbrev pub accept_response : Bool × ℤ × BallotNumber → AcceptResponse
accept_response (accepted, index, ballot) = record {
  accepted = accepted;
  index = wrap32 index;
  ballot = some (ballot_to_pb ballot);
}

unfoldable pub accept : Option PbBallot → Option PbEntry → ℕ → Rpc AcceptResponse
accept none entry now s = (err ballot_required, s)
accept (some ballot) none now s = (err entry_required, s)
accept (some ballot) (some entry) now s =
    answer accept_response
      (handle_accept (pb_to_ballot (some ballot)) (convert_pb_to_log_entry entry) now s)

abbrev pub heartbeat_response :
    (Bool × ℕ) × PaxosServer → Outcome RpcError HeartbeatResponse × PaxosServer
heartbeat_response ((success, length), s) =
    (ok (record { success = success; last_log_entry_index = wrap32 (pos length) }), s)

unfoldable pub heartbeat : Option PbBallot → ℤ → ℕ → Rpc HeartbeatResponse
heartbeat none commit_index now s = (err leader_ballot_required, s)
heartbeat (some ballot) commit_index now s =
    heartbeat_response (handle_heartbeat (pb_to_ballot (some ballot)) commit_index now s)

-- An empty list of entries arrives as nil.
unfoldable pub transfer_state : List PbEntry → Rpc Bool
transfer_state [] s = (ok true, s)
transfer_state (entry ∷ entries) s =
    answer (λ success. success)
      (handle_state_transfer (map convert_pb_to_log_entry (entry ∷ entries)) s)

pub record ClientResponse : Type 0 where
  pub success : Bool
  pub value : String
  pub message : Message

-- Put and Delete; none is the end of the process.
abbrev pub write_response : Reply → Option ClientResponse
write_response (reply success message (some e)) =
    some (record { success = success; value = ""; message = message })
write_response (reply success message none) =
    some (record { success = true; value = ""; message = text "OK" })
write_response crashed = none

-- The string that Get returns is a text.
abbrev value_of : Message → String
value_of (text value) = value
value_of _ = ""

abbrev pub get_response : Reply → Option ClientResponse
get_response (reply success message (some e)) =
    some (record { success = false; value = ""; message = text_of e })
get_response (reply success message none) =
    some (record { success = success; value = value_of message; message = text "OK" })
get_response crashed = none

unfoldable pub put :
    String → String → List AcceptReply → PaxosServer → Option ClientResponse × PaxosServer
put key value replies s = let (r, s') = Clients.put key value replies s in (write_response r, s')

unfoldable pub delete :
    String → List AcceptReply → PaxosServer → Option ClientResponse × PaxosServer
delete key replies s = let (r, s') = Clients.delete key replies s in (write_response r, s')

unfoldable pub get : String → PaxosServer → Option ClientResponse
get key s = get_response (Clients.get key s)
