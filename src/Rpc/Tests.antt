-- ===== src/Rpc/Tests.antt =====
-- Small calls of a peer (multipaxos_kvstore/server/paxos_client.go).
use go_distributed_system_de.Base.{pos, ℕ, ◌^◌, some, false, [], ◌∷◌, none, ◌≡◌, refl, arith}
use go_distributed_system_de.Types.Ballot.{BallotNumber, new_ballot_number, greater_than, compare}
use go_distributed_system_de.Types.Entry.{LogEntry, new_log_entry, op_put}
use go_distributed_system_de.Persistence.{set_npromised, save, get_all_accepted_entries}
use go_distributed_system_de.Paxos.State.{PaxosServer, make_server}
use go_distributed_system_de.Paxos.Acceptor.{handle_prepare}
use go_distributed_system_de.Rpc.Wire.{ballot_to_pb, pb_to_ballot}
use go_distributed_system_de.Rpc.Peer
use go_distributed_system_de.Rpc.Truncation.{prepare_overflows}
use go_distributed_system_de.Rpc.RoundTrip.{result_of, prepare-handle_prepare}

abbrev ballot : ℕ → BallotNumber
ballot n = new_ballot_number (pos n) (pos 1)

abbrev entry : LogEntry
entry = new_log_entry (pos 0) (ballot 1) op_put "k" "v"

abbrev server : PaxosServer
server =
    make_server (pos 1) ("a" ∷ "b" ∷ "c" ∷ [])
      (record {
        log = [];
        npromised = ballot 1;
        highest_accepted_ballot = [];
        file = none;
        saves = [];
      })
      0

prepare-handle_prepare_example :
    Peer.prepare (ballot 2) 9 server ≡ result_of (handle_prepare (ballot 2) 9 server)
unfolding handle_prepare greater_than compare set_npromised save get_all_accepted_entries
prepare-handle_prepare_example =
    prepare-handle_prepare (ballot 2) 9 server
      ((omega arith, omega arith), (omega arith, omega arith))
      (((omega arith, omega arith), (omega arith, omega arith)), tt)

prepare_overflows_example :
    Peer.prepare (ballot (2 ^ 31)) 9 server
    ≡ (some (false, pb_to_ballot (some (ballot_to_pb server.ps.npromised)), []), server)
prepare_overflows_example =
    prepare_overflows (ballot (2 ^ 31)) (2 ^ 31) 9 server refl (omega arith) (omega arith)
      (omega arith)
