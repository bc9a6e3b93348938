-- ===== src/Persistence/Tests.antt =====
-- Small runs of the persistent state (multipaxos_kvstore/persistence/persistence.go).
use go_distributed_system_de.Base.{pos, none, [], ◌∷◌, int_eq}
use go_distributed_system_de.Types.Ballot.{BallotNumber, new_ballot_number}
use go_distributed_system_de.Types.Entry.{LogEntry, new_log_entry, op_put}
use go_distributed_system_de.Persistence.{PersistentState, write_failed, saved}
use go_distributed_system_de.Persistence.Durability.{promises, perform, Restarted, restart-perform}

abbrev ballot : BallotNumber
ballot = new_ballot_number (pos 1) (pos 2)

abbrev entry : LogEntry
entry = new_log_entry (pos 0) ballot op_put "k" "v"

abbrev state : PersistentState
state = record {
  log = entry ∷ [];
  npromised = ballot;
  highest_accepted_ballot = (pos 0, ballot) ∷ [];
  file = none;
  saves = saved ∷ write_failed ∷ [];
}

restart-perform_example :
    Restarted state (pos 2) [] (perform (promises (new_ballot_number (pos 3) (pos 1))) state)
restart-perform_example =
    restart-perform (promises (new_ballot_number (pos 3) (pos 1))) state (pos 2) []
