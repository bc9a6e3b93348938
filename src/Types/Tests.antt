-- ===== src/Types/Tests.antt =====
-- Small runs of the store and of the ballots (multipaxos_kvstore/types/types.go).
use go_distributed_system_de.Base.{pos, List, [], ◌∷◌, ◌≡◌}
use go_distributed_system_de.Types.Ballot.{BallotNumber, new_ballot_number}
use go_distributed_system_de.Types.Entry.{LogEntry, new_log_entry, op_put, op_delete}
use go_distributed_system_de.Types.KvStore.{new_kv_store, get, apply_all}
use go_distributed_system_de.Types.KvStore.Laws.{last_write, get-apply_all}

abbrev low : BallotNumber
low = new_ballot_number (pos 1) (pos 2)

abbrev high : BallotNumber
high = new_ballot_number (pos 2) (pos 1)

abbrev commands : List LogEntry
commands =
    new_log_entry (pos 0) low op_put "k" "v"
    ∷ new_log_entry (pos 1) low op_delete "j" ""
    ∷ new_log_entry (pos 2) high op_put "k" "w"
    ∷ []

get-apply_all_example :
    get (apply_all new_kv_store commands) "k" ≡ last_write commands "k" (get new_kv_store "k")
get-apply_all_example = get-apply_all commands new_kv_store "k"
