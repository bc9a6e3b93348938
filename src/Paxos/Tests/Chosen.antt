-- ===== src/Paxos/Tests/Chosen.antt =====
-- Elections after an entry was accepted (multipaxos_kvstore/server/paxos_server.go).
use go_distributed_system_de.Base.{
  pos, true, List, [], ◌∷◌, map, ok, ◌≡◌, refl, arith, inl, insert, lookup, inc64,
}
use go_distributed_system_de.Types.Ballot.{greater_than, compare}
use go_distributed_system_de.Types.Role.{leader}
use go_distributed_system_de.Persistence.{
  save, update_log, set_highest_accepted_ballot, set_npromised, get_all_accepted_entries,
}
use go_distributed_system_de.Persistence.Covers.{Covers}
use go_distributed_system_de.Paxos.State.{PaxosServer}
use go_distributed_system_de.Paxos.Acceptor.{handle_prepare, handle_accept}
use go_distributed_system_de.Paxos.Election.{next_ballot, replied, no_client, start_election}
use go_distributed_system_de.Paxos.Election.Survival.{ask, chosen_survives}
use go_distributed_system_de.Paxos.Election.Loss.{committed_entry_lost}
use go_distributed_system_de.Paxos.Replication.{
  AcceptReply, rpc_failed, count_accepts, propose_entry, no_op_entry,
}
use go_distributed_system_de.Paxos.Replication
use go_distributed_system_de.Paxos.Tests.{ballot, server, leading, entry}

abbrev candidate : PaxosServer
candidate = record (server []) { server_id = pos 2 }

-- Two servers of three that have accepted the entry; both answers arrive.
abbrev voter : PaxosServer
voter = (handle_accept (ballot 1) entry 5 (server [])).1

abbrev voters : List PaxosServer
voters = voter ∷ voter ∷ []

chosen_survives_example :
    let r = start_election (map (ask (λ a. true) (next_ballot candidate) 7) voters) candidate in
    (r.0 ≡ ok tt) × (r.1.state ≡ leader) × Covers r.1.ps 0 (ballot 1)
unfolding handle_accept compare update_log set_highest_accepted_ballot save handle_prepare
    greater_than set_npromised get_all_accepted_entries insert lookup inc64
chosen_survives_example =
    chosen_survives 0 (ballot 1) 7 candidate voters (λ a. true) refl
      (((0, refl), tt), (((0, refl), tt), tt)) refl (omega arith) (omega arith)

abbrev one_vote : List AcceptReply
one_vote = Replication.replied true ∷ rpc_failed ∷ []

committed_entry_lost_example :
    let committed = propose_entry entry one_vote leading in
    let promised = handle_prepare (next_ballot candidate) 7 committed.1 in
    let won = start_election (replied true (next_ballot candidate) [] ∷ no_client ∷ []) candidate in
    (committed.0 ≡ ok tt)
    × (promised.0 ≡ ok (true, next_ballot candidate, []))
    × (won.0 ≡ ok tt)
    × (won.1.state ≡ leader)
    × (won.1.ps.log ≡ candidate.ps.log)
    × ((no_op_entry (next_ballot candidate) won.1).index ≡ entry.index)
unfolding count_accepts get_all_accepted_entries lookup inc64
committed_entry_lost_example =
    committed_entry_lost leading candidate entry one_vote 7 refl refl (omega arith) refl refl refl
      (inl (omega arith)) refl (omega arith) refl
