-- ===== src/Paxos/Tests/Elections.antt =====
-- Small elections, heartbeats and transfers (multipaxos_kvstore/server/paxos_server.go).
use go_distributed_system_de.Base.{
  pos, true, false, List, [], ◌∷◌, none, ◌≡◌, ◌≢◌, ◌↔◌, inl, refl, arith, ok, inc64, ◌+◌,
}
use go_distributed_system_de.Types.Role.{candidate, leader}
use go_distributed_system_de.Persistence.{
  get_all_accepted_entries, set_npromised, save, get_log_entry, update_log,
}
use go_distributed_system_de.Persistence.Covers.{Covers}
use go_distributed_system_de.Paxos.State.{PaxosServer}
use go_distributed_system_de.Paxos.Acceptor.{handle_prepare}
use go_distributed_system_de.Paxos.Election.{
  PrepareReply, no_client, replied, begin_election, adopt_accepted_entries, start_election,
  finish_election, collect_votes,
}
use go_distributed_system_de.Paxos.Loops.{ticked, waits, election_loop}
use go_distributed_system_de.Paxos.Loops.Elects.{silent_follower_leads}
use go_distributed_system_de.Paxos.Election.Ballots.{promises, Decided, start_election_lem}
use go_distributed_system_de.Paxos.Replication.{begin_proposal}
use go_distributed_system_de.Paxos.Replication.Hazards.{leader_under_foreign_ballot}
use go_distributed_system_de.Paxos.Transfer.{
  missing_entries, unlocked, r_lock, initiate_state_transfer,
}
use go_distributed_system_de.Paxos.Transfer.Mutex.{initiate_state_transfer_blocks}
use go_distributed_system_de.Paxos.Learner.{apply_committed_entries}
use go_distributed_system_de.Paxos.Events.{Forward, prepares, applies, none_yet, then_one}
use go_distributed_system_de.Paxos.Events.Monotone.{run-Forward}
use go_distributed_system_de.Paxos.Tests.{ballot, server, entry}

abbrev votes : List PrepareReply
votes = replied true (ballot 2) (entry ∷ []) ∷ no_client ∷ []

start_election_example :
    Decided (server []) (1 + promises votes) (start_election votes (server [])).1.state
unfolding begin_election start_election set_npromised save inc64 collect_votes
    adopt_accepted_entries get_log_entry update_log
start_election_example =
    start_election_lem (server []) (begin_election (server [])).1 (ballot 2) votes refl refl

abbrev candidate_now : PaxosServer
candidate_now = record (server []) { state = candidate }

leader_under_foreign_ballot_example :
    let t = (begin_election (server [])).1 in
    let promised = handle_prepare (ballot 5) 9 t in
    let won = finish_election 2 promised.1 in
    (promised.0 ≡ ok (true, ballot 5, get_all_accepted_entries t.ps))
    × (won.state ≡ leader)
    × ((begin_proposal entry won).0 ≡ ok (record entry { ballot_num = ballot 5 }))
unfolding begin_election set_npromised save inc64
leader_under_foreign_ballot_example =
    leader_under_foreign_ballot (server []) (begin_election (server [])).1 (ballot 2) (ballot 5) 2 9
      entry refl refl (inl (omega arith)) (omega arith)

Covers-first : Covers (server (entry ∷ [])).ps 0 (ballot 1)
unfolding get_log_entry
Covers-first = (entry, refl, λ h. ground arith)

initiate_state_transfer_example :
    (initiate_state_transfer unlocked (pos 2) "b" true (pos 0) 1 (server (entry ∷ [])) ≡ none)
    ↔ (missing_entries (pos 0) 1 (server (entry ∷ [])).ps ≢ [])
unfolding r_lock
initiate_state_transfer_example =
    initiate_state_transfer_blocks unlocked (record { readers = 1; writer = false }) (pos 2) "b"
      true (pos 0) 1 (server (entry ∷ [])) refl

abbrev after_prepare : PaxosServer
after_prepare = (handle_prepare (ballot 2) 9 (server (entry ∷ []))).1

run-Forward_example : Forward (server (entry ∷ [])) (apply_committed_entries after_prepare)
run-Forward_example =
    run-Forward (server (entry ∷ [])) (apply_committed_entries after_prepare)
      (then_one (then_one none_yet (prepares (ballot 2) 9)) applies)

silent_follower_leads_example :
    let events = ticked 50 [] [] ∷ ticked 1_600_000_000 votes [] ∷ [] in
    let r = election_loop 0 events (server []) in (r.0 ≡ ok waits) × (r.1.state ≡ leader)
silent_follower_leads_example =
    silent_follower_leads (server []) 0 1_600_000_000 (ticked 50 [] [] ∷ []) votes [] refl refl
      (omega arith, tt) (omega arith) (((0, refl), tt), tt) (omega arith)
