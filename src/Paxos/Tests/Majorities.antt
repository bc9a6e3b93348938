-- ===== src/Paxos/Tests/Majorities.antt =====
-- Small runs of several Paxos servers (multipaxos_kvstore/server/paxos_server.go).
use go_distributed_system_de.Base.{
  ◌≡◌, ◌≢◌, inl, refl, arith, ok, List, [], ◌∷◌, map, ◌<◌, ◌+◌, ◌/◌, length,
}
use go_distributed_system_de.Types.Ballot.{greater_than, compare}
use go_distributed_system_de.Persistence.{set_npromised, save, write_failed, new_persistent_state}
use go_distributed_system_de.Paxos.State.{PaxosServer, make_server, new_paxos_server}
use go_distributed_system_de.Paxos.Replication.{AcceptReply, replied, propose_entry}
use go_distributed_system_de.Paxos.Replication.Commit.{under_promise}
use go_distributed_system_de.Paxos.Events.Crashes.{
  Lives, begins, takes_step, restarts, Holds, Lives-IsDurable,
}
use go_distributed_system_de.Paxos.Events.{accepts}
use go_distributed_system_de.Paxos.Acceptor.{handle_prepare, handle_accept}
use go_distributed_system_de.Paxos.Quorum.{
  Run, votes_for, count, granted_majority_refuses, stale_proposal_fails,
}
use go_distributed_system_de.Paxos.Tests.{ballot, server, leading, entry}

abbrev run : Run (ballot 2)
run = record {
  asked = server [];
  now = 5;
  reached = (handle_prepare (ballot 2) 5 (server [])).1;
  steps = begins;
  later = 9;
}

abbrev promised : PaxosServer
promised = (handle_prepare (ballot 2) 5 (server [])).1

abbrev restarted : PaxosServer
restarted =
    make_server promised.server_id promised.peers (record promised.ps { saves = write_failed ∷ [] })
      7

-- The acceptor that starts again from the file its promise went to.
crash : Lives promised restarted
unfolding handle_prepare greater_than compare set_npromised save new_paxos_server
    new_persistent_state
crash = restarts (write_failed ∷ []) 7 begins refl

abbrev restarted_run : Run (ballot 2)
restarted_run = record { asked = server []; now = 5; reached = restarted; steps = crash; later = 9 }

abbrev runs : List (Run (ballot 2))
runs = run ∷ restarted_run ∷ []

granted_majority_refuses_example :
    count (votes_for (ballot 2) (ballot 1) entry) runs < length runs / 2 + 1
unfolding handle_prepare greater_than compare set_npromised save
granted_majority_refuses_example =
    granted_majority_refuses (ballot 2) (ballot 1) entry runs (inl (omega arith)) (omega arith)

abbrev reply_of : Run (ballot 2) → AcceptReply
reply_of r = replied (votes_for (ballot 2) (ballot 1) (under_promise entry leading) r)

stale_proposal_fails_example :
    ((propose_entry entry (map reply_of runs) leading).0 ≢ ok tt)
    × ((propose_entry entry (map reply_of runs) leading).1.commit_index ≡ leading.commit_index)
unfolding handle_prepare greater_than compare set_npromised save
stale_proposal_fails_example =
    stale_proposal_fails (ballot 2) leading entry runs reply_of (inl (omega arith)) refl
      (omega arith) (λ r h. ground arith)

-- A promise with one entry in the log, a refused Accept, and a new start.
abbrev written : PaxosServer
written = (handle_prepare (ballot 2) 5 (server (entry ∷ []))).1

abbrev fresh : PaxosServer
fresh = make_server written.server_id written.peers (record written.ps { saves = [] }) 7

Lives-IsDurable_example : Holds (ballot 2) 1 fresh.ps
unfolding handle_prepare handle_accept greater_than compare set_npromised save new_paxos_server
    new_persistent_state
Lives-IsDurable_example =
    Lives-IsDurable written fresh refl
      (restarts [] 7 (takes_step begins (accepts (ballot 1) entry 6)) refl)
