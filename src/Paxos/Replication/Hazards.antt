-- ===== src/Paxos/Replication/Hazards.antt =====
-- What can happen between the locked parts of an election and of a proposal
-- (`startElection`, `becomeLeader`, `proposeEntry` of multipaxos_kvstore/server/paxos_server.go).
use go_distributed_system_de.Base.{leb, ℕ, ◌≤◌, true, some, ok, ◌≡◌, refl, arith, ◌++◌, [], ◌∷◌}
use go_distributed_system_de.Types.Ballot.{BallotNumber}
use go_distributed_system_de.Types.Ballot.Order.{Below}
use go_distributed_system_de.Types.Entry.{LogEntry}
use go_distributed_system_de.Types.Role.{leader}
use go_distributed_system_de.Persistence.{append_log, snapshot, get_all_accepted_entries}
use go_distributed_system_de.Persistence.Durability.{save_succeeds}
use go_distributed_system_de.Paxos.State.{PaxosServer, majority}
use go_distributed_system_de.Paxos.Acceptor.{handle_prepare}
use go_distributed_system_de.Paxos.Acceptor.Promises.{handle_prepare_succeeds}
use go_distributed_system_de.Paxos.Election.{begin_election, finish_election, become_leader}
use go_distributed_system_de.Paxos.Replication.{begin_proposal}

-- A candidate that promises a higher ballot of another server while it waits for its votes still
-- becomes leader when the votes for its own ballot are a majority, and then sends its entries under
-- the other server's ballot.
pub leader_under_foreign_ballot :
    (s t : PaxosServer) (own foreign : BallotNumber) (votes now : ℕ) (entry : LogEntry)
    → begin_election s ≡ (some own, t)
    → t.ps.saves ≡ []
    → Below t.ps.npromised foreign
    → majority t ≤ votes
    → let promised = handle_prepare foreign now t in
      let won = finish_election votes promised.1 in
      (promised.0 ≡ ok (true, foreign, get_all_accepted_entries t.ps))
      × (won.state ≡ leader)
      × ((begin_proposal entry won).0 ≡ ok (record entry { ballot_num = foreign }))
unfolding finish_election become_leader begin_proposal append_log
leader_under_foreign_ballot s t own foreign votes now entry begun h b m =
    let e : leb (majority t) votes ≡ true = ground arith in
    rw (handle_prepare_succeeds t foreign now h b, e)
      (rw
        (save_succeeds
          (record t.ps {
            npromised = foreign;
            file = some (snapshot (record t.ps { npromised = foreign }));
            log = t.ps.log ++ record entry { ballot_num = foreign } ∷ [];
          })
          h)
        (refl, refl, refl))
