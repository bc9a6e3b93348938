-- ===== src/Paxos/Election/Loss.antt =====
-- A leader's own entries are not in its promises (`proposeEntry`, `HandlePrepare` and `startElection` of
-- multipaxos_kvstore/server/paxos_server.go).
use go_distributed_system_de.Base.{
  pos, ltb_ℤ, ◌+◌, ◌≤◌, ℕ, true, List, [], ◌∷◌, ◌++◌, length, lookup, int_eq, none, ok, ◌≡◌, refl,
  sym, ap, ◌∙◌, arith, leb, if◌then◌else◌,
}
use go_distributed_system_de.Types.Ballot.Order.{Below}
use go_distributed_system_de.Types.Entry.{LogEntry}
use go_distributed_system_de.Types.Role.{leader}
use go_distributed_system_de.Persistence.{
  PersistentState, set_npromised, append_log, get_all_accepted_entries,
}
use go_distributed_system_de.Persistence.Accepted.{get_all_accepted_entries-append_log}
use go_distributed_system_de.Persistence.Durability.{save_succeeds}
use go_distributed_system_de.Paxos.State.{PaxosServer, majority}
use go_distributed_system_de.Paxos.Acceptor.{handle_prepare}
use go_distributed_system_de.Paxos.Acceptor.Promises.{handle_prepare_succeeds}
use go_distributed_system_de.Paxos.Election.{
  replied, no_client, next_ballot, voted_for_self, begin_election, adopt_accepted_entries,
  collect_votes, finish_election, become_leader, elected, start_election,
}
use go_distributed_system_de.Paxos.Replication.{
  AcceptReply, count_accepts, propose_entry, no_op_entry,
}
use go_distributed_system_de.Paxos.Replication.Commit.{
  under_promise, appended_to, propose_entry_succeeds,
}

append_succeeds :
    (ps : PersistentState) (entry : LogEntry)
    → ps.saves ≡ []
    → append_log entry ps ≡ (ok tt, appended_to ps entry)
unfolding append_log
append_succeeds ps entry h = save_succeeds (record ps { log = ps.log ++ entry ∷ [] }) h

-- An election won with one promise that carries no entry leaves the log as it was.
won_alone :
    (c : PaxosServer)
    → c.ps.saves ≡ []
    → majority c ≤ 2
    → let r = start_election (replied true (next_ballot c) [] ∷ no_client ∷ []) c in
      (r.0 ≡ ok tt) × (r.1.state ≡ leader) × (r.1.ps.log ≡ c.ps.log)
unfolding start_election elected begin_election set_npromised voted_for_self collect_votes
    adopt_accepted_entries finish_election become_leader
won_alone c h m =
    let e : leb (majority c) (1 + 1) ≡ true = ground arith in
    rw (save_succeeds (record c.ps { npromised = next_ballot c }) h) (rw e (refl, refl, refl))

-- A committed entry can be lost in the next election. A leader whose entry a majority accepts, itself
-- included, answers that all went well. It has recorded no accepted ballot for the entry, so when it
-- then promises a higher ballot of a server that does not have the entry, the promise does not
-- carry it: with that one promise, where two votes are a majority, the other server leads
-- without the entry, and the first entry that it proposes has the index of the lost one. (The
-- saves succeed, the old leader has accepted nothing before and has no ballot recorded at the
-- index, the entry stands at the end of its log, and the two logs had the same length.)
pub committed_entry_lost :
    (l c : PaxosServer) (entry : LogEntry) (replies : List AcceptReply) (now : ℕ)
    → l.state ≡ leader
    → l.ps.saves ≡ []
    → majority l ≤ count_accepts replies
    → entry.index ≡ pos (length l.ps.log)
    → get_all_accepted_entries l.ps ≡ []
    → lookup (pos (length l.ps.log)) l.ps.highest_accepted_ballot ≡ none
    → Below l.ps.npromised (next_ballot c)
    → c.ps.saves ≡ []
    → majority c ≤ 2
    → length c.ps.log ≡ length l.ps.log
    → let committed = propose_entry entry replies l in
      let promised = handle_prepare (next_ballot c) now committed.1 in
      let won = start_election (replied true (next_ballot c) [] ∷ no_client ∷ []) c in
      (committed.0 ≡ ok tt)
      × (promised.0 ≡ ok (true, next_ballot c, []))
      × (won.0 ≡ ok tt)
      × (won.1.state ≡ leader)
      × (won.1.ps.log ≡ c.ps.log)
      × ((no_op_entry (next_ballot c) won.1).index ≡ entry.index)
unfolding no_op_entry
committed_entry_lost l c entry replies now s f m i a r b g w n =
    let new = appended_to l.ps (under_promise entry l) in
    let e = propose_entry_succeeds l entry replies s f m in
    let t : PaxosServer = record l {
      ps = new;
      commit_index = if ltb_ℤ l.commit_index entry.index then entry.index else l.commit_index;
    } in
    let omitted : get_all_accepted_entries new ≡ [] =
      ap (λ o. get_all_accepted_entries o.1) (sym (append_succeeds l.ps (under_promise entry l) f))
      ∙ get_all_accepted_entries-append_log l.ps (under_promise entry l) r
      ∙ a in
    let (done, leads, same) = won_alone c g w in
    (
      ap (λ o. o.0) e,
      ap (λ o. (handle_prepare (next_ballot c) now o.1).0) e
          ∙ ap (λ o. o.0) (handle_prepare_succeeds t (next_ballot c) now f b)
          ∙ ap (λ es. ok (true, next_ballot c, es)) omitted,
      done,
      leads,
      same,
      ap (λ log. pos (length log)) same ∙ ap pos n ∙ sym i,
    )
