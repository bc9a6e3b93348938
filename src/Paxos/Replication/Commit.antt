-- ===== src/Paxos/Replication/Commit.antt =====
-- When a proposal commits (`proposeEntry` of multipaxos_kvstore/server/paxos_server.go).
use go_distributed_system_de.Base.{
  ℤ, negsuc, leb, ltb_ℤ, ◌<◌, ◌≤◌, ℕ, true, List, [], ◌∷◌, ◌++◌, length, some, ◌≡◌, ◌≢◌, refl, inl,
  inr, Outcome, ok, err, panic, arith, Bool-cases, if◌then◌else◌, ap,
}
use go_distributed_system_de.Types.Entry.{LogEntry}
use go_distributed_system_de.Types.Role.{ServerState, follower, leader, is_leader}
use go_distributed_system_de.Persistence.{PersistentState, append_log, snapshot}
use go_distributed_system_de.Persistence.Durability.{IsDurable, save_cases, save_succeeds}
use go_distributed_system_de.Paxos.State.{
  PaxosServer, Error, majority, not_the_leader, no_majority, failed_append,
}
use go_distributed_system_de.Paxos.Replication.{
  AcceptReply, count_accepts, begin_proposal, finish_proposal, propose_entry, commit, step_down,
}

-- The entry as it is proposed: under the ballot promised.
abbrev pub under_promise : LogEntry → PaxosServer → LogEntry
under_promise entry s = record entry { ballot_num = s.ps.npromised }

-- What a leader's proposal does whether or not it commits: the entry is the last of the log on disk.
pub record Appended (s : PaxosServer) (entry : LogEntry) (s' : PaxosServer) : Type 0 where
  pub leads : s.state ≡ leader
  pub log : s'.ps.log ≡ s.ps.log ++ under_promise entry s ∷ []
  pub promised : s'.ps.npromised ≡ s.ps.npromised
  pub durable : IsDurable s'.ps

pub record Committed (s : PaxosServer) (entry : LogEntry) (accepts : ℕ) (s' : PaxosServer)
    : Type 0 where
  pub appended : Appended s entry s'
  pub quorum : majority s ≤ accepts
  pub index :
      s'.commit_index ≡ (if ltb_ℤ s.commit_index entry.index then entry.index else s.commit_index)
  pub state : s'.state ≡ leader

pub record SteppedDown (s : PaxosServer) (entry : LogEntry) (accepts : ℕ) (s' : PaxosServer)
    : Type 0 where
  pub appended : Appended s entry s'
  pub no_quorum : accepts < majority s
  pub index : s'.commit_index ≡ s.commit_index
  pub state : s'.state ≡ follower
  pub no_leader : s'.current_leader ≡ negsuc 0

abbrev pub ProposalFailed : PaxosServer → LogEntry → ℕ → Error → PaxosServer → Type 0
ProposalFailed s entry accepts not_the_leader s' = (s.state ≢ leader) × (s' ≡ s)
ProposalFailed s entry accepts (no_majority got size) s' =
    SteppedDown s entry accepts s' × (got ≡ accepts) × (size ≡ length s.peers)
ProposalFailed s entry accepts (failed_append e) s' =
    (s.state ≡ leader) × (s'.ps.file ≡ s.ps.file) × (s'.commit_index ≡ s.commit_index)
ProposalFailed s entry accepts _ s' = ⊥

abbrev pub ProposalOutcome :
    PaxosServer → LogEntry → ℕ → Outcome Error (Unit {0}) × PaxosServer → Type 0
ProposalOutcome s entry accepts (ok u, s') = Committed s entry accepts s'
ProposalOutcome s entry accepts (err e, s') = ProposalFailed s entry accepts e s'
ProposalOutcome s entry accepts (panic, s') = ⊥

is_leader_iff : (r : ServerState) → is_leader r ≡ true → r ≡ leader
is_leader_iff r h = ground arith

pub commit_rest :
    (index : ℤ) (s : PaxosServer)
    → commit index s
      ≡ record s { commit_index = if ltb_ℤ s.commit_index index then index else s.commit_index }
unfolding commit
commit_rest index s = ground arith

pub step_down_leader :
    (s : PaxosServer)
    → s.state ≡ leader
    → step_down s ≡ record s { state = follower; current_leader = negsuc 0 }
unfolding step_down
step_down_leader s h = ground arith

finish-Outcome :
    (s : PaxosServer) (ps : PersistentState) (entry : LogEntry) (accepts : ℕ)
    → Appended s entry (record s { ps = ps })
    → ProposalOutcome s entry accepts (finish_proposal entry.index accepts (record s { ps = ps }))
unfolding finish_proposal
finish-Outcome s ps entry accepts a = elim (Bool-cases (leb (majority s) accepts)) [
  | inl e ↦
      rw (e, commit_rest entry.index (record s { ps = ps }))
        (record {
          appended = record {
            leads = a.leads;
            log = a.log;
            promised = a.promised;
            durable = a.durable;
          };
          quorum = ground arith;
          index = refl;
          state = a.leads;
        })
  | inr e ↦
      rw (e, step_down_leader (record s { ps = ps }) a.leads)
        (
          record {
            appended = record {
              leads = a.leads;
              log = a.log;
              promised = a.promised;
              durable = a.durable;
            };
            no_quorum = ground arith;
            index = refl;
            state = refl;
            no_leader = refl;
          },
          refl,
          refl,
        )
]

leading-Outcome :
    (s : PaxosServer) (entry : LogEntry) (replies : List AcceptReply)
    → s.state ≡ leader
    → is_leader s.state ≡ true
    → ProposalOutcome s entry (count_accepts replies) (propose_entry entry replies s)
unfolding propose_entry begin_proposal append_log
leading-Outcome s entry replies h t =
    rw (t, begin_proposal)
      (elim (save_cases (record s.ps { log = s.ps.log ++ under_promise entry s ∷ [] })) [
        | inl (l, e) ↦ rw e (
            finish-Outcome s _ entry (count_accepts replies)
              (record { leads = h; log = refl; promised = refl; durable = refl }))
        | inr (l, x, e) ↦ rw e (h, refl, refl)
      ])

-- A proposal on a leader, when its own save succeeds, appends the entry to the log under the
-- promised ballot and puts it on disk. With a majority of acceptances, its own included, it returns
-- no error and raises the commit index to the entry's index; without one it returns the count as an
-- error, leaves the commit index, and the server is a follower that knows no leader. If the save
-- fails, the error says so and the file is as before. On a server that does not lead, the error is
-- `not the leader` and nothing changes.
pub propose_entry_lem :
    (s : PaxosServer) (entry : LogEntry) (replies : List AcceptReply)
    → ProposalOutcome s entry (count_accepts replies) (propose_entry entry replies s)
unfolding propose_entry begin_proposal
propose_entry_lem s entry replies = elim (Bool-cases (is_leader s.state)) [
  | inl t ↦ leading-Outcome s entry replies (is_leader_iff s.state t) t
  | inr t ↦ rw (t, begin_proposal) ((λ h. ground arith), refl)
]

-- The persistent state after an append whose save succeeds.
abbrev pub appended_to : PersistentState → LogEntry → PersistentState
appended_to ps entry =
    let t = record ps { log = ps.log ++ entry ∷ [] } in record t { file = some (snapshot t) }

pub propose_entry_succeeds :
    (s : PaxosServer) (entry : LogEntry) (replies : List AcceptReply)
    → s.state ≡ leader
    → s.ps.saves ≡ []
    → majority s ≤ count_accepts replies
    → propose_entry entry replies s ≡ (
      ok tt,
      record s {
        ps = appended_to s.ps (under_promise entry s);
        commit_index = if ltb_ℤ s.commit_index entry.index then entry.index else s.commit_index;
      },
    )
unfolding propose_entry begin_proposal append_log finish_proposal
propose_entry_succeeds s entry replies h f m =
    let t : is_leader s.state ≡ true = ap is_leader h in
    let e : leb (majority s) (count_accepts replies) ≡ true = ground arith in
    rw (t, begin_proposal)
      (rw (save_succeeds (record s.ps { log = s.ps.log ++ under_promise entry s ∷ [] }) f)
        (rw (e, commit_rest entry.index _)))
