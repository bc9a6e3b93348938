-- ===== src/Paxos/Events/Monotone.antt =====
-- No step takes back a promise or a commit (multipaxos_kvstore/server/paxos_server.go).
use go_distributed_system_de.Base.{
  ℤ, pos, negsuc, pos_part, neg_part, leb_ℤ, ◌^◌, ◌-◌, ℕ, ◌≤◌, ◌<◌, Bool, true, ◌≡◌, refl, ap,
  arith, Bool-cases, inl, inr, insert, int_eq, ◌>>◌, modify, pure,
}
use go_distributed_system_de.Types.Ballot.{BallotNumber, compare, greater_than}
use go_distributed_system_de.Types.Ballot.Order.{Below, tests-Below, AtLeast-refl, AtLeast-Below}
use go_distributed_system_de.Types.Entry.{LogEntry}
use go_distributed_system_de.Persistence.{
  set_npromised, set_highest_accepted_ballot, append_log, save,
}
use go_distributed_system_de.Persistence.Durability.{save_cases}
use go_distributed_system_de.Persistence.Log.{updated, update_log-save, update_log_negative}
use go_distributed_system_de.Paxos.State.{PaxosServer, Serve, on_ps, failed_accepted_ballot}
use go_distributed_system_de.Paxos.Acceptor.{handle_prepare, promise, handle_accept, accept_at}
use go_distributed_system_de.Paxos.Learner.{apply_committed_entries}
use go_distributed_system_de.Paxos.Learner.Replay.{apply_committed_entries-OnlyApplied}
use go_distributed_system_de.Paxos.Election.{
  begin_election, voted_for_self, finish_election, become_leader, next_ballot,
}
use go_distributed_system_de.Paxos.Election.Ballots.{next_ballot-Below}
use go_distributed_system_de.Paxos.Replication.{begin_proposal, finish_proposal, commit, step_down}
use go_distributed_system_de.Paxos.Heartbeat.{handle_heartbeat, heard, finish_heartbeats}
use go_distributed_system_de.Paxos.Events.Entries.{
  trans-Forward, adopt_accepted_entries-Forward, handle_state_transfer-Forward,
}
use go_distributed_system_de.Paxos.Events.{
  Forward, kept, adopts, receives, Step, prepares, accepts, hears, stands, counts_votes, proposes,
  counts_accepts, counts_heartbeats, applies, Steps, none_yet, then_one,
}

raised :
    (s s' : PaxosServer)
    → Below s.ps.npromised s'.ps.npromised
    → s'.commit_index ≡ s.commit_index
    → Forward s s'
raised s s' p c = record {
  promised = AtLeast-Below s.ps.npromised s'.ps.npromised p;
  index = rw c (omega arith);
}

promise-Forward :
    (s : PaxosServer) (ballot : BallotNumber) (now : ℕ)
    → Below s.ps.npromised ballot
    → Forward s (promise ballot now s).1
unfolding promise set_npromised
promise-Forward s ballot now h = elim (save_cases (record s.ps { npromised = ballot })) [
  | inl (l, e) ↦ rw (e, promise) (raised s _ h refl)
  | inr (l, x, e) ↦ rw (e, promise) (raised s _ h refl)
]

handle_prepare-Forward :
    (s : PaxosServer) (ballot : BallotNumber) (now : ℕ) → Forward s (handle_prepare ballot now s).1
unfolding handle_prepare
handle_prepare-Forward s ballot now = elim (Bool-cases (greater_than ballot s.ps.npromised)) [
  | inl e ↦ rw e (promise-Forward s ballot now ((tests-Below ballot s.ps.npromised).0.0 e))
  | inr e ↦ rw e (kept s s refl refl)
]

-- The second save of an acceptance, and what follows it.
abbrev record_ballot : ℕ → BallotNumber → ℕ → Serve (Bool × ℤ × BallotNumber)
record_ballot i ballot now = do
  on_ps failed_accepted_ballot (set_highest_accepted_ballot (pos i) ballot)
  modify (λ s. record s { last_heartbeat = now })
  pure (true, pos i, ballot)

second_save-Forward :
    (s t : PaxosServer) (ballot : BallotNumber) (i : ℕ) (now : ℕ)
    → t.ps.npromised ≡ s.ps.npromised
    → t.commit_index ≡ s.commit_index
    → Forward s (record_ballot i ballot now t).1
unfolding set_highest_accepted_ballot
second_save-Forward s t ballot i now p c =
    elim (save_cases (record t.ps {
      highest_accepted_ballot = insert (pos i) ballot t.ps.highest_accepted_ballot;
    })) [ inl (l, e) ↦ rw e (kept s _ p c) | inr (l, x, e) ↦ rw e (kept s _ p c) ]

accept_at-Forward :
    (s : PaxosServer) (ballot : BallotNumber) (at : ℤ) (entry : LogEntry) (now : ℕ)
    → Forward s (accept_at at ballot entry now s).1
unfolding accept_at
accept_at-Forward s ballot (negsuc n) entry now =
    rw (update_log_negative n entry s.ps) (kept s s refl refl)
accept_at-Forward s ballot (pos i) entry now =
    rw (update_log-save i entry s.ps)
      (elim (save_cases (record s.ps { log = updated s.ps.log i entry })) [
        | inl (l, e) ↦ rw e (second_save-Forward s _ ballot i now refl refl)
        | inr (l, x, e) ↦ rw e (kept s _ refl refl)
      ])

handle_accept-Forward :
    (s : PaxosServer) (ballot : BallotNumber) (entry : LogEntry) (now : ℕ)
    → Forward s (handle_accept ballot entry now s).1
unfolding handle_accept
handle_accept-Forward s ballot entry now =
    elim (Bool-cases (leb_ℤ (pos 0) (compare ballot s.ps.npromised))) [
      | inl e ↦ rw e (accept_at-Forward s ballot entry.index entry now)
      | inr e ↦ rw e (kept s s refl refl)
    ]

begin_election-Forward :
    (s : PaxosServer)
    → pos_part s.ps.npromised.term_number < 2 ^ 63 - 1
    → neg_part s.ps.npromised.term_number ≤ 2 ^ 63
    → Forward s (begin_election s).1
unfolding begin_election set_npromised
begin_election-Forward s h k = elim (save_cases (record s.ps { npromised = next_ballot s })) [
  | inl (l, e) ↦ rw (e, voted_for_self) (raised s _ (next_ballot-Below s h k) refl)
  | inr (l, x, e) ↦ rw (e, voted_for_self) (raised s _ (next_ballot-Below s h k) refl)
]

handle_heartbeat-Forward :
    (s : PaxosServer) (ballot : BallotNumber) (index : ℤ) (now : ℕ)
    → Forward s (handle_heartbeat ballot index now s).1
unfolding handle_heartbeat heard commit
handle_heartbeat-Forward s ballot index now =
    let e : (handle_heartbeat ballot index now s).1.ps.npromised ≡ s.ps.npromised = ground arith in
    record { promised = rw e (AtLeast-refl s.ps.npromised); index = ground arith }

finish_election-Forward : (s : PaxosServer) (votes : ℕ) → Forward s (finish_election votes s)
unfolding finish_election become_leader
finish_election-Forward s votes = kept s (finish_election votes s) (ground arith) (ground arith)

begin_proposal-Forward : (s : PaxosServer) (entry : LogEntry) → Forward s (begin_proposal entry s).1
unfolding begin_proposal append_log save
begin_proposal-Forward s entry = kept s (begin_proposal entry s).1 (ground arith) (ground arith)

finish_proposal-Forward :
    (s : PaxosServer) (index : ℤ) (n : ℕ) → Forward s (finish_proposal index n s).1
unfolding finish_proposal commit step_down
finish_proposal-Forward s index n =
    let e : (finish_proposal index n s).1.ps.npromised ≡ s.ps.npromised = ground arith in
    record { promised = rw e (AtLeast-refl s.ps.npromised); index = ground arith }

finish_heartbeats-Forward :
    (s : PaxosServer) (successes : ℕ) → Forward s (finish_heartbeats successes s)
unfolding finish_heartbeats step_down
finish_heartbeats-Forward s successes =
    kept s (finish_heartbeats successes s) (ground arith) (ground arith)

apply_committed_entries-Forward : (s : PaxosServer) → Forward s (apply_committed_entries s)
apply_committed_entries-Forward s =
    kept s (apply_committed_entries s)
      (ap (λ (t : PaxosServer). t.ps.npromised) (apply_committed_entries-OnlyApplied s))
      (ap (λ (t : PaxosServer). t.commit_index) (apply_committed_entries-OnlyApplied s))

Step-Forward : {s t : PaxosServer} → Step s t → Forward s t
Step-Forward {s = s} (prepares ballot now) = handle_prepare-Forward s ballot now
Step-Forward {s = s} (accepts ballot entry now) = handle_accept-Forward s ballot entry now
Step-Forward {s = s} (hears ballot index now) = handle_heartbeat-Forward s ballot index now
Step-Forward {s = s} (stands h k) = begin_election-Forward s h k
Step-Forward {s = s} (adopts entries) = adopt_accepted_entries-Forward entries s
Step-Forward {s = s} (receives entries) = handle_state_transfer-Forward entries s
Step-Forward {s = s} (counts_votes votes) = finish_election-Forward s votes
Step-Forward {s = s} (proposes entry) = begin_proposal-Forward s entry
Step-Forward {s = s} (counts_accepts index n) = finish_proposal-Forward s index n
Step-Forward {s = s} (counts_heartbeats successes) = finish_heartbeats-Forward s successes
Step-Forward {s = s} applies = apply_committed_entries-Forward s

Steps-Forward : {s t : PaxosServer} → Steps s t → Forward s t
Steps-Forward {s = s} none_yet = kept s s refl refl
Steps-Forward {s = s} (then_one {t = t} {u = u} before last) =
    trans-Forward s t u (Steps-Forward before) (Step-Forward last)

-- Whatever requests, replies and events a server meets, in any order, and whatever its saves do, its
-- promise is at the end at least the ballot promised at the start, and its commit index at least the
-- one at the start, as long as no election is begun at the largest term.
pub run-Forward : (s t : PaxosServer) → Steps s t → Forward s t
run-Forward s t steps = Steps-Forward steps
