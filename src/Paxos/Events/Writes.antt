-- ===== src/Paxos/Events/Writes.antt =====
-- What each step of a server writes to its file (multipaxos_kvstore/server/paxos_server.go).
use go_distributed_system_de.Base.{
  ℤ, pos, pos_part, neg_part, leb_ℤ, ◌^◌, ◌-◌, ◌<◌, ◌≤◌, ℕ, Bool, true, List, [], ◌∷◌, length, ◌>>◌,
  pure, modify, refl, ap, arith, Bool-cases, inl, inr, int_eq,
}
use go_distributed_system_de.Types.Ballot.{BallotNumber, compare, greater_than}
use go_distributed_system_de.Types.Ballot.Order.{Below, tests-Below, AtLeast-Below}
use go_distributed_system_de.Types.Entry.{LogEntry}
use go_distributed_system_de.Types.Role.{is_leader}
use go_distributed_system_de.Persistence.{
  PersistentState, snapshot, set_npromised, set_highest_accepted_ballot, update_log, append_log,
  get_log_entry,
}
use go_distributed_system_de.Persistence.Durability.{save_cases}
use go_distributed_system_de.Paxos.State.{
  PaxosServer, Serve, on_ps, failed_accepted_ballot, failed_log_entry, failed_append,
}
use go_distributed_system_de.Paxos.Acceptor.{handle_prepare, promise, handle_accept, accept_at}
use go_distributed_system_de.Paxos.Learner.{apply_committed_entries}
use go_distributed_system_de.Paxos.Learner.Replay.{apply_committed_entries-OnlyApplied}
use go_distributed_system_de.Paxos.Election.{
  adopt_at, newer, adopt_accepted_entries, begin_election, finish_election, become_leader,
  next_ballot,
}
use go_distributed_system_de.Paxos.Election.Ballots.{next_ballot-Below}
use go_distributed_system_de.Paxos.Replication.{begin_proposal, finish_proposal, commit, step_down}
use go_distributed_system_de.Paxos.Heartbeat.{handle_heartbeat, heard, finish_heartbeats}
use go_distributed_system_de.Paxos.Transfer.{
  up_to_date, store_transferred, receive_at, handle_state_transfer,
}
use go_distributed_system_de.Paxos.Events.{
  Step, prepares, accepts, hears, stands, adopts, receives, counts_votes, proposes, counts_accepts,
  counts_heartbeats, applies,
}
use go_distributed_system_de.Paxos.Events.Written.{
  Written, Written-refl, set_npromised-Written, update_log-Written, accepted-Written,
  append_log-Written, unwritten, ps-dropped, ps-voted, continue-Written,
}

promise-Written :
    (s : PaxosServer) (ballot : BallotNumber) (now : ℕ)
    → Below s.ps.npromised ballot
    → Written s.ps (promise ballot now s).1.ps
unfolding promise set_npromised
promise-Written s ballot now h =
    let new : PersistentState = record s.ps { npromised = ballot } in
    let l = AtLeast-Below s.ps.npromised ballot h in
    let n : length s.ps.log ≤ length s.ps.log = omega arith in
    elim (save_cases new) [
      | inl (later, e) ↦
          rw (e, promise)
            (record { promised = l; longer = n; file = inr (snapshot new, refl, l, n) })
      | inr (later, x, e) ↦ rw (e, promise) (record { promised = l; longer = n; file = inl refl })
    ]

prepare-Written :
    (s : PaxosServer) (ballot : BallotNumber) (now : ℕ)
    → Written s.ps (handle_prepare ballot now s).1.ps
unfolding handle_prepare
prepare-Written s ballot now = elim (Bool-cases (greater_than ballot s.ps.npromised)) [
  | inl e ↦ rw e (promise-Written s ballot now ((tests-Below ballot s.ps.npromised).0.0 e))
  | inr e ↦ rw e (Written-refl s.ps)
]

-- The second save of an acceptance, and what follows it.
abbrev record_ballot : ℤ → BallotNumber → ℕ → Unit {0} → Serve (Bool × ℤ × BallotNumber)
record_ballot index ballot now _ = do
  on_ps failed_accepted_ballot (set_highest_accepted_ballot index ballot)
  modify (λ s. record s { last_heartbeat = now })
  pure (true, index, ballot)

abbrev end_accept : ℤ → BallotNumber → ℕ → Unit {0} → Serve (Bool × ℤ × BallotNumber)
end_accept index ballot now _ = do
  modify (λ s. record s { last_heartbeat = now })
  pure (true, index, ballot)

accept_at-Written :
    (s : PaxosServer) (index : ℤ) (ballot : BallotNumber) (entry : LogEntry) (now : ℕ)
    → Written s.ps (accept_at index ballot entry now s).1.ps
unfolding accept_at
accept_at-Written s index ballot entry now =
    continue-Written s (on_ps failed_log_entry (update_log index entry) s)
      (record_ballot index ballot now) (update_log-Written index entry s.ps)
      (λ _ t.
        continue-Written t
          (on_ps failed_accepted_ballot (set_highest_accepted_ballot index ballot) t)
          (end_accept index ballot now) (accepted-Written index ballot t.ps)
          (λ _ u. Written-refl u.ps))

accept-Written :
    (s : PaxosServer) (ballot : BallotNumber) (entry : LogEntry) (now : ℕ)
    → Written s.ps (handle_accept ballot entry now s).1.ps
unfolding handle_accept
accept-Written s ballot entry now =
    elim (Bool-cases (leb_ℤ (pos 0) (compare ballot s.ps.npromised))) [
      | inl e ↦ rw e (accept_at-Written s entry.index ballot entry now)
      | inr e ↦ rw e (Written-refl s.ps)
    ]

adopt_at-Written :
    (index : ℤ) (entry : LogEntry) (s : PaxosServer) → Written s.ps (adopt_at index entry s).1.ps
unfolding adopt_at
adopt_at-Written index entry s = elim (Bool-cases (newer entry (get_log_entry s.ps index))) [
  | inl e ↦ rw (e, ps-dropped s (update_log index entry s.ps)) (update_log-Written index entry s.ps)
  | inr e ↦ rw e (Written-refl s.ps)
]

adopt-Written :
    (entries : List LogEntry) (s : PaxosServer)
    → Written s.ps (adopt_accepted_entries entries s).1.ps
unfolding adopt_accepted_entries
adopt-Written [] s = Written-refl s.ps
adopt-Written (entry ∷ entries) s =
    continue-Written s (adopt_at entry.index entry s) (λ _. adopt_accepted_entries entries)
      (adopt_at-Written entry.index entry s) (λ _ t. adopt-Written entries t)

store_transferred-Written :
    (index : ℤ) (entry : LogEntry) (s : PaxosServer)
    → Written s.ps (store_transferred index entry s).1.ps
unfolding store_transferred
store_transferred-Written index entry s =
    continue-Written s (on_ps failed_log_entry (update_log index entry) s)
      (λ _. on_ps failed_accepted_ballot (set_highest_accepted_ballot index entry.ballot_num))
      (update_log-Written index entry s.ps) (λ _ t. accepted-Written index entry.ballot_num t.ps)

receive_at-Written :
    (index : ℤ) (entry : LogEntry) (s : PaxosServer) → Written s.ps (receive_at index entry s).1.ps
unfolding receive_at
receive_at-Written index entry s = elim (Bool-cases (up_to_date entry (get_log_entry s.ps index))) [
  | inl e ↦ rw e (Written-refl s.ps)
  | inr e ↦ rw e (store_transferred-Written index entry s)
]

transfer-Written :
    (entries : List LogEntry) (s : PaxosServer)
    → Written s.ps (handle_state_transfer entries s).1.ps
unfolding handle_state_transfer
transfer-Written [] s = Written-refl s.ps
transfer-Written (entry ∷ entries) s =
    continue-Written s (receive_at entry.index entry s) (λ _. handle_state_transfer entries)
      (receive_at-Written entry.index entry s) (λ _ t. transfer-Written entries t)

begin-Written :
    (s : PaxosServer)
    → pos_part s.ps.npromised.term_number < 2 ^ 63 - 1
    → neg_part s.ps.npromised.term_number ≤ 2 ^ 63
    → Written s.ps (begin_election s).1.ps
unfolding begin_election
begin-Written s h k =
    rw (ps-voted s (set_npromised (next_ballot s) s.ps))
      (set_npromised-Written (next_ballot s) s.ps (next_ballot-Below s h k))

propose-Written : (s : PaxosServer) (entry : LogEntry) → Written s.ps (begin_proposal entry s).1.ps
unfolding begin_proposal
propose-Written s entry = elim (Bool-cases (is_leader s.state)) [
  | inl e ↦ rw e (
      continue-Written s
        (on_ps failed_append (append_log (record entry { ballot_num = s.ps.npromised })) s)
        (λ _. pure (record entry { ballot_num = s.ps.npromised }))
        (append_log-Written (record entry { ballot_num = s.ps.npromised }) s.ps)
        (λ _ t. Written-refl t.ps))
  | inr e ↦ rw e (Written-refl s.ps)
]

pub Step-Written : {s t : PaxosServer} → Step s t → Written s.ps t.ps
unfolding handle_heartbeat heard commit finish_election become_leader finish_proposal step_down
    finish_heartbeats
Step-Written {s = s} (prepares ballot now) = prepare-Written s ballot now
Step-Written {s = s} (accepts ballot entry now) = accept-Written s ballot entry now
Step-Written {s = s} (hears ballot index now) =
    unwritten s (handle_heartbeat ballot index now s).1 (ground arith)
Step-Written {s = s} (stands h k) = begin-Written s h k
Step-Written {s = s} (adopts entries) = adopt-Written entries s
Step-Written {s = s} (receives entries) = transfer-Written entries s
Step-Written {s = s} (counts_votes votes) = unwritten s (finish_election votes s) (ground arith)
Step-Written {s = s} (proposes entry) = propose-Written s entry
Step-Written {s = s} (counts_accepts index n) =
    unwritten s (finish_proposal index n s).1 (ground arith)
Step-Written {s = s} (counts_heartbeats successes) =
    unwritten s (finish_heartbeats successes s) (ground arith)
Step-Written {s = s} applies =
    unwritten s (apply_committed_entries s)
      (ap (λ (t : PaxosServer). t.ps) (apply_committed_entries-OnlyApplied s))
