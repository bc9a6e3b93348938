-- ===== src/Paxos/Acceptor/Votes.antt =====
-- Phase 2 at an acceptor (`HandleAccept` of multipaxos_kvstore/server/paxos_server.go).
use go_distributed_system_de.Base.{
  ℤ, pos, negsuc, leb_ℤ, ℕ, Bool, true, false, List, Outcome, ok, err, panic, ◌≡◌, refl, arith,
  Bool-cases, inl, inr, some, ◌≤ℤ◌, lookup-insert_self, insert, int_eq, ==_iff, ◌∙◌, ◌>>◌, pure,
  modify,
}
use go_distributed_system_de.Types.Ballot.{BallotNumber, compare}
use go_distributed_system_de.Types.Ballot.Order.{Below, AtLeast, AtLeast-iff, not_at_least}
use go_distributed_system_de.Types.Entry.{LogEntry}
use go_distributed_system_de.Persistence.{
  PersistentState, set_highest_accepted_ballot, get_log_entry, get_highest_accepted_ballot,
}
use go_distributed_system_de.Persistence.Log.{
  updated, update_log-save, update_log_negative, get_log_entry-get_elem?, get_elem?-updated,
}
use go_distributed_system_de.Persistence.Durability.{IsDurable, save_cases}
use go_distributed_system_de.Paxos.State.{PaxosServer, Error, on_ps, failed_accepted_ballot}
use go_distributed_system_de.Paxos.Acceptor.{handle_accept, accept_at}

-- An acceptance: a ballot not below the promise, with the entry and its ballot on disk. The promise
-- stays as it was.
pub record Voted (s : PaxosServer) (ballot : BallotNumber) (at : ℤ) (entry : LogEntry) (index : ℤ)
    (b : BallotNumber) (s' : PaxosServer) : Type 0 where
  pub allowed : AtLeast ballot s.ps.npromised
  pub reply : (index ≡ at) × (b ≡ ballot)
  pub position : pos 0 ≤ℤ at
  pub stored : get_log_entry s'.ps at ≡ some entry
  pub recorded : get_highest_accepted_ballot s'.ps at ≡ some ballot
  pub durable : IsDurable s'.ps
  pub promised : s'.ps.npromised ≡ s.ps.npromised

pub record Rejected (s : PaxosServer) (ballot : BallotNumber) (at : ℤ) (index : ℤ)
    (b : BallotNumber) (s' : PaxosServer) : Type 0 where
  pub below : Below ballot s.ps.npromised
  pub reply : (index ≡ at) × (b ≡ s.ps.npromised)
  pub same : s' ≡ s

abbrev pub AcceptOutcome :
    PaxosServer
    → BallotNumber
    → ℤ
    → LogEntry
    → Outcome Error (Bool × ℤ × BallotNumber) × PaxosServer
    → Type 0
AcceptOutcome s ballot at entry (ok (true, index, b), s') = Voted s ballot at entry index b s'
AcceptOutcome s ballot at entry (ok (false, index, b), s') = Rejected s ballot at index b s'
AcceptOutcome s ballot at entry (err e, s') =
    AtLeast ballot s.ps.npromised × (s'.ps.npromised ≡ s.ps.npromised)
AcceptOutcome s ballot at entry (panic, s') =
    AtLeast ballot s.ps.npromised × (leb_ℤ (pos 0) at ≡ false) × (s' ≡ s)

pub stored_at :
    (i : ℕ) (entry : LogEntry) (log : List LogEntry) (ps : PersistentState)
    → ps.log ≡ updated log i entry
    → get_log_entry ps (pos i) ≡ some entry
stored_at i entry log ps h =
    get_log_entry-get_elem? ps i
    ∙ rw h (ground (arith, get_elem?-updated log i entry i, ==_iff i i))

second_save-Outcome :
    (s t : PaxosServer) (ballot : BallotNumber) (i : ℕ) (entry : LogEntry) (now : ℕ)
    → AtLeast ballot s.ps.npromised
    → t.ps.log ≡ updated s.ps.log i entry
    → t.ps.npromised ≡ s.ps.npromised
    → AcceptOutcome s ballot (pos i) entry (
        (do
          on_ps failed_accepted_ballot (set_highest_accepted_ballot (pos i) ballot)
          modify (λ s. record s { last_heartbeat = now })
          pure (true, pos i, ballot))
          t)
unfolding set_highest_accepted_ballot
second_save-Outcome s t ballot i entry now h p q =
    elim (save_cases (record t.ps {
      highest_accepted_ballot = insert (pos i) ballot t.ps.highest_accepted_ballot;
    })) [
      | inl (l, e) ↦ rw e (record {
        allowed = h;
        reply = (refl, refl);
        position = omega arith;
        stored = stored_at i entry s.ps.log _ p;
        recorded = lookup-insert_self (pos i) ballot t.ps.highest_accepted_ballot;
        durable = refl;
        promised = q;
      })
      | inr (l, x, e) ↦ rw e (h, q)
    ]

accept-Outcome :
    (s : PaxosServer) (ballot : BallotNumber) (at : ℤ) (entry : LogEntry) (now : ℕ)
    → AtLeast ballot s.ps.npromised
    → AcceptOutcome s ballot at entry (accept_at at ballot entry now s)
unfolding accept_at
accept-Outcome s ballot (negsuc n) entry now h =
    rw (update_log_negative n entry s.ps) (h, ground arith, refl)
accept-Outcome s ballot (pos i) entry now h =
    rw (update_log-save i entry s.ps)
      (elim (save_cases (record s.ps { log = updated s.ps.log i entry })) [
        | inl (l, e) ↦ rw e (second_save-Outcome s _ ballot i entry now h refl refl)
        | inr (l, x, e) ↦ rw e (h, refl)
      ])

-- HandleAccept accepts exactly a ballot that is not below the promise. When it has accepted, the
-- entry stands at its index, the ballot is recorded for that index, all of it is on disk, and the
-- promise is the old one. Any lower ballot is rejected with the promise in force and nothing
-- changes. A failed save returns an error with the promise unchanged; a negative index panics.
pub handle_accept_lem :
    (s : PaxosServer) (ballot : BallotNumber) (entry : LogEntry) (now : ℕ)
    → AcceptOutcome s ballot entry.index entry (handle_accept ballot entry now s)
unfolding handle_accept
handle_accept_lem s ballot entry now =
    elim (Bool-cases (leb_ℤ (pos 0) (compare ballot s.ps.npromised))) [
      | inl e ↦
          rw e (
            accept-Outcome s ballot entry.index entry now ((AtLeast-iff ballot s.ps.npromised).0 e))
      | inr e ↦ rw e (record {
        below = not_at_least ballot s.ps.npromised e;
        reply = (refl, refl);
        same = refl;
      })
    ]
