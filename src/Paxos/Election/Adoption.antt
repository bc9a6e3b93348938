-- ===== src/Paxos/Election/Adoption.antt =====
-- A candidate's log takes over what its peers have accepted (`adoptAcceptedEntries` of
-- multipaxos_kvstore/server/paxos_server.go).
use go_distributed_system_de.Base.{
  pos, ℕ, true, false, List, [], ◌∷◌, Option, none, some, ◌≡◌, refl, ◌∙◌, sym, ok, err, panic,
  Outcome, subst, ◌≢◌, Bool-cases, inl, inr, ap, if◌then◌else◌,
}
use go_distributed_system_de.Types.Ballot.{BallotNumber}
use go_distributed_system_de.Types.Ballot.Order.{AtLeast, AtLeast-Below, tests-Below}
use go_distributed_system_de.Types.Entry.{LogEntry}
use go_distributed_system_de.Persistence.{PersistentState, IoError, get_log_entry, update_log}
use go_distributed_system_de.Persistence.Log.{log-update_log, update_log-ne-panic}
use go_distributed_system_de.Persistence.Covers.{
  Covers, AllPositioned, AllCovered, updated-Covers, updated_covered,
}
use go_distributed_system_de.Paxos.State.{PaxosServer}
use go_distributed_system_de.Paxos.Election.{adopt_accepted_entries, adopt_at, dropped, newer}

newer-AtLeast :
    (entry x : LogEntry) (o : Option LogEntry)
    → newer entry o ≡ true
    → o ≡ some x
    → AtLeast entry.ballot_num x.ballot_num
newer-AtLeast entry x o h q =
    let n : newer entry (some x) ≡ true = subst (λ o. newer entry o ≡ true) q h in
    AtLeast-Below x.ballot_num entry.ballot_num ((tests-Below entry.ballot_num x.ballot_num).0.0 n)

not_newer :
    (entry : LogEntry) (o : Option LogEntry)
    → newer entry o ≡ false
    → (x : LogEntry) × (o ≡ some x) × AtLeast x.ballot_num entry.ballot_num
not_newer entry none h = cc
not_newer entry (some x) h =
    (x, refl, λ k. cc (h, (tests-Below entry.ballot_num x.ballot_num).0.1 k))

-- A write at a position where it is newer keeps every cover.
update_log-Covers :
    (ps : PersistentState) (i j : ℕ) (entry : LogEntry) (b : BallotNumber)
    → newer entry (get_log_entry ps (pos i)) ≡ true
    → Covers ps j b
    → Covers (update_log (pos i) entry ps).1 j b
update_log-Covers ps i j entry b n =
    updated-Covers ps (update_log (pos i) entry ps).1 i entry (log-update_log i entry ps)
      (λ x q. newer-AtLeast entry x (get_log_entry ps (pos i)) n q) j b

-- One turn of the loop.
adopt_one : LogEntry → ℕ → PersistentState → PersistentState
adopt_one entry i ps =
    if newer entry (get_log_entry ps (pos i)) then (update_log (pos i) entry ps).1 else ps

adopt_one-Covers :
    (ps : PersistentState) (i j : ℕ) (entry : LogEntry) (b : BallotNumber)
    → Covers ps j b
    → Covers (adopt_one entry i ps) j b
unfolding adopt_one
adopt_one-Covers ps i j entry b c = elim (Bool-cases (newer entry (get_log_entry ps (pos i)))) [
  | inl e ↦ rw e (update_log-Covers ps i j entry b e c)
  | inr e ↦ rw e c
]

adopt_one_covered :
    (ps : PersistentState) (i : ℕ) (entry : LogEntry)
    → Covers (adopt_one entry i ps) i entry.ballot_num
unfolding adopt_one
adopt_one_covered ps i entry = elim (Bool-cases (newer entry (get_log_entry ps (pos i)))) [
  | inl e ↦
      rw e (updated_covered ps (update_log (pos i) entry ps).1 i entry (log-update_log i entry ps))
  | inr e ↦ rw e (not_newer entry (get_log_entry ps (pos i)) e)
]

dropped_lem :
    (s : PaxosServer) (r : Outcome IoError (Unit {0}) × PersistentState)
    → r.0 ≢ panic
    → dropped s r ≡ (ok tt, record s { ps = r.1 })
unfolding dropped
dropped_lem s (ok u, ps) h = refl
dropped_lem s (err e, ps) h = refl
dropped_lem s (panic, ps) h = absurd (h refl)

adopt_at_lem :
    (entry : LogEntry) (i : ℕ) (s : PaxosServer)
    → adopt_at (pos i) entry s ≡ (ok tt, record s { ps = adopt_one entry i s.ps })
unfolding adopt_at adopt_one
adopt_at_lem entry i s = elim (Bool-cases (newer entry (get_log_entry s.ps (pos i)))) [
  | inl e ↦ rw e (dropped_lem s (update_log (pos i) entry s.ps) (update_log-ne-panic i entry s.ps))
  | inr e ↦ rw e
]

adopt_step :
    (entry : LogEntry) (entries : List LogEntry) (i : ℕ) (s : PaxosServer)
    → entry.index ≡ pos i
    → adopt_accepted_entries (entry ∷ entries) s
      ≡ adopt_accepted_entries entries (record s { ps = adopt_one entry i s.ps })
unfolding adopt_accepted_entries
adopt_step entry entries i s h =
    let e : adopt_at entry.index entry s ≡ (ok tt, record s { ps = adopt_one entry i s.ps }) =
      ap (λ k. adopt_at k entry s) h ∙ adopt_at_lem entry i s in
    rw e

adopt-Covers :
    (entries : List LogEntry) (s : PaxosServer) (j : ℕ) (b : BallotNumber)
    → AllPositioned entries
    → Covers s.ps j b
    → Covers (adopt_accepted_entries entries s).1.ps j b
unfolding adopt_accepted_entries
adopt-Covers [] s j b p c = c
adopt-Covers (entry ∷ entries) s j b p c = rw (adopt_step entry entries p.0.0 s p.0.1) (
    adopt-Covers entries (record s { ps = adopt_one entry p.0.0 s.ps }) j b p.1
      (adopt_one-Covers s.ps p.0.0 j entry b c))

adopt-AllCovered :
    (entries : List LogEntry) (s : PaxosServer)
    → AllPositioned entries
    → AllCovered (adopt_accepted_entries entries s).1.ps entries
adopt-AllCovered [] s p = tt
adopt-AllCovered (entry ∷ entries) s p = (
  λ i q. rw (adopt_step entry entries i s q) (
      adopt-Covers entries (record s { ps = adopt_one entry i s.ps }) i entry.ballot_num p.1
        (adopt_one_covered s.ps i entry)),
  subst (λ r. AllCovered r.1.ps entries) (sym (adopt_step entry entries p.0.0 s p.0.1))
      (adopt-AllCovered entries (record s { ps = adopt_one entry p.0.0 s.ps }) p.1),
)

adopt-ok :
    (entries : List LogEntry) (s : PaxosServer)
    → AllPositioned entries
    → (adopt_accepted_entries entries s).0 ≡ ok tt
unfolding adopt_accepted_entries
adopt-ok [] s p = refl
adopt-ok (entry ∷ entries) s p =
    rw (adopt_step entry entries p.0.0 s p.0.1)
      (adopt-ok entries (record s { ps = adopt_one entry p.0.0 s.ps }) p.1)

-- Adopting entries none of which has a negative index always succeeds. Afterwards the log holds, at
-- the index of each of these entries, an entry whose ballot is at least as high; and wherever it
-- held an entry before, it still holds one whose ballot is at least as high.
pub adopt_accepted_entries_lem :
    (entries : List LogEntry) (s : PaxosServer)
    → AllPositioned entries
    → let r = adopt_accepted_entries entries s in
      (r.0 ≡ ok tt)
      × AllCovered r.1.ps entries
      × ((j : ℕ) (b : BallotNumber) → Covers s.ps j b → Covers r.1.ps j b)
adopt_accepted_entries_lem entries s p =
    (adopt-ok entries s p, adopt-AllCovered entries s p, λ j b c. adopt-Covers entries s j b p c)
