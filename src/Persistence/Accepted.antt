-- ===== src/Persistence/Accepted.antt =====
-- Which entries `GetAllAcceptedEntries` returns
-- (multipaxos_kvstore/persistence/persistence.go).
use go_distributed_system_de.Base.{
  ℤ, pos, ◌+◌, ℕ, suc, zero, Option, none, some, List, [], ◌∷◌, ◌++◌, Map, lookup, length,
  get_elem?, int_eq, ◌≡◌, ◌↔◌, refl, arith,
}
use go_distributed_system_de.Types.Ballot.{BallotNumber}
use go_distributed_system_de.Types.Entry.{LogEntry}
use go_distributed_system_de.Persistence.{
  PersistentState, append_log, accepted_from, keep_accepted, get_all_accepted_entries,
}
use go_distributed_system_de.Persistence.Log.{save-SameMemory}

-- At which place of the result the entry of a position stands.
abbrev pub Returned : List LogEntry → LogEntry → Type 0
Returned entries entry = (k : ℕ) × (get_elem? entries k ≡ some entry)

-- The entry was accepted: it stands at a position of the log that has an accepted ballot.
abbrev Accepted : ℕ → List LogEntry → Map ℤ BallotNumber → LogEntry → Type 0
Accepted from log accepted entry =
    (i : ℕ) × (b : BallotNumber) × (get_elem? log i ≡ some entry)
    × (lookup (pos (from + i)) accepted ≡ some b)

Returned-keep :
    (o : Option BallotNumber) (e entry : LogEntry) (rest : List LogEntry)
    → Returned rest entry
    → Returned (keep_accepted o e rest) entry
Returned-keep none e entry rest r = r
Returned-keep (some b) e entry rest r = (suc r.0, r.1)

accepted_from_complete :
    (from : ℕ) (log : List LogEntry) (m : Map ℤ BallotNumber) (entry : LogEntry) (i : ℕ)
    (b : BallotNumber)
    → get_elem? log i ≡ some entry
    → lookup (pos (from + i)) m ≡ some b
    → Returned (accepted_from from log m) entry
unfolding accepted_from
accepted_from_complete from [] m entry i b h k = absurd (ground arith)
accepted_from_complete from (e ∷ log) m entry zero b h k =
    let z : from + 0 ≡ from = omega arith in
    let q : lookup (pos from) m ≡ some b = rw z at k in rw q (0, h)
accepted_from_complete from (e ∷ log) m entry (suc i) b h k =
    let z : from + suc i ≡ suc from + i = omega arith in
    Returned-keep (lookup (pos from) m) e entry _
      (accepted_from_complete (suc from) log m entry i b h (rw z at k))

accepted_from_sound :
    (from : ℕ) (log : List LogEntry) (m : Map ℤ BallotNumber) (entry : LogEntry) (k : ℕ)
    → get_elem? (accepted_from from log m) k ≡ some entry
    → Accepted from log m entry
unfolding accepted_from
accepted_from_sound from [] m entry k h = absurd (ground arith)
accepted_from_sound from (e ∷ log) m entry k h =
    keep (accepted_from_sound (suc from) log m entry) (lookup (pos from) m) k refl h
  where
    shift : Accepted (suc from) log m entry → Accepted from (e ∷ log) m entry
    shift (i, b, p, q) =
        (suc i, b, p, (let z : from + suc i ≡ suc from + i = omega arith in rw z q))

    keep :
        ((k : ℕ)
          → get_elem? (accepted_from (suc from) log m) k ≡ some entry
          → Accepted (suc from) log m entry)
        → (o : Option BallotNumber) (k : ℕ) → lookup (pos from) m ≡ o
        → get_elem? (keep_accepted o e (accepted_from (suc from) log m)) k ≡ some entry
        → Accepted from (e ∷ log) m entry
    keep ih none k q h = shift (ih k h)
    keep ih (some b) zero q h = (0, b, h, (let z : from + 0 ≡ from = omega arith in rw z q))
    keep ih (some b) (suc k) q h = shift (ih k h)

-- GetAllAcceptedEntries returns an entry exactly if the entry stands at a position of the log for
-- which a highest accepted ballot is recorded.
pub get_all_accepted_entries_iff :
    (ps : PersistentState) (entry : LogEntry)
    → Returned (get_all_accepted_entries ps) entry ↔ (
        (i : ℕ) × (b : BallotNumber) × (get_elem? ps.log i ≡ some entry)
        × (lookup (pos i) ps.highest_accepted_ballot ≡ some b))
unfolding get_all_accepted_entries
get_all_accepted_entries_iff ps entry = (
  λ (k, h).
      let (i, b, p, q) = accepted_from_sound 0 ps.log _ entry k h in
      (i, b, p, (let z : 0 + i ≡ i = omega arith in rw (← z) q)),
  λ (i, b, p, q).
      accepted_from_complete 0 ps.log _ entry i b p (let z : 0 + i ≡ i = omega arith in rw z q),
)

accepted_from-append :
    (from : ℕ) (log : List LogEntry) (m : Map ℤ BallotNumber) (entry : LogEntry)
    → lookup (pos (from + length log)) m ≡ none
    → accepted_from from (log ++ entry ∷ []) m ≡ accepted_from from log m
unfolding accepted_from
accepted_from-append from [] m entry h =
    let z : from + 0 ≡ from = omega arith in let q : lookup (pos from) m ≡ none = rw z at h in rw q
accepted_from-append from (e ∷ log) m entry h =
    let z : from + suc (length log) ≡ suc from + length log = omega arith in
    rw (accepted_from-append (suc from) log m entry (rw z at h))

-- An entry that the leader appends to its own log is not among the accepted entries, as long as no
-- ballot is recorded for its position: AppendLog records none.
pub get_all_accepted_entries-append_log :
    (ps : PersistentState) (entry : LogEntry)
    → lookup (pos (length ps.log)) ps.highest_accepted_ballot ≡ none
    → get_all_accepted_entries (append_log entry ps).1 ≡ get_all_accepted_entries ps
unfolding get_all_accepted_entries append_log
get_all_accepted_entries-append_log ps entry h =
    rw ((save-SameMemory _).log, (save-SameMemory _).accepted)
      (accepted_from-append 0 ps.log _ entry
        (let z : 0 + length ps.log ≡ length ps.log = omega arith in rw z h))
