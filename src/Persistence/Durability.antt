-- ===== src/Persistence/Durability.antt =====
-- Every write is on disk when it returns without an error, and leaves the file alone otherwise
-- (multipaxos_kvstore/persistence/persistence.go).
use go_distributed_system_de.Base.{
  ap, refl, panic, ℤ, pos, negsuc, true, some, List, [], Outcome, ok, err, ◌≡◌, ◌≢◌, ◌⊎◌, inl, inr,
  arith, refl,
}
use go_distributed_system_de.Types.Ballot.{BallotNumber}
use go_distributed_system_de.Types.Entry.{LogEntry}
use go_distributed_system_de.Persistence.{
  PersistentState, SaveOutcome, IoError, Persist, snapshot, save, save_as, saved, save_error,
  next_save, later_saves, append_log, update_log, set_npromised, set_highest_accepted_ballot,
  read_file, new_persistent_state,
}

-- What the process would find after a crash is what it has in memory.
abbrev pub IsDurable : PersistentState → Type 0
IsDurable ps = ps.file ≡ some (snapshot ps)

-- The four methods that write.
pub data Write : Type 0 where
  appends : LogEntry → Write
  updates : ℤ → LogEntry → Write
  promises : BallotNumber → Write
  accepts : ℤ → BallotNumber → Write

abbrev pub perform : Write → Persist (Unit {0})
perform (appends entry) = append_log entry
perform (updates index entry) = update_log index entry
perform (promises ballot) = set_npromised ballot
perform (accepts index ballot) = set_highest_accepted_ballot index ballot

-- The two ways in which a save ends; it takes one outcome off the list either way.
abbrev pub SaveCases : PersistentState → Type 0
SaveCases ps =
    ((l : List SaveOutcome) × (save ps
        ≡ (ok tt, record ps { saves = l; file = some (snapshot ps) })))
    ⊎ ((l : List SaveOutcome) × (e : IoError) × (save ps ≡ (err e, record ps { saves = l })))

save_as-cases :
    (o : SaveOutcome) (ps : PersistentState) (l : List SaveOutcome)
    → (save_as o (record ps { saves = l })
        ≡ (ok tt, record ps { saves = l; file = some (snapshot ps) }))
      ⊎ ((e : IoError) × (save_as o (record ps { saves = l }) ≡ (err e, record ps { saves = l })))
unfolding save_as
save_as-cases saved ps l = inl refl
save_as-cases o ps l = inr (save_error o, refl)

pub save_cases : (ps : PersistentState) → SaveCases ps
unfolding save
save_cases ps = elim (save_as-cases (next_save ps.saves) ps (later_saves ps.saves)) [
  | inl h ↦ inl (later_saves ps.saves, h)
  | inr (e, h) ↦ inr (later_saves ps.saves, e, h)
]

-- With no failure ahead, a save succeeds.
pub save_succeeds :
    (ps : PersistentState)
    → ps.saves ≡ []
    → save ps ≡ (ok tt, record ps { file = some (snapshot ps) })
unfolding save save_as
save_succeeds ps h = ground arith

pub record Atomic (before : PersistentState) (r : Outcome IoError (Unit {0}) × PersistentState)
    : Type 0 where
  pub succeeds : r.0 ≡ ok tt → IsDurable r.1
  pub fails : r.0 ≢ ok tt → r.1.file ≡ before.file

pub save-Atomic : (ps : PersistentState) → Atomic ps (save ps)
unfolding save
save-Atomic ps = ground arith

pub save-Durable : (ps : PersistentState) → (save ps).0 ≡ ok tt → IsDurable (save ps).1
save-Durable ps = (save-Atomic ps).succeeds

update_log-Atomic :
    (index : ℤ) (entry : LogEntry) (ps : PersistentState) → Atomic ps (update_log index entry ps)
unfolding update_log save
update_log-Atomic (pos i) entry ps = ground arith
update_log-Atomic (negsuc n) entry ps = ground arith

pub perform-Atomic : (w : Write) (ps : PersistentState) → Atomic ps (perform w ps)
unfolding append_log set_npromised set_highest_accepted_ballot save
perform-Atomic (appends entry) ps = ground arith
perform-Atomic (updates index entry) ps = update_log-Atomic index entry ps
perform-Atomic (promises ballot) ps = ground arith
perform-Atomic (accepts index ballot) ps = ground arith

restart-Durable :
    (id : ℤ) (later : List SaveOutcome) (ps : PersistentState)
    → IsDurable ps
    → new_persistent_state id true (read_file ps.file) later ≡ ok (record ps { saves = later })
unfolding new_persistent_state
restart-Durable id later ps h = ground arith

-- What a restart from the file finds, after a write that ended in one of the three ways.
abbrev pub Restarted :
    PersistentState → ℤ → List SaveOutcome → Outcome IoError (Unit {0}) × PersistentState → Type 0
Restarted before id later (ok u, after) =
    new_persistent_state id true (read_file after.file) later ≡ ok (record after { saves = later })
Restarted before id later (err e, after) =
    new_persistent_state id true (read_file after.file) later
    ≡ new_persistent_state id true (read_file before.file) later
Restarted before id later (panic, after) =
    new_persistent_state id true (read_file after.file) later
    ≡ new_persistent_state id true (read_file before.file) later

Atomic-Restarted :
    (before : PersistentState) (id : ℤ) (later : List SaveOutcome)
    (r : Outcome IoError (Unit {0}) × PersistentState)
    → Atomic before r
    → Restarted before id later r
Atomic-Restarted before id later (ok u, after) a = restart-Durable id later after (a.succeeds refl)
Atomic-Restarted before id later (err e, after) a =
    ap (λ f. new_persistent_state id true (read_file f) later) (a.fails (ground arith))
Atomic-Restarted before id later (panic, after) a =
    ap (λ f. new_persistent_state id true (read_file f) later) (a.fails (ground arith))

-- A crash right after a write: if the write returned without an error, the restarted process has
-- the log, the promise and the accepted ballots that the write left; if it failed or panicked, the
-- restarted process is the one that a crash before the write would give.
pub restart-perform :
    (w : Write) (ps : PersistentState) (id : ℤ) (later : List SaveOutcome)
    → Restarted ps id later (perform w ps)
restart-perform w ps id later = Atomic-Restarted ps id later (perform w ps) (perform-Atomic w ps)
