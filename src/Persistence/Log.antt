-- ===== src/Persistence/Log.antt =====
-- What the writes to the log do to each position (`AppendLog`, `UpdateLog`, `GetLogEntry` and
-- `GetAllAcceptedEntries` of multipaxos_kvstore/persistence/persistence.go).
use Prim.Native.Nat.{max}
use mathlib.Core.List.{append-nil}
use go_distributed_system_de.Base.{
  true, true, ◌⊎◌, inl, inr, ℤ, pos, negsuc, leb_ℤ, ltb, ◌-◌, ◌<◌, ◌≤◌, ℕ, suc, zero, false, Option,
  none, some, List, [], ◌∷◌, ◌++◌, length, get_elem?, set, replicate, int_eq, if◌then◌else◌, ◌==◌,
  panic, ◌≡◌, ◌≢◌, refl, arith, length-append, length-set, length-replicate, get_elem?-set_self,
  get_elem?-set_ne, get_elem?-append_left, get_elem?-none, Bool-cases, inl, inr, ◌∙◌, ==_iff,
}
use go_distributed_system_de.Types.Entry.{LogEntry, zero_entry}
use go_distributed_system_de.Persistence.{
  PersistentState, save, append_log, update_log, extend_log, get_log_entry, in_log,
}

-- A save leaves the state in memory alone, however it ends.
pub record SameMemory (a b : PersistentState) : Type 0 where
  pub log : a.log ≡ b.log
  pub npromised : a.npromised ≡ b.npromised
  pub accepted : a.highest_accepted_ballot ≡ b.highest_accepted_ballot

pub save-SameMemory : (ps : PersistentState) → SameMemory (save ps).1 ps
unfolding save
save-SameMemory ps = ground arith

pub save-ne-panic : (ps : PersistentState) → (save ps).0 ≢ panic
unfolding save
save-ne-panic ps = ground arith

pub log-append_log :
    (entry : LogEntry) (ps : PersistentState) → (append_log entry ps).1.log ≡ ps.log ++ entry ∷ []
unfolding append_log
log-append_log entry ps = (save-SameMemory _).log

-- The log that `UpdateLog` leaves at a position that is not negative.
pub updated : List LogEntry → ℕ → LogEntry → List LogEntry
updated log i entry = set (extend_log log (pos i)) i entry

extend_in_log : (log : List LogEntry) (i : ℕ) → i < length log → extend_log log (pos i) ≡ log
extend_in_log log i h = let e : suc i - length log ≡ 0 = omega arith in rw e (append-nil log)

-- At a position that is not negative, UpdateLog writes the log and saves.
pub update_log-save :
    (i : ℕ) (entry : LogEntry) (ps : PersistentState)
    → update_log (pos i) entry ps ≡ save (record ps { log = updated ps.log i entry })
unfolding update_log updated
update_log-save i entry ps = elim (Bool-cases (in_log (pos i) ps.log)) [
  | inl e ↦ rw (e, extend_in_log ps.log i (ground arith))
  | inr e ↦ rw e
]

pub update_log_negative :
    (n : ℕ) (entry : LogEntry) (ps : PersistentState) → update_log (negsuc n) entry ps ≡ (panic, ps)
unfolding update_log
update_log_negative n entry ps = ground arith

pub log-update_log :
    (i : ℕ) (entry : LogEntry) (ps : PersistentState)
    → (update_log (pos i) entry ps).1.log ≡ updated ps.log i entry
log-update_log i entry ps = rw (update_log-save i entry ps) (save-SameMemory _).log

length-extend_log :
    (log : List LogEntry) (i : ℕ) → length (extend_log log (pos i)) ≡ max (length log) (suc i)
length-extend_log log i = omega (
  arith,
  length-append log (replicate (suc i - length log) zero_entry),
  length-replicate (suc i - length log) zero_entry,
)

pub length-updated :
    (log : List LogEntry) (i : ℕ) (entry : LogEntry)
    → length (updated log i entry) ≡ max (length log) (suc i)
unfolding updated
length-updated log i entry = length-set _ i entry ∙ length-extend_log log i

get_elem?-replicate :
    (n i : ℕ) (entry : LogEntry) → i < n → get_elem? (replicate n entry) i ≡ some entry
get_elem?-replicate zero i entry h = elim h [ ]
get_elem?-replicate (suc n) zero entry h = refl
get_elem?-replicate (suc n) (suc i) entry h = get_elem?-replicate n i entry (omega arith)

get_elem?-append_right :
    (xs ys : List LogEntry) (i : ℕ)
    → length xs ≤ i
    → get_elem? (xs ++ ys) i ≡ get_elem? ys (i - length xs)
get_elem?-append_right [] ys i h = let e : i - 0 ≡ i = omega arith in rw e
get_elem?-append_right (x ∷ xs) ys zero h = absurd (omega arith)
get_elem?-append_right (x ∷ xs) ys (suc i) h =
    let e : suc i - suc (length xs) ≡ i - length xs = omega arith in
    rw e (get_elem?-append_right xs ys i (omega arith))

-- The written entry, the old entries elsewhere, zero entries in the gap up to a position past the
-- end, and nothing behind.
abbrev pub expected : List LogEntry → ℕ → LogEntry → ℕ → Option LogEntry
expected log i entry j =
    if i == j
    then some entry
    else if ltb j (length log)
    then get_elem? log j
    else if ltb j i
    then some zero_entry
    else none

old_or_gap :
    (log : List LogEntry) (i : ℕ) (entry : LogEntry) (j : ℕ)
    → i ≢ j
    → get_elem? (extend_log log (pos i)) j ≡ expected log i entry j
old_or_gap log i entry j h = ground (
  arith,
  get_elem?-append_left log (replicate (suc i - length log) zero_entry) j,
  get_elem?-append_right log (replicate (suc i - length log) zero_entry) j,
  get_elem?-replicate (suc i - length log) (j - length log) zero_entry,
  get_elem?-none (extend_log log (pos i)) j,
  length-extend_log log i,
)

pub get_elem?-updated :
    (log : List LogEntry) (i : ℕ) (entry : LogEntry) (j : ℕ)
    → get_elem? (updated log i entry) j ≡ expected log i entry j
unfolding updated
get_elem?-updated log i entry j = elim (Bool-cases (i == j)) [
  | inl e ↦
      rw (e, ← (==_iff i j).0 e)
        (get_elem?-set_self _ i entry (omega (arith, length-extend_log log i)))
  | inr e ↦
      get_elem?-set_ne _ i j entry (λ p. ground (arith, ==_iff i j))
      ∙ old_or_gap log i entry j (λ p. ground (arith, ==_iff i j))
]

-- The entries read by position agree with the list, for every position that is not negative.
pub get_log_entry-get_elem? :
    (ps : PersistentState) (j : ℕ) → get_log_entry ps (pos j) ≡ get_elem? ps.log j
unfolding get_log_entry
get_log_entry-get_elem? ps j = ground (arith, get_elem?-none ps.log j)

-- After UpdateLog at a position that is not negative, however the save ends: that position reads
-- back the entry, every other position of the old log its old entry, a position between the old
-- end and the written one a zero entry, and any later position nothing.
pub get_log_entry-update_log :
    (ps : PersistentState) (i j : ℕ) (entry : LogEntry)
    → get_log_entry (update_log (pos i) entry ps).1 (pos j) ≡ expected ps.log i entry j
get_log_entry-update_log ps i j entry =
    rw (get_log_entry-get_elem?, log-update_log i entry ps) (get_elem?-updated ps.log i entry j)

-- At a negative index UpdateLog panics and leaves the state as it was; at any other it does not panic.
pub update_log_panics :
    (ps : PersistentState) (index : ℤ) (entry : LogEntry)
    → ((leb_ℤ (pos 0) index ≡ false) × (update_log index entry ps ≡ (panic, ps)))
      ⊎ ((leb_ℤ (pos 0) index ≡ true) × ((update_log index entry ps).0 ≢ panic))
unfolding update_log save
update_log_panics ps (pos i) entry = ground arith
update_log_panics ps (negsuc n) entry = ground arith

pub update_log-ne-panic :
    (i : ℕ) (entry : LogEntry) (ps : PersistentState) → (update_log (pos i) entry ps).0 ≢ panic
update_log-ne-panic i entry ps h =
    save-ne-panic (record ps { log = updated ps.log i entry })
      (rw (update_log-save i entry ps) at h)
