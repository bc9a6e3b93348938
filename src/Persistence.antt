-- ===== src/Persistence.antt =====
-- The acceptor's state on disk (multipaxos_kvstore/persistence/persistence.go).
-- The file's content is the value that `json.Marshal` was given; `save` writes a temporary file,
-- which is never read, and renames it. How each coming save ends is the list `saves`: past its end
-- they succeed.
pub mod Log
pub mod Durability
pub mod Accepted
pub mod Covers
mod Tests
use go_distributed_system_de.Base.{
  ℤ, pos, negsuc, pos_part, ltb_ℤ, leb_ℤ, ltb, ◌-◌, ◌+◌, ℕ, suc, zero, Bool, true, false, ◌&&◌,
  Option, none, some, List, [], ◌∷◌, ◌++◌, Map, lookup, insert, length, get_elem?, set, replicate,
  int_eq, if◌then◌else◌, Outcome, ok, err, panic, Exec, ◌>>=◌, ◌>>◌,
}
use go_distributed_system_de.Types.Ballot.{BallotNumber, new_ballot_number}
use go_distributed_system_de.Types.Entry.{LogEntry, zero_entry}

-- `persistentData`, which is what the file holds.
pub record PersistentData : Type 0 where
  pub log : List LogEntry
  pub npromised : BallotNumber
  pub highest_accepted_ballot : Map ℤ BallotNumber

pub data SaveOutcome : Type 0 where
  saved marshal_failed write_failed rename_failed : SaveOutcome

pub record PersistentState : Type 0 where
  pub log : List LogEntry
  pub npromised : BallotNumber
  pub highest_accepted_ballot : Map ℤ BallotNumber
  pub file : Option PersistentData
  pub saves : List SaveOutcome

pub data IoError : Type 0 where
  save_error : SaveOutcome → IoError
  mkdir_error read_error : IoError

abbrev pub Persist : Type 0 → Type 0
Persist A = Exec PersistentState IoError A

-- What `save` marshals.
abbrev pub snapshot : PersistentState → PersistentData
snapshot ps = record {
  log = ps.log;
  npromised = ps.npromised;
  highest_accepted_ballot = ps.highest_accepted_ballot;
}

next_save : List SaveOutcome → SaveOutcome
next_save [] = saved
next_save (o ∷ os) = o

later_saves : List SaveOutcome → List SaveOutcome
later_saves [] = []
later_saves (o ∷ os) = os

save_as : SaveOutcome → Persist (Unit {0})
save_as saved ps = (ok tt, record ps { file = some (snapshot ps) })
save_as failed ps = (err (save_error failed), ps)

unfoldable pub save : Persist (Unit {0})
unfolding save_as next_save later_saves
save ps = save_as (next_save ps.saves) (record ps { saves = later_saves ps.saves })

unfoldable pub append_log : LogEntry → Persist (Unit {0})
append_log entry ps = save (record ps { log = ps.log ++ entry ∷ [] })

-- index >= 0 && index < len(log)
abbrev pub in_log : ℤ → List LogEntry → Bool
in_log index log = leb_ℤ (pos 0) index && ltb_ℤ index (pos (length log))

-- `for len(ps.Log) <= index { append }`, then `ps.Log[index] = entry`. A negative index extends
-- nothing, and the assignment panics.
abbrev extend_log : List LogEntry → ℤ → List LogEntry
extend_log log (pos i) = log ++ replicate (suc i - length log) zero_entry
extend_log log (negsuc n) = log

write_extended : ℤ → LogEntry → Persist (Unit {0})
write_extended (pos i) entry ps = save (record ps { log = set (extend_log ps.log (pos i)) i entry })
write_extended (negsuc n) entry ps = (panic, ps)

unfoldable pub update_log : ℤ → LogEntry → Persist (Unit {0})
unfolding write_extended
update_log index entry ps =
    if in_log index ps.log
    then save (record ps { log = set ps.log (pos_part index) entry })
    else write_extended index entry ps

unfoldable pub set_npromised : BallotNumber → Persist (Unit {0})
set_npromised ballot ps = save (record ps { npromised = ballot })

unfoldable pub set_highest_accepted_ballot : ℤ → BallotNumber → Persist (Unit {0})
set_highest_accepted_ballot index ballot ps =
    save (record ps { highest_accepted_ballot = insert index ballot ps.highest_accepted_ballot })

abbrev pub get_npromised : PersistentState → BallotNumber
get_npromised ps = ps.npromised

abbrev pub get_log : PersistentState → List LogEntry
get_log ps = ps.log

unfoldable pub get_log_entry : PersistentState → ℤ → Option LogEntry
get_log_entry ps index = if in_log index ps.log then get_elem? ps.log (pos_part index) else none

abbrev pub get_log_length : PersistentState → ℕ
get_log_length ps = length ps.log

abbrev pub get_highest_accepted_ballot : PersistentState → ℤ → Option BallotNumber
get_highest_accepted_ballot ps index = lookup index ps.highest_accepted_ballot

abbrev keep_accepted : Option BallotNumber → LogEntry → List LogEntry → List LogEntry
keep_accepted none entry rest = rest
keep_accepted (some b) entry rest = entry ∷ rest

-- The entries of a log from position i on whose position has an accepted ballot.
unfoldable pub accepted_from : ℕ → List LogEntry → Map ℤ BallotNumber → List LogEntry
accepted_from i [] accepted = []
accepted_from i (entry ∷ log) accepted =
    keep_accepted (lookup (pos i) accepted) entry (accepted_from (suc i) log accepted)

unfoldable pub get_all_accepted_entries : PersistentState → List LogEntry
unfolding accepted_from
get_all_accepted_entries ps = accepted_from 0 ps.log ps.highest_accepted_ballot

-- What `os.ReadFile` finds.
pub data ReadOutcome : Type 0 where
  not_exist unreadable : ReadOutcome
  content : PersistentData → ReadOutcome

-- What a start of the process finds in the data directory.
abbrev pub read_file : Option PersistentData → ReadOutcome
read_file none = not_exist
read_file (some d) = content d

restore : PersistentState → ReadOutcome → Outcome IoError PersistentState
restore ps not_exist = ok ps
restore ps unreadable = err read_error
restore ps (content d) = ok (record ps {
  log = d.log;
  npromised = d.npromised;
  highest_accepted_ballot = d.highest_accepted_ballot;
  file = some d;
})

-- `NewPersistentState`, with how `os.MkdirAll` ends and what `load` reads.
unfoldable pub new_persistent_state :
    ℤ → Bool → ReadOutcome → List SaveOutcome → Outcome IoError PersistentState
unfolding restore
new_persistent_state server_id false read saves = err mkdir_error
new_persistent_state server_id true read saves =
    restore
      (record {
        log = [];
        npromised = new_ballot_number (pos 0) server_id;
        highest_accepted_ballot = [];
        file = none;
        saves = saves;
      })
      read
