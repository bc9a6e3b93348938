-- ===== src/Paxos/Transfer.antt =====
-- Sending and taking in missing log entries (`initiateStateTransfer`, `getPeerClient`,
-- `HandleStateTransfer` of multipaxos_kvstore/server/paxos_server.go).
pub mod Receiver
pub mod Mutex
use Prim.Native.Nat.{◌+◌, ◌-◌}
use go_distributed_system_de.Base.{
  ℤ, pos, pos_part, neg_part, leb_ℤ, ◌+ℤ◌, ◌==◌, ℕ, suc, zero, String, Bool, true, false, List, [],
  ◌∷◌, Option, none, some, lookup, insert, int_eq, if◌then◌else◌, Outcome, ok, err, Exec, ◌>>=◌,
  ◌>>◌, pure, continue,
}
use go_distributed_system_de.Types.Ballot.{BallotNumber, compare}
use go_distributed_system_de.Types.Entry.{LogEntry}
use go_distributed_system_de.Persistence.{
  PersistentState, get_log_entry, update_log, set_highest_accepted_ballot,
}
use go_distributed_system_de.Paxos.State.{
  PaxosServer, Serve, on_ps, failed_log_entry, failed_accepted_ballot,
}

-- exists && existing.BallotNum.Compare(entry.BallotNum) >= 0
abbrev pub up_to_date : LogEntry → Option LogEntry → Bool
up_to_date entry none = false
up_to_date entry (some existing) = leb_ℤ (pos 0) (compare existing.ballot_num entry.ballot_num)

unfoldable pub store_transferred : ℤ → LogEntry → Serve (Unit {0})
store_transferred index entry = do
  on_ps failed_log_entry (update_log index entry)
  on_ps failed_accepted_ballot (set_highest_accepted_ballot index entry.ballot_num)

-- One turn of the loop.
unfoldable pub receive_at : ℤ → LogEntry → Serve (Unit {0})
unfolding store_transferred
receive_at index entry s =
    if up_to_date entry (get_log_entry s.ps index)
    then (ok tt, s)
    else store_transferred index entry s

unfoldable pub handle_state_transfer : List LogEntry → Serve Bool
unfolding receive_at
handle_state_transfer [] = pure true
handle_state_transfer (entry ∷ entries) = do
  receive_at entry.index entry
  handle_state_transfer entries

abbrev add_found : Option LogEntry → List LogEntry → List LogEntry
add_found none rest = rest
add_found (some entry) rest = entry ∷ rest

-- The entries that exist at `count` indices from `i` on.
unfoldable pub gather : ℕ → ℤ → PersistentState → List LogEntry
gather zero i ps = []
gather (suc count) i ps = add_found (get_log_entry ps i) (gather count (i +ℤ pos 1) ps)

-- From the peer's length up to the leader's.
unfoldable pub missing_entries : ℤ → ℕ → PersistentState → List LogEntry
unfolding gather
missing_entries peer_length leader_length ps =
    gather (leader_length + neg_part peer_length - pos_part peer_length) peer_length ps

-- Go's `sync.RWMutex`; `none` is a call that blocks, for as long as the others hold what they hold.
pub record RwMutex : Type 0 where
  pub readers : ℕ
  pub writer : Bool

abbrev pub unlocked : RwMutex
unlocked = record { readers = 0; writer = false }

unfoldable pub r_lock : RwMutex → Option RwMutex
r_lock m = if m.writer then none else some (record m { readers = m.readers + 1 })

unfoldable pub lock : RwMutex → Option RwMutex
lock m =
    if m.writer then none else if m.readers == 0 then some (record m { writer = true }) else none

-- `NewPaxosClient`: a dial that fails gives none.
connect : ℤ → String → Bool → Option String → PaxosServer → Option String × PaxosServer
connect peer addr dialled (some client) s = (some client, s)
connect peer addr true none s =
    (some addr, record s { peer_clients = insert peer addr s.peer_clients })
connect peer addr false none s = (none, s)

-- `getPeerClient`, which takes the mutex for writing.
unfoldable pub get_peer_client :
    RwMutex → ℤ → String → Bool → PaxosServer → Option (Option String × PaxosServer)
unfolding connect
get_peer_client m peer addr dialled s = elim (lock m) [
  | none ↦ none
  | some held ↦ some (connect peer addr dialled (lookup peer s.peer_clients) s)
]

pub data TransferResult : Type 0 where
  nothing_missing no_client : TransferResult
  sent : String → List LogEntry → TransferResult

sent_to : List LogEntry → Option String → TransferResult
sent_to missing none = no_client
sent_to missing (some client) = sent client missing

transfer_to :
    RwMutex
    → ℤ
    → String
    → Bool
    → List LogEntry
    → PaxosServer
    → Option (TransferResult × PaxosServer)
transfer_to m peer addr dialled [] s = some (nothing_missing, s)
transfer_to m peer addr dialled (entry ∷ missing) s = elim (get_peer_client m peer addr dialled s) [
  | none ↦ none
  | some (client, s') ↦ some (sent_to (entry ∷ missing) client, s')
]

-- `initiateStateTransfer`, which holds the mutex for reading from beginning to end. It is called only for
-- a peer that is behind, so that the capacity it asks `make` for is not negative.
unfoldable pub initiate_state_transfer :
    RwMutex → ℤ → String → Bool → ℤ → ℕ → PaxosServer → Option (TransferResult × PaxosServer)
unfolding transfer_to sent_to
initiate_state_transfer m peer addr dialled peer_length leader_length s = elim (r_lock m) [
  | none ↦ none
  | some held ↦
      transfer_to held peer addr dialled (missing_entries peer_length leader_length s.ps) s
]
