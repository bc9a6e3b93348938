-- ===== src/Paxos/Clients.antt =====
-- Client requests (`Put`, `Get`, `Delete`, `GetState` of multipaxos_kvstore/server/paxos_server.go).
pub mod Replies
pub mod Races
pub mod Session
use go_distributed_system_de.Base.{
  ℤ, pos, ℕ, String, Bool, true, false, List, Option, none, some, if◌then◌else◌, str_eq, Outcome,
  ok, err, panic,
}
use go_distributed_system_de.Types.Ballot.{BallotNumber}
use go_distributed_system_de.Types.Entry.{LogEntry, new_log_entry, op_put, op_delete}
use go_distributed_system_de.Types.KvStore
use go_distributed_system_de.Types.Role.{ServerState, is_leader}
use go_distributed_system_de.Persistence.{get_npromised, get_log_length}
use go_distributed_system_de.Paxos.State.{
  PaxosServer, Error, not_the_leader, key_not_found, simulated_rejection,
}
use go_distributed_system_de.Paxos.Replication.{AcceptReply, propose_entry}

-- The texts that the replies carry: `not the leader (leader: %d)`, an error's own text, the value.
pub data Message : Type 0 where
  not_the_leader_of : ℤ → Message
  rejected_value : Message
  text_of : Error → Message
  text : String → Message

-- (bool, string, error), or the end of the process.
pub data Reply : Type 0 where
  reply : Bool → Message → Option Error → Reply
  crashed : Reply

-- The part of Put and Delete under the read lock: what a leader needs for a new entry.
unfoldable pub read_position : PaxosServer → Option (BallotNumber × ℤ)
read_position s =
    if is_leader s.state then some (get_npromised s.ps, pos (get_log_length s.ps)) else none

proposed : Outcome Error (Unit {0}) × PaxosServer → Reply × PaxosServer
proposed (ok u, s) = (reply true (text "OK") none, s)
proposed (err e, s) = (reply false (text_of e) (some e), s)
proposed (panic, s) = (crashed, s)

-- The rest of Put, from what was read under the lock.
unfoldable pub put_at :
    Option (BallotNumber × ℤ)
    → String
    → String
    → List AcceptReply
    → PaxosServer
    → Reply × PaxosServer
unfolding proposed
put_at none key value replies s =
    (reply false (not_the_leader_of s.current_leader) (some not_the_leader), s)
put_at (some (ballot, index)) key value replies s =
    if str_eq value "reject"
    then (reply false rejected_value (some simulated_rejection), s)
    else proposed (propose_entry (new_log_entry index ballot op_put key value) replies s)

unfoldable pub put : String → String → List AcceptReply → PaxosServer → Reply × PaxosServer
put key value replies s = put_at (read_position s) key value replies s

unfoldable pub delete_at :
    Option (BallotNumber × ℤ) → String → List AcceptReply → PaxosServer → Reply × PaxosServer
unfolding proposed
delete_at none key replies s =
    (reply false (not_the_leader_of s.current_leader) (some not_the_leader), s)
delete_at (some (ballot, index)) key replies s =
    proposed (propose_entry (new_log_entry index ballot op_delete key "") replies s)

unfoldable pub delete : String → List AcceptReply → PaxosServer → Reply × PaxosServer
delete key replies s = delete_at (read_position s) key replies s

found : Option String → Reply
found none = reply false (text "") (some key_not_found)
found (some value) = reply true (text value) none

-- Get reads the local store, on any server.
unfoldable pub get : String → PaxosServer → Reply
unfolding found
get key s = found (KvStore.get s.kv_store key)

abbrev pub get_state : PaxosServer → ServerState × ℤ × ℤ
get_state s = (s.state, s.commit_index, s.last_applied)
