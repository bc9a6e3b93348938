-- ===== src/Paxos/Replication.antt =====
-- The proposer's phase 2 (`proposeEntry`, `proposeNoOp` of
-- multipaxos_kvstore/server/paxos_server.go).
pub mod Commit
pub mod Hazards
use Prim.Native.Nat.{◌+◌}
use go_distributed_system_de.Base.{
  ℤ, pos, negsuc, leb, ltb_ℤ, ℕ, String, Bool, true, false, List, [], ◌∷◌, length, if◌then◌else◌,
  Outcome, ok, err, panic, Exec, ◌>>=◌, ◌>>◌, pure, raise, continue,
}
use go_distributed_system_de.Types.Ballot.{BallotNumber}
use go_distributed_system_de.Types.Entry.{LogEntry, new_log_entry, op_no_op}
use go_distributed_system_de.Types.Role.{ServerState, follower, is_leader}
use go_distributed_system_de.Persistence.{append_log, get_npromised, get_log_length}
use go_distributed_system_de.Paxos.State.{
  PaxosServer, Serve, Error, on_ps, failed_append, not_the_leader, no_majority, majority,
}

-- How a peer answers an Accept.
pub data AcceptReply : Type 0 where
  no_client rpc_failed : AcceptReply
  replied : Bool → AcceptReply

-- The acceptances, with our own.
unfoldable pub count_accepts : List AcceptReply → ℕ
count_accepts [] = 1
count_accepts (replied true ∷ replies) = count_accepts replies + 1
count_accepts (reply ∷ replies) = count_accepts replies

-- The first part under the mutex: give the entry the promised ballot and append it to our own log.
-- The entry keeps the index that its caller chose.
unfoldable pub begin_proposal : LogEntry → Serve LogEntry
begin_proposal entry s =
    if is_leader s.state
    then (do
      on_ps failed_append (append_log (record entry { ballot_num = get_npromised s.ps }))
      pure (record entry { ballot_num = get_npromised s.ps }))
        s
    else raise not_the_leader s

-- if entry.Index > s.commitIndex { s.commitIndex = entry.Index }
unfoldable pub commit : ℤ → PaxosServer → PaxosServer
commit index s = if ltb_ℤ s.commit_index index then record s { commit_index = index } else s

-- `if s.state == Leader { … }` when a majority is out of reach.
unfoldable pub step_down : PaxosServer → PaxosServer
step_down s =
    if is_leader s.state then record s { state = follower; current_leader = negsuc 0 } else s

-- The second part, after `wg.Wait()`.
unfoldable pub finish_proposal : ℤ → ℕ → Serve (Unit {0})
finish_proposal index accepts s =
    if leb (majority s) accepts
    then (ok tt, commit index s)
    else (err (no_majority accepts (length s.peers)), step_down s)

-- The whole proposal, when nothing else runs meanwhile.
unfoldable pub propose_entry : LogEntry → List AcceptReply → Serve (Unit {0})
propose_entry entry replies = do
  proposed ← begin_proposal entry
  finish_proposal proposed.index (count_accepts replies)

-- The entry that `proposeNoOp` proposes under the ballot that was won.
unfoldable pub no_op_entry : BallotNumber → PaxosServer → LogEntry
no_op_entry ballot s = new_log_entry (pos (get_log_length s.ps)) ballot op_no_op "" ""

unfoldable pub propose_no_op : BallotNumber → List AcceptReply → Serve (Unit {0})
propose_no_op ballot replies s = propose_entry (no_op_entry ballot s) replies s
