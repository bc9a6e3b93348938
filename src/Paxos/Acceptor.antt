-- ===== src/Paxos/Acceptor.antt =====
-- The acceptor (`HandlePrepare`, `HandleAccept` of multipaxos_kvstore/server/paxos_server.go).
pub mod Promises
pub mod Votes
pub mod Regress
use go_distributed_system_de.Base.{
  ℤ, pos, leb_ℤ, ℕ, Bool, true, false, List, [], if◌then◌else◌, ◌>>=◌, ◌>>◌, pure, gets, modify,
  continue,
}
use go_distributed_system_de.Types.Ballot.{BallotNumber, compare, greater_than}
use go_distributed_system_de.Types.Entry.{LogEntry}
use go_distributed_system_de.Types.Role.{follower}
use go_distributed_system_de.Persistence.{
  set_npromised, update_log, set_highest_accepted_ballot, get_npromised, get_all_accepted_entries,
}
use go_distributed_system_de.Paxos.State.{
  PaxosServer, Serve, on_ps, failed_npromised, failed_log_entry, failed_accepted_ballot,
}

-- The ballot is higher than the promise: persist it, then promise.
unfoldable pub promise : BallotNumber → ℕ → Serve (Bool × BallotNumber × List LogEntry)
promise ballot now = do
  on_ps failed_npromised (set_npromised ballot)
  accepted ← gets (λ s. get_all_accepted_entries s.ps)
  modify (λ s. record s { state = follower; last_heartbeat = now })
  pure (true, ballot, accepted)

unfoldable pub handle_prepare : BallotNumber → ℕ → Serve (Bool × BallotNumber × List LogEntry)
unfolding promise
handle_prepare ballot now s =
    if greater_than ballot (get_npromised s.ps)
    then promise ballot now s
    else pure (false, get_npromised s.ps, []) s

-- The ballot is at least the promise: persist the entry and its ballot, then accept.
unfoldable pub accept_at : ℤ → BallotNumber → LogEntry → ℕ → Serve (Bool × ℤ × BallotNumber)
accept_at index ballot entry now = do
  on_ps failed_log_entry (update_log index entry)
  on_ps failed_accepted_ballot (set_highest_accepted_ballot index ballot)
  modify (λ s. record s { last_heartbeat = now })
  pure (true, index, ballot)

unfoldable pub handle_accept : BallotNumber → LogEntry → ℕ → Serve (Bool × ℤ × BallotNumber)
unfolding accept_at
handle_accept ballot entry now s =
    if leb_ℤ (pos 0) (compare ballot (get_npromised s.ps))
    then accept_at entry.index ballot entry now s
    else pure (false, entry.index, get_npromised s.ps) s
