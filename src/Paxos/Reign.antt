-- ===== src/Paxos/Reign.antt =====
-- One leader and its followers (multipaxos_kvstore/server/paxos_server.go): what happens between two
-- elections that are won. The messages are those of `proposeEntry` and `sendHeartbeats`; they may be
-- lost, repeated and delayed, but reach a follower in the order of the log.
pub mod Copies
pub mod Moves
pub mod Commits
pub mod Lockstep
pub mod Agreement
pub mod Filled
pub mod Gap
use go_distributed_system_de.Base.{
  ℤ, pos, ◌+◌, ◌^◌, ◌≤◌, ◌<◌, ℕ, ◌==◌, String, List, length, get_elem?, some, ◌≡◌, if◌then◌else◌,
}
use go_distributed_system_de.Types.Ballot.{BallotNumber}
use go_distributed_system_de.Types.Entry.{LogEntry, OperationType, new_log_entry}
use go_distributed_system_de.Paxos.State.{PaxosServer}
use go_distributed_system_de.Paxos.Acceptor.{handle_prepare, handle_accept}
use go_distributed_system_de.Paxos.Learner.{apply_committed_entries}
use go_distributed_system_de.Paxos.Learner.Replay.{last_index}
use go_distributed_system_de.Paxos.Replication.{begin_proposal, finish_proposal}
use go_distributed_system_de.Paxos.Heartbeat.{handle_heartbeat, finish_heartbeats}

pub record Reign : Type 0 where
  pub leader : PaxosServer
  pub followers : ℕ → PaxosServer

abbrev pub change : ℕ → PaxosServer → Reign → Reign
change i s g = record g { followers = λ j. if j == i then s else g.followers j }

-- The entry of a request that reads the length of the log and proposes at once.
abbrev pub next_entry : OperationType → String → String → PaxosServer → LogEntry
next_entry op key value s = new_log_entry (pos (length s.ps.log)) s.ps.npromised op key value

pub data Step (g : Reign) : Reign → Type 0 where
  proposes :
      (op : OperationType) (key value : String)
      → length g.leader.ps.log < 2 ^ 63
      → Step g
          (record g { leader = (begin_proposal (next_entry op key value g.leader) g.leader).1 })
  -- A proposal of an entry of the log ends with any number of acceptances.
  finishes :
      (k count : ℕ)
      → k < length g.leader.ps.log
      → Step g (record g { leader = (finish_proposal (pos k) count g.leader).1 })
  -- An Accept of the entry at `k`, which is not past the end of the follower's log.
  accepts :
      (i k : ℕ) (ballot : BallotNumber) (entry : LogEntry) (now : ℕ)
      → get_elem? g.leader.ps.log k ≡ some entry
      → entry.index ≡ pos k
      → k ≤ length (g.followers i).ps.log
      → Step g (change i (handle_accept ballot entry now (g.followers i)).1 g)
  -- A heartbeat with a commit index that the leader had, all of it in the follower's log.
  hears :
      (i n m : ℕ) (ballot : BallotNumber) (now : ℕ)
      → g.leader.commit_index ≡ last_index m
      → n ≤ m
      → n ≤ length (g.followers i).ps.log
      → Step g (change i (handle_heartbeat ballot (last_index n) now (g.followers i)).1 g)
  -- A Prepare of any candidate.
  leader_prepares :
      (ballot : BallotNumber) (now : ℕ)
      → Step g (record g { leader = (handle_prepare ballot now g.leader).1 })
  prepares :
      (i : ℕ) (ballot : BallotNumber) (now : ℕ)
      → Step g (change i (handle_prepare ballot now (g.followers i)).1 g)
  counts_heartbeats :
      (successes : ℕ) → Step g (record g { leader = finish_heartbeats successes g.leader })
  leader_applies : Step g (record g { leader = apply_committed_entries g.leader })
  applies : (i : ℕ) → Step g (change i (apply_committed_entries (g.followers i)) g)

-- Any number of steps, the last one last.
pub data Steps (g : Reign) : Reign → Type 0 where
  none_yet : Steps g g
  then_one : {h k : Reign} → Steps g h → Step h k → Steps g k
