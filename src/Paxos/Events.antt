-- ===== src/Paxos/Events.antt =====
-- The steps that a server takes under its mutex, in any order
-- (multipaxos_kvstore/server/paxos_server.go).
pub mod Entries
pub mod Monotone
pub mod Written
pub mod Writes
pub mod Crashes
use go_distributed_system_de.Types.Ballot.Order.{AtLeast, AtLeast-refl}
use go_distributed_system_de.Base.{
  ◌≡◌, arith, ◌≤ℤ◌, List, ℤ, pos_part, neg_part, ◌^◌, ◌-◌, ℕ, ◌≤◌, ◌<◌,
}
use go_distributed_system_de.Types.Ballot.{BallotNumber}
use go_distributed_system_de.Types.Entry.{LogEntry}
use go_distributed_system_de.Paxos.State.{PaxosServer}
use go_distributed_system_de.Paxos.Acceptor.{handle_prepare, handle_accept}
use go_distributed_system_de.Paxos.Learner.{apply_committed_entries}
use go_distributed_system_de.Paxos.Election.{
  begin_election, adopt_accepted_entries, finish_election,
}
use go_distributed_system_de.Paxos.Replication.{begin_proposal, finish_proposal}
use go_distributed_system_de.Paxos.Transfer.{handle_state_transfer}
use go_distributed_system_de.Paxos.Heartbeat.{handle_heartbeat, finish_heartbeats}

-- One step. An election needs a term below the largest `int`.
pub data Step (s : PaxosServer) : PaxosServer → Type 0 where
  prepares : (ballot : BallotNumber) (now : ℕ) → Step s (handle_prepare ballot now s).1
  accepts :
      (ballot : BallotNumber) (entry : LogEntry) (now : ℕ)
      → Step s (handle_accept ballot entry now s).1
  hears :
      (ballot : BallotNumber) (index : ℤ) (now : ℕ) → Step s (handle_heartbeat ballot index now s).1
  stands :
      pos_part s.ps.npromised.term_number < 2 ^ 63 - 1
      → neg_part s.ps.npromised.term_number ≤ 2 ^ 63
      → Step s (begin_election s).1
  adopts : (entries : List LogEntry) → Step s (adopt_accepted_entries entries s).1
  receives : (entries : List LogEntry) → Step s (handle_state_transfer entries s).1
  counts_votes : (votes : ℕ) → Step s (finish_election votes s)
  proposes : (entry : LogEntry) → Step s (begin_proposal entry s).1
  counts_accepts : (index : ℤ) (accepts : ℕ) → Step s (finish_proposal index accepts s).1
  counts_heartbeats : (successes : ℕ) → Step s (finish_heartbeats successes s)
  applies : Step s (apply_committed_entries s)

-- Any number of steps, the last one last.
pub data Steps (s : PaxosServer) : PaxosServer → Type 0 where
  none_yet : Steps s s
  then_one : {t u : PaxosServer} → Steps s t → Step t u → Steps s u

-- The promise and the commit index are at least what they were.
pub record Forward (s s' : PaxosServer) : Type 0 where
  pub promised : AtLeast s'.ps.npromised s.ps.npromised
  pub index : s.commit_index ≤ℤ s'.commit_index

pub kept :
    (s s' : PaxosServer)
    → s'.ps.npromised ≡ s.ps.npromised
    → s'.commit_index ≡ s.commit_index
    → Forward s s'
kept s s' p c = record { promised = rw p (AtLeast-refl s.ps.npromised); index = rw c (omega arith) }
