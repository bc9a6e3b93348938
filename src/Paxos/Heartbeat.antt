-- ===== src/Paxos/Heartbeat.antt =====
-- Heartbeats and the two event loops (`HandleHeartbeat`, `sendHeartbeats`, `electionLoop` of
-- multipaxos_kvstore/server/paxos_server.go).
pub mod Leadership
use Prim.Native.Nat.{◌+◌, ◌*◌, ◌-◌}
use go_distributed_system_de.Base.{
  ℤ, pos, leb, ltb, leb_ℤ, ltb_ℤ, ℕ, Bool, true, false, ◌&&◌, List, [], ◌∷◌, Option, none, some,
  if◌then◌else◌, suc, String, get_elem?,
}
use go_distributed_system_de.Types.Ballot.{BallotNumber, compare}
use go_distributed_system_de.Types.Role.{follower, is_leader, is_follower}
use go_distributed_system_de.Persistence.{get_npromised, get_log_length}
use go_distributed_system_de.Paxos.State.{PaxosServer, majority}
use go_distributed_system_de.Paxos.Replication.{commit, step_down}
use go_distributed_system_de.Paxos.Transfer.{TransferResult, unlocked, initiate_state_transfer}

-- The capacity of `heartbeatCh`; a value that does not fit is dropped.
abbrev heartbeat_capacity : ℕ
heartbeat_capacity = 10

signal : ℕ → ℕ
signal n = if ltb n heartbeat_capacity then n + 1 else n

unfoldable pub heard : BallotNumber → ℕ → PaxosServer → PaxosServer
unfolding signal
heard ballot now s = record s {
  state = follower;
  current_leader = ballot.server_id;
  last_heartbeat = now;
  heartbeat_ch = signal s.heartbeat_ch;
}

-- The reply carries the length of the log.
unfoldable pub handle_heartbeat : BallotNumber → ℤ → ℕ → PaxosServer → (Bool × ℕ) × PaxosServer
unfolding heard
handle_heartbeat ballot commit_index now s =
    if leb_ℤ (pos 0) (compare ballot (get_npromised s.ps))
    then ((true, get_log_length s.ps), commit commit_index (heard ballot now s))
    else ((false, get_log_length s.ps), s)

-- How a peer answers a heartbeat.
pub data HeartbeatReply : Type 0 where
  no_client rpc_failed : HeartbeatReply
  replied : Bool → ℤ → HeartbeatReply

-- What `sendHeartbeats` sends; nothing, if the server is no leader.
unfoldable pub begin_heartbeats : PaxosServer → Option (BallotNumber × ℤ × ℕ)
begin_heartbeats s =
    if is_leader s.state
    then some (get_npromised s.ps, s.commit_index, get_log_length s.ps)
    else none

unfoldable pub count_heartbeats : List HeartbeatReply → ℕ
count_heartbeats [] = 1
count_heartbeats (replied true length ∷ replies) = count_heartbeats replies + 1
count_heartbeats (reply ∷ replies) = count_heartbeats replies

-- The peers, by their place among the replies, to which a state transfer is started.
unfoldable pub is_behind : ℕ → HeartbeatReply → Bool
is_behind leader_length (replied true length) = ltb_ℤ length (pos leader_length)
is_behind leader_length reply = false

-- After `wg.Wait()`.
unfoldable pub finish_heartbeats : ℕ → PaxosServer → PaxosServer
finish_heartbeats successes s = if ltb successes (majority s) then step_down s else s

-- The peer that the reply in place `k` is from: the server skips itself.
peer_at : PaxosServer → ℕ → ℕ
peer_at s k = if ltb_ℤ (pos k) s.server_id then k else k + 1

address_of : Option String → String
address_of none = ""
address_of (some addr) = addr

length_in : HeartbeatReply → ℤ
length_in (replied success length) = length
length_in reply = pos 0

left_by : Option (TransferResult × PaxosServer) → Option PaxosServer
left_by none = none
left_by (some (result, s)) = some s

-- "Check if peer is behind and needs state transfer"; none is a transfer that blocks. The peer's
-- client is there, since the heartbeat has just used it.
transfer_if_behind : ℕ → ℕ → HeartbeatReply → PaxosServer → Option PaxosServer
unfolding peer_at address_of length_in left_by
transfer_if_behind leader_length k reply s =
    if is_behind leader_length reply
    then left_by (
        initiate_state_transfer unlocked (pos (peer_at s k))
          (address_of (get_elem? s.peers (peer_at s k))) true (length_in reply) leader_length s)
    else some s

start_transfers : ℕ → ℕ → List HeartbeatReply → PaxosServer → Option PaxosServer
unfolding transfer_if_behind
start_transfers leader_length k [] s = some s
start_transfers leader_length k (reply ∷ replies) s =
    elim (transfer_if_behind leader_length k reply s) [
      | none ↦ none
      | some s' ↦ start_transfers leader_length (suc k) replies s'
    ]

-- The whole of `sendHeartbeats`, when nothing else runs meanwhile; none if it never returns, because
-- `wg.Wait()` waits for a transfer that blocks.
beat : Option (BallotNumber × ℤ × ℕ) → List HeartbeatReply → PaxosServer → Option PaxosServer
unfolding start_transfers
beat none replies s = some s
beat (some (ballot, commit_index, leader_length)) replies s =
    elim (start_transfers leader_length 0 replies s) [
      | none ↦ none
      | some s' ↦ some (finish_heartbeats (count_heartbeats replies) s')
    ]

unfoldable pub send_heartbeats : List HeartbeatReply → PaxosServer → Option PaxosServer
unfolding beat
send_heartbeats replies s = beat (begin_heartbeats s) replies s

-- What the election loop does at a tick: it reads the state once.
pub data TickAction : Type 0 where
  elect send_beats idle : TickAction

unfoldable pub on_tick : ℕ → PaxosServer → TickAction
on_tick now s =
    if is_follower s.state && ltb (s.heartbeat_timeout * 3) (now - s.last_heartbeat)
    then elect
    else if is_leader s.state
    then send_beats
    else idle

-- `case <-s.heartbeatCh`
unfoldable pub on_signal : ℕ → PaxosServer → PaxosServer
on_signal now s = record s { last_heartbeat = now; heartbeat_ch = s.heartbeat_ch - 1 }

-- `Stop`
unfoldable pub stop : PaxosServer → PaxosServer
stop s = record s { stop_ch = true }
