-- ===== src/Paxos/Heartbeat/Leadership.antt =====
-- What heartbeats do to both ends (`HandleHeartbeat`, `sendHeartbeats`, `electionLoop` of
-- multipaxos_kvstore/server/paxos_server.go).
use Prim.Native.Nat.{◌*◌, ◌-◌}
use go_distributed_system_de.Base.{
  ◌⊎◌, inl, inr, ltb_ℤ, suc, none, some, get_elem?, ℤ, pos, negsuc, leb_ℤ, ◌≤ℤ◌, ◌<◌, ◌≤◌, ◌+◌, ℕ,
  Bool, true, false, List, [], ◌∷◌, length, ◌≡◌, ◌≢◌, ◌↔◌, refl, arith, Bool-cases, inl, inr, ap,
}
use go_distributed_system_de.Types.Ballot.{BallotNumber, compare}
use go_distributed_system_de.Types.Ballot.Order.{Below, AtLeast, AtLeast-iff, not_at_least}
use go_distributed_system_de.Types.Role.{follower, leader}
use go_distributed_system_de.Paxos.State.{PaxosServer, majority}
use go_distributed_system_de.Paxos.Replication.{step_down}
use go_distributed_system_de.Paxos.Replication.Commit.{commit_rest}
use go_distributed_system_de.Paxos.Heartbeat.{
  heard, handle_heartbeat, HeartbeatReply, no_client, rpc_failed, replied, count_heartbeats,
  begin_heartbeats, finish_heartbeats, send_heartbeats, on_tick, elect, send_beats, beat,
  start_transfers, transfer_if_behind, is_behind, left_by, length_in, peer_at, address_of,
}
use go_distributed_system_de.Paxos.Transfer.{missing_entries}
use go_distributed_system_de.Paxos.Transfer.Mutex.{initiate_state_transfer-ends}

-- A heartbeat that is taken: the server follows the ballot's server, and its commit index is the
-- larger of its own and the leader's.
pub record Followed (s : PaxosServer) (ballot : BallotNumber) (index : ℤ) (now : ℕ)
    (s' : PaxosServer) : Type 0 where
  pub allowed : AtLeast ballot s.ps.npromised
  pub state : s'.state ≡ follower
  pub current_leader : s'.current_leader ≡ ballot.server_id
  pub last_heartbeat : s'.last_heartbeat ≡ now
  pub own_index : s.commit_index ≤ℤ s'.commit_index
  pub leader_index : index ≤ℤ s'.commit_index
  pub ps : s'.ps ≡ s.ps

pub record Ignored (s : PaxosServer) (ballot : BallotNumber) (s' : PaxosServer) : Type 0 where
  pub below : Below ballot s.ps.npromised
  pub same : s' ≡ s

abbrev pub HeartbeatOutcome : PaxosServer → BallotNumber → ℤ → ℕ → (Bool × ℕ) × PaxosServer → Type 0
HeartbeatOutcome s ballot index now ((true, n), s') =
    Followed s ballot index now s' × (n ≡ length s.ps.log)
HeartbeatOutcome s ballot index now ((false, n), s') = Ignored s ballot s' × (n ≡ length s.ps.log)

-- HandleHeartbeat takes a heartbeat exactly if its ballot is not below the promise, and then
-- follows its sender, with a commit index that is at least the old one and at least the sender's,
-- and the persistent state as it was. Any other heartbeat changes nothing. Either reply carries the
-- length of the log.
pub handle_heartbeat_lem :
    (s : PaxosServer) (ballot : BallotNumber) (index : ℤ) (now : ℕ)
    → HeartbeatOutcome s ballot index now (handle_heartbeat ballot index now s)
unfolding handle_heartbeat heard
handle_heartbeat_lem s ballot index now =
    elim (Bool-cases (leb_ℤ (pos 0) (compare ballot s.ps.npromised))) [
      | inl e ↦
          rw (e, commit_rest index (heard ballot now s))
            (
              record {
                allowed = (AtLeast-iff ballot s.ps.npromised).0 e;
                state = refl;
                current_leader = refl;
                last_heartbeat = refl;
                own_index = ground arith;
                leader_index = ground arith;
                ps = refl;
              },
              refl,
            )
      | inr e ↦ rw e (record { below = not_at_least ballot s.ps.npromised e; same = refl }, refl)
    ]

-- How many replies are successes.
abbrev pub successes : List HeartbeatReply → ℕ
successes [] = 0
successes (replied true n ∷ replies) = successes replies + 1
successes (reply ∷ replies) = successes replies

count-successes : (replies : List HeartbeatReply) → count_heartbeats replies ≡ successes replies + 1
unfolding count_heartbeats
count-successes [] = refl
count-successes (replied true n ∷ replies) = omega (arith, count-successes replies)
count-successes (replied false n ∷ replies) = count-successes replies
count-successes (no_client ∷ replies) = count-successes replies
count-successes (rpc_failed ∷ replies) = count-successes replies

-- A reply among these is a success of a peer that lacks an entry of the leader's log.
pub SomeLacks : ℕ → List HeartbeatReply → PaxosServer → Type 0
SomeLacks leader_length [] s = ⊥
SomeLacks leader_length (replied true n ∷ replies) s =
    ((ltb_ℤ n (pos leader_length) ≡ true) × (missing_entries n leader_length s.ps ≢ []))
    ⊎ SomeLacks leader_length replies s
SomeLacks leader_length (reply ∷ replies) s = SomeLacks leader_length replies s

-- The transfer that a successful reply may start blocks, or changes nothing.
transfer_if_behind-ends :
    (leader_length k : ℕ) (n : ℤ) (s : PaxosServer)
    → let r = transfer_if_behind leader_length k (replied true n) s in
      (((ltb_ℤ n (pos leader_length) ≡ true) × (missing_entries n leader_length s.ps ≢ []))
        × (r ≡ none))
      ⊎ (r ≡ some s)
unfolding transfer_if_behind is_behind left_by length_in
transfer_if_behind-ends leader_length k n s = elim (Bool-cases (ltb_ℤ n (pos leader_length))) [
  | inr e ↦ inr (rw e refl)
  | inl e ↦
      elim (initiate_state_transfer-ends (pos (peer_at s k))
        (address_of (get_elem? s.peers (peer_at s k))) true n leader_length s) [
          | inl (l, q) ↦ inl ((e, l), rw e (ap left_by q))
          | inr (l, q) ↦ inr (rw e (ap left_by q))
        ]
]

start_transfers-ends :
    (leader_length k : ℕ) (replies : List HeartbeatReply) (s : PaxosServer)
    → let r = start_transfers leader_length k replies s in
      (SomeLacks leader_length replies s × (r ≡ none)) ⊎ (r ≡ some s)
unfolding start_transfers transfer_if_behind is_behind SomeLacks
start_transfers-ends leader_length k [] s = inr refl
start_transfers-ends leader_length k (no_client ∷ replies) s =
    start_transfers-ends leader_length (suc k) replies s
start_transfers-ends leader_length k (rpc_failed ∷ replies) s =
    start_transfers-ends leader_length (suc k) replies s
start_transfers-ends leader_length k (replied false n ∷ replies) s =
    start_transfers-ends leader_length (suc k) replies s
start_transfers-ends leader_length k (replied true n ∷ replies) s =
    elim (transfer_if_behind-ends leader_length k n s) [
      | inl (l, q) ↦ inl (inl l, rw (q, start_transfers) refl)
      | inr q ↦ elim (start_transfers-ends leader_length (suc k) replies s) [
        | inl (l, r) ↦ inl (inr l, rw (q, start_transfers) r)
        | inr r ↦ inr (rw (q, start_transfers) r)
      ]
    ]

-- A round of heartbeats leaves a server that does not lead unchanged. On a leader it never returns
-- only if a peer that answered with success lacks an entry that the leader has; otherwise it leaves the
-- leader unchanged if it and the peers that answered with success are a majority, and makes it a
-- follower that knows no leader if not.
pub send_heartbeats_lem :
    (s : PaxosServer) (replies : List HeartbeatReply)
    → let s' = send_heartbeats replies s in
      ((s.state ≢ leader) × (s' ≡ some s))
      ⊎ ((s.state ≡ leader) × SomeLacks (length s.ps.log) replies s × (s' ≡ none))
      ⊎ ((s.state ≡ leader) × (majority s ≤ successes replies + 1) × (s' ≡ some s))
      ⊎ ((s.state ≡ leader)
          × (successes replies + 1 < majority s)
          × (s' ≡ some (record s { state = follower; current_leader = negsuc 0 })))
unfolding send_heartbeats beat begin_heartbeats finish_heartbeats step_down
send_heartbeats_lem s replies = elim (start_transfers-ends (length s.ps.log) 0 replies s) [
  | inl (l, q) ↦ ground (arith, q, l)
  | inr q ↦ ground (arith, q, count-successes replies)
]

-- At a tick the election loop starts an election exactly on a follower whose last heartbeat is more
-- than three heartbeat periods ago, and sends heartbeats exactly on a leader.
pub on_tick_lem :
    (now : ℕ) (s : PaxosServer)
    → ((on_tick now s ≡ elect)
        ↔ ((s.state ≡ follower) × (s.heartbeat_timeout * 3 < now - s.last_heartbeat)))
      × ((on_tick now s ≡ send_beats) ↔ (s.state ≡ leader))
unfolding on_tick
on_tick_lem now s = ((λ h. ground arith, λ h. ground arith), (λ h. ground arith, λ h. ground arith))
