-- ===== src/Paxos/State.antt =====
-- The state of a Paxos server and its construction
-- (`PaxosServer`, `NewPaxosServer` of multipaxos_kvstore/server/paxos_server.go).
use go_distributed_system_de.Base.{
  ℤ, pos, negsuc, pos_part, neg_part, sub_ℕ, ◌+◌, ◌*◌, ◌/◌, ℕ, String, Bool, false, List, [], Map,
  length, if◌then◌else◌, Outcome, ok, err, panic, Exec,
}
use go_distributed_system_de.Types.Ballot.{new_ballot_number}
use go_distributed_system_de.Types.KvStore.{KvStore, new_kv_store}
use go_distributed_system_de.Types.Role.{ServerState, follower, leader}
use go_distributed_system_de.Persistence.{PersistentState, IoError, Persist}

-- Times are in nanoseconds. `heartbeat_ch` is the number of values that wait in the buffered
-- channel, `stop_ch` says that the channel is closed, and a peer's client is the address that it is connected to.
pub record PaxosServer : Type 0 where
  pub server_id : ℤ
  pub peers : List String
  pub state : ServerState
  pub ps : PersistentState
  pub current_leader : ℤ
  pub commit_index : ℤ
  pub last_applied : ℤ
  pub kv_store : KvStore
  pub next_index : Map ℤ ℤ
  pub match_index : Map ℤ ℤ
  pub election_timeout : ℤ
  pub heartbeat_timeout : ℕ
  pub last_heartbeat : ℕ
  pub heartbeat_ch : ℕ
  pub stop_ch : Bool
  pub peer_clients : Map ℤ String

-- What a method returns as its `error`; the constructors that carry an error wrap it.
pub data Error : Type 0 where
  failed_npromised failed_log_entry failed_accepted_ballot failed_append : IoError → Error
  failed_state : IoError → Error
  not_the_leader key_not_found simulated_rejection : Error
  no_majority : ℕ → ℕ → Error

abbrev pub Serve : Type 0 → Type 0
Serve A = Exec PaxosServer Error A

abbrev wrapped : {A : Type 0} → (IoError → Error) → Outcome IoError A → Outcome Error A
wrapped wrap (ok a) = ok a
wrapped wrap (err e) = err (wrap e)
wrapped wrap panic = panic

-- A call of the persistent state, whose error is wrapped.
abbrev pub on_ps : {A : Type 0} → (IoError → Error) → Persist A → Serve A
on_ps wrap m s = let (r, ps) = m s.ps in (wrapped wrap r, record s { ps = ps })

abbrev pub milliseconds : ℕ → ℕ
milliseconds n = n * 1_000_000

-- len(peers)/2 + 1
abbrev pub majority : PaxosServer → ℕ
majority s = length s.peers / 2 + 1

as_leader : PaxosServer → PaxosServer
as_leader s = record s {
  state = leader;
  current_leader = s.server_id;
  ps = record s.ps { npromised = new_ballot_number (pos 1) s.server_id };
}

-- A server around a persistent state that was loaded at time `now`.
abbrev pub make_server : ℤ → List String → PersistentState → ℕ → PaxosServer
make_server id peers ps now = record {
  server_id = id;
  peers = peers;
  state = follower;
  ps = ps;
  current_leader = negsuc 0;
  commit_index = negsuc 0;
  last_applied = negsuc 0;
  kv_store = new_kv_store;
  next_index = [];
  match_index = [];
  election_timeout =
      sub_ℕ (milliseconds (150 + pos_part id * 50)) (milliseconds (neg_part id * 50));
  heartbeat_timeout = milliseconds 500;
  last_heartbeat = now;
  heartbeat_ch = 0;
  stop_ch = false;
  peer_clients = [];
}

-- `NewPaxosServer`, given how `NewPersistentState` ended.
unfoldable pub new_paxos_server :
    ℤ → List String → Outcome IoError PersistentState → Bool → ℕ → Outcome Error PaxosServer
unfolding as_leader
new_paxos_server id peers (ok ps) leader_role now =
    ok
      (if leader_role then as_leader (make_server id peers ps now) else make_server id peers ps now)
new_paxos_server id peers (err e) leader_role now = err (failed_state e)
new_paxos_server id peers panic leader_role now = panic
