-- ===== src/Programs/ServerMain.antt =====
-- The server program of the Multi-Paxos store (`main` of multipaxos_kvstore/main.go), up to the
-- point where it serves.
use Prim.Native.String.{◌++◌}
use go_distributed_system_de.Base.{
  ℕ, String, Bool, ◌||◌, Outcome, ok, err, panic, if◌then◌else◌, ℤ, pos, ltb_ℤ,
}
use go_distributed_system_de.Views.{is_empty}
use go_distributed_system_de.Text.{decimal}
use go_distributed_system_de.Persistence.{PersistentState, IoError}
use go_distributed_system_de.Paxos.State.{PaxosServer, Error, new_paxos_server}
use go_distributed_system_de.Programs.{addresses}

pub record Flags : Type 0 where
  pub id : ℤ
  pub port : ℤ
  pub role_leader : Bool
  pub peers : ℤ
  pub data_dir : String

-- What the system does with the calls: whether a directory can be made, how NewPersistentState ends in
-- a directory, `filepath.Join` with "state", whether a port can be listened on, and the clock.
pub record Machine : Type 0 where
  pub make_dir : String → Bool
  pub load : String → Outcome IoError PersistentState
  pub join_state : String → String
  pub listens : ℤ → Bool
  pub now : ℕ

-- `log.Fatal`, with what has failed, a panic, or a server.
pub data Started : Type 0 where
  bad_server_id no_data_dir no_state_dir no_listener : Started
  no_paxos_server : Error → Started
  panics : Started
  serves : PaxosServer → Started

-- *dataDir, or its default.
abbrev pub data_dir_of : Flags → String
data_dir_of f = if is_empty f.data_dir then "../data/server_" ++ decimal f.id else f.data_dir

unfoldable pub listen : Flags → Machine → Outcome Error PaxosServer → Started
listen f m (ok s) = if m.listens f.port then serves s else no_listener
listen f m (err e) = no_paxos_server e
listen f m panic = panics

unfoldable pub build : Flags → Machine → String → Started
build f m state_dir =
    if m.make_dir state_dir
    then listen f m
        (new_paxos_server f.id (addresses f.peers) (m.load state_dir) f.role_leader m.now)
    else no_state_dir

unfoldable pub server_main : Flags → Machine → Started
server_main f m =
    if ltb_ℤ f.id (pos 0) || ltb_ℤ (pos 4) f.id
    then bad_server_id
    else if m.make_dir (data_dir_of f)
    then build f m (m.join_state (data_dir_of f))
    else no_data_dir
