-- ===== src/Views.antt =====
-- The view service: who is primary and who is backup (view/viewservice/server.go).
-- Times are in nanoseconds. `range` over Go's map visits the servers in an order of its own choice:
-- each loop that stops early takes that order, a list of names, as an argument.
pub mod Numbers
pub mod Roles
pub mod Acks
pub mod Joins
pub mod Takeover
pub mod Ticker
pub mod Tests
use Prim.Native.Nat.{◌+◌, ◌-◌, ◌%◌, ◌^◌, ◌*◌}
use go_distributed_system_de.Base.{
  ℕ, ltb, ◌==◌, String, Bool, true, false, not, ◌&&◌, ◌||◌, List, [], ◌∷◌, ◌++◌, Option, none, some,
  Map, lookup, insert, string_eq, str_eq, if◌then◌else◌,
}

pub record View : Type 0 where
  pub view_number : ℕ
  pub primary : String
  pub backup : String

-- The pointer to the one View object, which the ticker changes in place.
pub data ViewRef : Type 0 where
  current_ref : ViewRef

pub record ServerInfo : Type 0 where
  pub name : String
  pub last_ping_time : ℕ
  pub alive : Bool

pub record ViewServer : Type 0 where
  pub current_view : View
  pub open current_view use *
  pub servers : Map String ServerInfo
  pub idle_servers : List String
  pub primary_acked : Bool
  pub dead : Bool

abbrev pub dead_interval : ℕ
dead_interval = 1500 * 1_000_000

-- The state that `StartServer` makes.
abbrev pub start_server : ViewServer
start_server = record {
  current_view = record { view_number = 0; primary = ""; backup = "" };
  servers = [];
  idle_servers = [];
  primary_acked = true;
  dead = false;
}

-- `ViewNumber++` on a uint64.
abbrev pub next_number : ℕ → ℕ
next_number n = (n + 1) % 2 ^ 64

-- The first part of Ping: the server is alive now, and a new one is idle if it has no role.
note_ping : Option ServerInfo → String → ℕ → ViewServer → ViewServer
note_ping (some info) name now vs = record vs {
  servers = insert name (record info { last_ping_time = now; alive = true }) vs.servers;
}
note_ping none name now vs = record vs {
  servers = insert name (record { name = name; last_ping_time = now; alive = true }) vs.servers;
  idle_servers =
      if not (str_eq name vs.primary) && not (str_eq name vs.backup)
      then vs.idle_servers ++ name ∷ []
      else vs.idle_servers;
}

-- The second part: the primary acknowledges the view that it names.
note_ack : String → ℕ → ViewServer → ViewServer
note_ack name number vs =
    if str_eq name vs.primary && number == vs.view_number
    then record vs { primary_acked = true }
    else vs

-- Ping and GetView answer with the pointer itself.
unfoldable pub ping : String → ℕ → ℕ → ViewServer → ViewRef × ViewServer
unfolding note_ping note_ack
ping name number now vs =
    (current_ref, note_ack name number (note_ping (lookup name vs.servers) name now vs))

abbrev pub get_view : ViewServer → ViewRef
get_view vs = current_ref

-- The answer as it is written out once the mutex has been given up: each field is what the object
-- holds at the moment when that field is read, so each has a state of the service of its own.
abbrev pub marshal : ViewRef → ViewServer → ViewServer → ViewServer → View
marshal ref at_number at_primary at_backup = record {
  view_number = at_number.view_number;
  primary = at_primary.primary;
  backup = at_backup.backup;
}

-- now.Sub(server.LastPingTime) > DeadInterval
mark : ℕ → ServerInfo → ServerInfo
mark now info =
    if ltb dead_interval (now - info.last_ping_time) then record info { alive = false } else info

mark_all : ℕ → Map String ServerInfo → Map String ServerInfo
unfolding mark
mark_all now [] = []
mark_all now ((name, info) ∷ servers) = (name, mark now info) ∷ mark_all now servers

pub mark_dead : ℕ → ViewServer → ViewServer
unfolding mark_all
mark_dead now vs = record vs { servers = mark_all now vs.servers }

-- Whether a server is known and alive; known and dead.
abbrev info_alive : Option ServerInfo → Bool
info_alive none = false
info_alive (some info) = info.alive

abbrev info_dead : Option ServerInfo → Bool
info_dead none = false
info_dead (some info) = not info.alive

unfoldable pub is_alive : String → ViewServer → Bool
is_alive name vs = info_alive (lookup name vs.servers)

unfoldable pub is_dead : String → ViewServer → Bool
is_dead name vs = info_dead (lookup name vs.servers)

abbrev pub is_empty : String → Bool
is_empty s = str_eq s ""

-- "Check if primary is dead"
primary_stage : ViewServer → ViewServer
primary_stage vs =
    if not (is_empty vs.primary) && is_dead vs.primary vs
    then (if vs.primary_acked && not (is_empty vs.backup)
        then (if is_alive vs.backup vs
            then record vs {
              current_view = record {
                view_number = next_number vs.view_number;
                primary = vs.backup;
                backup = "";
              };
              primary_acked = false;
            }
            else vs)
        else if vs.primary_acked
        then record vs {
          current_view = record {
            view_number = next_number vs.view_number;
            primary = "";
            backup = vs.backup;
          };
          primary_acked = true;
        }
        else vs)
    else vs

-- "Check if backup is dead"
backup_stage : ViewServer → ViewServer
backup_stage vs =
    if not (is_empty vs.backup) && is_dead vs.backup vs
    then record vs {
      current_view = record {
        view_number = next_number vs.view_number;
        primary = vs.primary;
        backup = "";
      };
    }
    else vs

remove_name : String → List String → List String
remove_name name [] = []
remove_name name (x ∷ xs) =
    let rest = remove_name name xs in if str_eq x name then rest else x ∷ rest

unfoldable pub remove_from_idle : String → ViewServer → ViewServer
unfolding remove_name
remove_from_idle name vs = record vs { idle_servers = remove_name name vs.idle_servers }

-- The first server, in the order of the visit, that is alive and is not the other one.
pub pick : List String → String → ViewServer → Option String
pick [] taken vs = none
pick (name ∷ order) taken vs = elim (is_alive name vs && not (str_eq name taken)) [
  | true ↦ some name
  | false ↦ pick order taken vs
]

make_primary : Option String → ViewServer → ViewServer
make_primary none vs = vs
make_primary (some name) vs = remove_from_idle name (record vs {
  current_view = record {
    view_number = next_number vs.view_number;
    primary = name;
    backup = vs.backup;
  };
  primary_acked = false;
})

-- "Assign new primary if none exists"
assign_primary : List String → ViewServer → ViewServer
unfolding pick make_primary
assign_primary order vs =
    if is_empty vs.primary && vs.primary_acked
    then make_primary (pick order vs.backup vs) vs
    else vs

make_backup : Option String → ViewServer → ViewServer
make_backup none vs = vs
make_backup (some name) vs = remove_from_idle name (record vs {
  current_view = record {
    view_number = next_number vs.view_number;
    primary = vs.primary;
    backup = name;
  };
})

-- "Assign new backup if none exists and we have a primary"
assign_backup : List String → ViewServer → ViewServer
unfolding pick make_backup
assign_backup order vs =
    if is_empty vs.backup && not (is_empty vs.primary) && vs.primary_acked
    then make_backup (pick order vs.primary vs) vs
    else vs

-- One tick, with the orders in which the two loops visit the servers.
pub check_failures_and_promote : ℕ → List String → List String → ViewServer → ViewServer
check_failures_and_promote now order order' vs =
    assign_backup order' (assign_primary order (backup_stage (primary_stage (mark_dead now vs))))

-- `Kill`
unfoldable pub kill : ViewServer → ViewServer
kill vs = record vs { dead = true }
