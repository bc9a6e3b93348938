-- ===== src/Replica.antt =====
-- The key-value server that is primary or backup of a view (kv_server_main/kvserver/server.go).
-- The mutex is released during calls of other servers, so a handler that makes one is two steps here,
-- what it does before the call and after it. An answer that the network loses is a `false` or a `none`.
pub mod Roles
pub mod Puts
pub mod Sync
pub mod Stale
pub mod Failover
pub mod Life
mod Tests
use go_distributed_system_de.Base.{
  ℕ, suc, ◌==◌, String, Bool, true, false, not, ◌&&◌, List, [], ◌∷◌, ◌++◌, Option, none, some, Map,
  lookup, insert, string_eq, str_eq, if◌then◌else◌,
}
use go_distributed_system_de.Views.{View, is_empty}

-- The strings "primary", "backup" and "default".
pub data Role : Type 0 where
  primary backup default : Role

abbrev pub is_primary : Role → Bool
is_primary primary = true
is_primary _ = false

abbrev pub is_backup : Role → Bool
is_backup backup = true
is_backup _ = false

pub record PutRequest : Type 0 where
  pub key : String
  pub value : String

-- `connected` says that `vsClient` is not nil.
pub record KvServer : Type 0 where
  pub me : String
  pub connected : Bool
  pub current_view : View
  pub data_map : Map String String
  pub role : Role
  pub last_backup : String
  pub syncing : Bool
  pub pending_queue : List PutRequest
  pub dead : Bool

abbrev pub start_server : String → KvServer
start_server name = record {
  me = name;
  connected = false;
  current_view = record { view_number = 0; primary = ""; backup = "" };
  data_map = [];
  role = default;
  last_backup = "";
  syncing = false;
  pending_queue = [];
  dead = false;
}

-- The end of `connectToViewService`, which dials until it succeeds.
abbrev pub connect_to_view_service : KvServer → KvServer
connect_to_view_service kv = record kv { connected = true }

-- The role that a view gives to a server.
unfoldable pub role_in : String → View → Role
role_in name view =
    if str_eq view.primary name
    then primary
    else if str_eq view.backup name
    then backup
    else default

-- What a new backup makes the primary do: a call of `transferState` in the background.
note_backup : KvServer → Option (String × ℕ) × KvServer
note_backup kv =
    if not (is_empty kv.current_view.backup) && not (str_eq kv.current_view.backup kv.last_backup)
    then (
      some (kv.current_view.backup, kv.current_view.view_number),
      record kv { last_backup = kv.current_view.backup },
    )
    else if is_empty kv.current_view.backup
    then (none, record kv { last_backup = "" })
    else (none, kv)

unfoldable pub handle_view_change : KvServer → Option (String × ℕ) × KvServer
unfolding note_backup
handle_view_change kv =
    let kv' = record kv { role = role_in kv.me kv.current_view } in
    if is_primary kv'.role then note_backup kv' else (none, kv')

-- The request of `ping`, when there is a connection.
abbrev pub ping_request : KvServer → Option (String × ℕ)
ping_request kv = if kv.connected then some (kv.me, kv.current_view.view_number) else none

-- `ping` from the answer on; `none` is an error of the call.
unfoldable pub ping : Option View → KvServer → Option (String × ℕ) × KvServer
ping none kv = (none, kv)
ping (some view) kv =
    let kv' = record kv { current_view = view } in
    if kv.current_view.view_number == view.view_number then (none, kv') else handle_view_change kv'

-- An answer: `Ok`, the value, and the text of the error.
pub data Response : Type 0 where
  done : String → Response
  err_not_primary err_no_key : Response

get_found : Option String → Response
get_found none = err_no_key
get_found (some value) = done value

unfoldable pub get : String → KvServer → Response
unfolding get_found
get key kv = if is_primary kv.role then get_found (lookup key kv.data_map) else err_not_primary

abbrev pub store : PutRequest → KvServer → KvServer
store req kv = record kv { data_map = insert req.key req.value kv.data_map }

-- `Put` up to the forward: an answer at once, or the name of the backup.
pub data PutStart : Type 0 where
  answered : Response → PutStart
  forward_to : String → PutStart

unfoldable pub put_start : PutRequest → KvServer → PutStart × KvServer
put_start req kv =
    if is_primary kv.role
    then (if kv.syncing
        then (answered (done ""), record kv { pending_queue = kv.pending_queue ++ req ∷ [] })
        else (forward_to kv.current_view.backup, kv))
    else (answered err_not_primary, kv)

-- `ForwardUpdate`, on the backup.
unfoldable pub forward_update : PutRequest → KvServer → Bool × KvServer
forward_update req kv = if is_backup kv.role then (true, store req kv) else (false, kv)

-- `Put` from the forward on: whether it reached the backup, and what the backup answered, are not
-- looked at.
put_finish : PutStart → PutRequest → Bool → KvServer → KvServer → Response × KvServer × KvServer
put_finish (answered r) req reached p b = (r, p, b)
put_finish (forward_to name) req reached p b =
    (done "", store req p, (if not (is_empty name) && reached then (forward_update req b).1 else b))

-- `Put` on the primary `p` whose backup is `b`.
unfoldable pub put : PutRequest → Bool → KvServer → KvServer → Response × KvServer × KvServer
unfolding put_finish
put req reached p b = let (start, p') = put_start req p in put_finish start req reached p' b

-- `for k, v := range data { copy[k] = v }`
unfoldable pub copy_data : Map String String → Map String String
copy_data [] = []
copy_data ((k, v) ∷ m) = insert k v (copy_data m)

-- `SyncState`, on the backup.
unfoldable pub sync_state : Map String String → KvServer → Bool × KvServer
sync_state data_map kv = (true, record kv { data_map = copy_data data_map })

-- `transferState`: the copy that it takes, and what it does when the call has ended well or not; the
-- puts that waited are then made one after the other.
unfoldable pub transfer_start : KvServer → Map String String × KvServer
transfer_start kv = (copy_data kv.data_map, record kv { syncing = true })

unfoldable pub transfer_end : Bool → KvServer → List PutRequest × KvServer
transfer_end false kv = ([], record kv { syncing = false })
transfer_end true kv = (kv.pending_queue, record kv { syncing = false; pending_queue = [] })

-- Puts one after the other: whether each forward reaches the backup is a function of its place.
unfoldable pub put_all : List PutRequest → (ℕ → Bool) → KvServer → KvServer → KvServer × KvServer
put_all [] reached p b = (p, b)
put_all (req ∷ reqs) reached p b =
    let (r, p', b') = put req (reached 0) p b in put_all reqs (λ n. reached (suc n)) p' b'

-- The whole of `transferState`, with the puts that come in while it waits for the backup; `synced`
-- says that the dial and the call of SyncState went well.
unfoldable pub transfer_state :
    List PutRequest → Bool → (ℕ → Bool) → KvServer → KvServer → KvServer × KvServer
transfer_state during synced reached p b =
    let (copy, p1) = transfer_start p in
    let (p2, b2) = put_all during reached p1 b in
    let b3 = if synced then (sync_state copy b2).1 else b2 in
    let (pending, p3) = transfer_end synced p2 in put_all pending reached p3 b3

-- `Kill`
abbrev pub kill : KvServer → KvServer
kill kv = record kv { dead = true }
