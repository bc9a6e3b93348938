-- ===== src/System.antt =====
-- The view service and its key-value servers together (view/viewservice/server.go,
-- kv_server_main/kvserver/server.go): the calls of Ping between them, the ticks, and what the
-- servers do between two answers. An answer is written out some time after its Ping, from the view
-- object as it is then; it may be lost, or come late and after others. In the runs of `Reached` no
-- tick runs while an answer is written out; Torn is about one that does.
pub mod Known
pub mod Primaries
pub mod Takeover
pub mod Torn
mod Tests
use go_distributed_system_de.Base.{
  ℕ, suc, ◌==◌, String, Bool, true, false, List, [], ◌∷◌, Occurs, occurs_cases, Map, Option, some,
  if◌then◌else◌, ◌≡◌,
}
use go_distributed_system_de.Views.{View, ViewRef, ViewServer, marshal, check_failures_and_promote}
use go_distributed_system_de.Views
use go_distributed_system_de.Replica.{
  KvServer, PutRequest, connect_to_view_service, ping_request, put_start, store, forward_update,
  sync_state, transfer_start, transfer_end, kill,
}
use go_distributed_system_de.Replica

-- `pending` are the pointers that Ping has returned so far, `sent` the answers written out from them.
pub record World : Type 0 where
  pub views : ViewServer
  pub pending : List ViewRef
  pub sent : List View
  pub servers : ℕ → KvServer

-- Every process has just been started; `names` are the names of the servers.
abbrev pub start : (ℕ → String) → World
start names = record {
  views = Views.start_server;
  pending = [];
  sent = [];
  servers = λ i. Replica.start_server (names i);
}

abbrev pub change_server : ℕ → KvServer → (ℕ → KvServer) → ℕ → KvServer
change_server i kv servers j = if j == i then kv else servers j

-- What a server does between two answers of the view service.
pub data Work : Type 0 where
  connects starts_transfer is_killed : Work
  starts_put stores takes_update : PutRequest → Work
  takes_state : Map String String → Work
  ends_transfer : Bool → Work

abbrev pub do_work : Work → KvServer → KvServer
do_work connects kv = connect_to_view_service kv
do_work starts_transfer kv = (transfer_start kv).1
do_work is_killed kv = kill kv
do_work (starts_put req) kv = (put_start req kv).1
do_work (stores req) kv = store req kv
do_work (takes_update req) kv = (forward_update req kv).1
do_work (takes_state data_map) kv = (sync_state data_map kv).1
do_work (ends_transfer went_well) kv = (transfer_end went_well kv).1

-- A Ping of the server `i` reaches the view service.
abbrev pub asked : ℕ → String → ℕ → ℕ → World → World
asked i name number now w =
    let (ref, vs) = Views.ping name number now w.views in
    record w { views = vs; pending = ref ∷ w.pending }

-- An answer is written out, all its fields from the view object as it is now.
abbrev pub written_out : ViewRef → World → World
written_out ref w = record w { sent = marshal ref w.views w.views w.views ∷ w.sent }

-- The server `i` gets an answer.
abbrev pub heard : ℕ → View → World → World
heard i view w = record w {
  servers = change_server i (Replica.ping (some view) (w.servers i)).1 w.servers;
}

-- What can be reached from the start with `n` ticks.
pub data Reached (names : ℕ → String) : ℕ → World → Type 0 where
  starts : Reached names 0 (start names)
  ticks :
      {n : ℕ} {w : World} (now : ℕ) (order order' : List String)
      → Reached names n w
      → Reached names
          (suc n)
          (record w { views = check_failures_and_promote now order order' w.views })
  asks :
      {n : ℕ} {w : World} (i : ℕ) (name : String) (number now : ℕ)
      → ping_request (w.servers i) ≡ some (name, number)
      → Reached names n w
      → Reached names n (asked i name number now w)
  writes :
      {n : ℕ} {w : World} (ref : ViewRef)
      → Occurs ref w.pending
      → Reached names n w
      → Reached names n (written_out ref w)
  hears :
      {n : ℕ} {w : World} (i : ℕ) (view : View)
      → Occurs view w.sent
      → Reached names n w
      → Reached names n (heard i view w)
  works :
      {n : ℕ} {w : World} (i : ℕ) (work : Work)
      → Reached names n w
      → Reached names n
          (record w { servers = change_server i (do_work work (w.servers i)) w.servers })
