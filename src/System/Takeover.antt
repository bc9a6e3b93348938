-- ===== src/System/Takeover.antt =====
-- The backup of a dead primary takes over (view/viewservice/server.go,
-- kv_server_main/kvserver/server.go).
use go_distributed_system_de.Base.{
  ℕ, ◌==◌, ==_iff, String, true, false, List, some, ◌≡◌, ◌≢◌, refl, arith, ap, ◌∙◌, sym, str_eq_iff,
}
use go_distributed_system_de.Views.{
  View, ViewServer, next_number, marshal, check_failures_and_promote,
}
use go_distributed_system_de.Views
use go_distributed_system_de.Views.Takeover.{Heard, tick_promotes, view-ping, ping_acks}
use go_distributed_system_de.Replica.{KvServer, Role, primary, role_in, ping_request}
use go_distributed_system_de.Replica.Roles.{ping_rest, ping_new}
use go_distributed_system_de.Replica
use go_distributed_system_de.System.{World, change_server, asked, heard}

next_differs : (n : ℕ) → (n == next_number n) ≡ false
next_differs n = ground arith

pub server_changed :
    (i : ℕ) (kv : KvServer) (servers : ℕ → KvServer) → change_server i kv servers i ≡ kv
server_changed i kv servers = ground (arith, ==_iff i i)

pub primary-role_in :
    (name : String) (view : View) → view.primary ≡ name → role_in name view ≡ primary
unfolding role_in
primary-role_in name view h = ground (arith, str_eq_iff view.primary name)

requests :
    (kv : KvServer) (name : String) (number : ℕ)
    → kv.connected ≡ true
    → kv.me ≡ name
    → kv.current_view.view_number ≡ number
    → ping_request kv ≡ some (name, number)
requests kv name number c m n = rw (c, m, n) refl

-- The tick, the backup's Ping at `later` with its answer, and its next Ping.
abbrev pub ticked : ℕ → List String → List String → World → World
ticked now order order' w = record w { views = check_failures_and_promote now order order' w.views }

abbrev pub exchange : ℕ → String → ℕ → ℕ → World → World
exchange i name number now w =
    let (ref, vs) = Views.ping name number now w.views in
    heard i (marshal ref vs vs vs) (asked i name number now w)

-- The backup takes over. When the primary has acknowledged its view and has then been silent for
-- more than the dead interval, and the backup, which is connected and knows the view, has not, then
-- after one tick and one Ping of the backup with its answer, the view service and the backup
-- agree that the backup is the primary, and the Ping after it acknowledges the view. The two
-- requests are the ones that the server makes.
pub backup_takes_over :
    (w : World) (i : ℕ) (now later last : ℕ) (order order' : List String)
    → w.views.primary ≢ ""
    → w.views.backup ≢ ""
    → w.views.primary_acked ≡ true
    → Heard now w.views
    → (w.servers i).me ≡ w.views.backup
    → (w.servers i).connected ≡ true
    → (w.servers i).current_view.view_number ≡ w.views.view_number
    → let name = w.views.backup in
      let n = w.views.view_number in
      let promoting = ticked now order order' w in
      let ready = exchange i name n later promoting in
      (ping_request (promoting.servers i) ≡ some (name, n))
      × (ready.views.primary ≡ name)
      × ((ready.servers i).role ≡ primary)
      × (ping_request (ready.servers i) ≡ some (name, next_number n))
      × ((asked i name (next_number n) last ready).views.primary_acked ≡ true)
backup_takes_over w i now later last order order' p b a h me c k =
    let vs = check_failures_and_promote now order order' w.views in
    let name = w.views.backup in
    let n = w.views.view_number in
    let kv = w.servers i in
    let view : vs.current_view
        ≡ record { view_number = next_number n; primary = name; backup = "" } =
      tick_promotes now order order' w.views p b a h in
    let kept = view-ping name n later vs ∙ view in
    let answer = (Views.ping name n later vs).1.current_view in
    let new = (Replica.ping (some answer) kv).1 in
    let other : (kv.current_view.view_number == answer.view_number) ≡ false =
      rw (k, ap (λ v. v.view_number) kept) (next_differs n) in
    let (role, connected) = ping_new answer kv other in
    let (same, hears) = ping_rest answer kv in
    let changed = server_changed i new w.servers in
    (
      requests kv name n c me k,
      ap (λ v. v.primary) kept,
      ap (λ s. s.role) changed
          ∙ role
          ∙ primary-role_in kv.me answer (ap (λ v. v.primary) kept ∙ sym me),
      ap ping_request changed
          ∙ requests new name (next_number n) (connected ∙ c) (same ∙ me)
              (ap (λ v. v.view_number) (hears ∙ kept)),
      ping_acks name (next_number n) last (Views.ping name n later vs).1 (ap (λ v. v.primary) kept)
          (ap (λ v. v.view_number) kept),
    )
