-- ===== src/Replica/Tests.antt =====
-- Small runs of a primary and its backup (kv_server_main/kvserver/server.go).
use go_distributed_system_de.Base.{
  String, some, true, false, [], ◌∷◌, ◌++◌, ◌≡◌, refl, lookup, string_eq,
}
use go_distributed_system_de.Views.{View}
use go_distributed_system_de.Replica
use go_distributed_system_de.Replica.{
  KvServer, PutRequest, Response, done, get, put, ping, role_in, transfer_state, start_server,
  put_all,
}
use go_distributed_system_de.Replica.Puts.{PutOutcome, put_lem, last_put}
use go_distributed_system_de.Replica.Failover.{answer_to, failover_keeps}
use go_distributed_system_de.Replica.Stale.{stale_put_returns}

abbrev view : View
view = record { view_number = 2; primary = "a"; backup = "b" }

abbrev first : KvServer
first = record (start_server "a") { current_view = view; role = Replica.primary }

abbrev second : KvServer
second = record (start_server "b") { current_view = view; role = Replica.backup }

abbrev write : String → PutRequest
write value = record { key = "k"; value = value }

put_example : PutOutcome (write "v") true first second (put (write "v") true first second)
put_example = put_lem (write "v") true first second

abbrev next_view : View
next_view = record { view_number = 3; primary = "b"; backup = "" }

failover_keeps_example :
    let (p1, b1) = transfer_state (write "v" ∷ []) true (λ _. true) first second in
    let (p2, b2) = put_all (write "w" ∷ []) (λ _. true) p1 b1 in
    (get "k" (ping (some next_view) b2).1 ≡ get "k" p2)
    × (get "k" p2
        ≡ answer_to (
            last_put
              (write "w" ∷ [])
              "k"
              (last_put (first.pending_queue ++ write "v" ∷ []) "k" (lookup "k" first.data_map))))
failover_keeps_example =
    failover_keeps (write "v" ∷ []) (write "w" ∷ []) first second next_view "k" refl refl refl refl
      refl

stale_put_returns_example :
    let (p1, b1) = transfer_state (write "old" ∷ []) false (λ _. true) first second in
    let (r, p2, b2) = put (write "new") true p1 b1 in
    let (p3, b3) = transfer_state [] true (λ _. true) p2 b2 in
    (get "k" p1 ≡ get "k" first)
    × (r ≡ done "")
    × (get "k" p2 ≡ done "new")
    × (get "k" p3 ≡ done "old")
stale_put_returns_example = stale_put_returns "k" "old" "new" first second refl refl refl refl
