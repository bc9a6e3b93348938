-- ===== src/Replica/Stale.antt =====
-- Puts that wait for a transfer that fails (kv_server_main/kvserver/server.go).
use go_distributed_system_de.Base.{
  ℕ, String, Bool, true, false, List, [], ◌∷◌, ◌++◌, some, ◌≡◌, refl, ap, lookup, insert,
  lookup-insert_self, string_eq,
}
use go_distributed_system_de.Views.{is_empty}
use go_distributed_system_de.Replica.{
  is_primary, is_backup, PutRequest, KvServer, done, get, put, store, transfer_start, transfer_end,
  put_all, transfer_state,
}
use go_distributed_system_de.Replica.Puts.{put_all_queued, put_forwarded}
use go_distributed_system_de.Replica.Sync.{transfer_done}

-- A transfer that fails makes no put that waits: the data of both servers is as before, and the puts
-- that came in meanwhile, each answered with done, stay in the queue.
pub transfer_state_fails :
    (during : List PutRequest) (reached : ℕ → Bool) (p b : KvServer)
    → is_primary p.role ≡ true
    → transfer_state during false reached p b
      ≡ (record p { syncing = false; pending_queue = p.pending_queue ++ during }, b)
unfolding transfer_state transfer_start transfer_end put_all
transfer_state_fails during reached p b h =
    rw (put_all_queued during reached (record p { syncing = true }) b h refl) refl

get_stored :
    (key value : String) (p : KvServer)
    → is_primary p.role ≡ true
    → lookup key p.data_map ≡ some value
    → get key p ≡ done value
unfolding get
get_stored key value p h e = rw (h, e) refl

-- The last put that waits is read after the transfer that makes it.
get_waited :
    (key value : String) (p b : KvServer)
    → is_primary p.role ≡ true
    → is_empty p.current_view.backup ≡ false
    → is_backup b.role ≡ true
    → p.pending_queue ≡ record { key = key; value = value } ∷ []
    → get key (transfer_state [] true (λ _. true) p b).0 ≡ done value
get_waited key value p b h n r q =
    rw (transfer_done [] p b h n r, q)
      (get_stored key value
        (record p { syncing = false; pending_queue = []; data_map = insert key value p.data_map }) h
        (lookup-insert_self key value p.data_map))

-- So a put that was answered with done can undo a later one: the first comes in during a transfer
-- that fails, and its value is not read; the second, of the same key, is made at once and read; the
-- next transfer that goes well makes the first, whose value is read from then on.
pub stale_put_returns :
    (key old new : String) (p b : KvServer)
    → is_primary p.role ≡ true
    → is_empty p.current_view.backup ≡ false
    → is_backup b.role ≡ true
    → p.pending_queue ≡ []
    → let (p1, b1) =
        transfer_state (record { key = key; value = old } ∷ []) false (λ _. true) p b in
      let (r, p2, b2) = put (record { key = key; value = new }) true p1 b1 in
      let (p3, b3) = transfer_state [] true (λ _. true) p2 b2 in
      (get key p1 ≡ get key p) × (r ≡ done "") × (get key p2 ≡ done new) × (get key p3 ≡ done old)
unfolding get
stale_put_returns key old new p b h n r q =
    let first : PutRequest = record { key = key; value = old } in
    let second : PutRequest = record { key = key; value = new } in
    let p1 : KvServer = record p {
      syncing = false;
      pending_queue = p.pending_queue ++ first ∷ [];
    } in
    rw (transfer_state_fails (first ∷ []) (λ _. true) p b h, put_forwarded second p1 b h refl n r)
      (
        refl,
        refl,
        get_stored key new (store second p1) h (lookup-insert_self key new p.data_map),
        get_waited key old (store second p1) (store second b) h n r (ap (λ l. l ++ first ∷ []) q),
      )
