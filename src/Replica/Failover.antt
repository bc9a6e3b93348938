-- ===== src/Replica/Failover.antt =====
-- A backup that takes over (kv_server_main/kvserver/server.go).
use go_distributed_system_de.Base.{
  ◌==◌, String, true, false, List, [], ◌++◌, Option, none, some, ◌≡◌, refl, sym, ap, ◌∙◌, lookup,
  Map, string_eq, str_eq_iff, arith,
}
use go_distributed_system_de.Views.{View, is_empty}
use go_distributed_system_de.Replica.{
  is_primary, is_backup, PutRequest, KvServer, Response, done, err_no_key, get, get_found, put_all,
  ping, note_backup, handle_view_change, role_in, transfer_state, copy_data,
}
use go_distributed_system_de.Replica.Puts.{last_put, store_all, lookup-store_all, put_all_forwarded}
use go_distributed_system_de.Replica.Sync.{transfer_done, lookup-copy_data}

-- The answer to a Get of a key with these contents.
abbrev pub answer_to : Option String → Response
answer_to none = err_no_key
answer_to (some value) = done value

get_found_answer : (o : Option String) → get_found o ≡ answer_to o
unfolding get_found
get_found_answer none = refl
get_found_answer (some value) = refl

get_as_primary :
    (key : String) (kv : KvServer)
    → is_primary kv.role ≡ true
    → get key kv ≡ answer_to (lookup key kv.data_map)
unfolding get
get_as_primary key kv h = rw h (get_found_answer (lookup key kv.data_map))

promoted :
    (view : View) (kv : KvServer)
    → view.primary ≡ kv.me
    → (kv.current_view.view_number == view.view_number) ≡ false
    → let kv' = (ping (some view) kv).1 in
      (is_primary kv'.role ≡ true) × (kv'.data_map ≡ kv.data_map)
unfolding ping handle_view_change note_backup role_in
promoted view kv h n = ground (arith, str_eq_iff view.primary kv.me)

all_stored :
    (queue reqs : List PutRequest) (m : Map String String) (key : String)
    → lookup key (store_all reqs (store_all queue m))
      ≡ last_put reqs key (last_put queue key (lookup key m))
all_stored queue reqs m key =
    lookup-store_all reqs (store_all queue m) key
    ∙ ap (last_put reqs key) (lookup-store_all queue m key)

-- Both servers after a transfer that goes well and the puts that follow it.
settled :
    (during reqs : List PutRequest) (p b : KvServer)
    → is_primary p.role ≡ true
    → is_empty p.current_view.backup ≡ false
    → is_backup b.role ≡ true
    → let (p1, b1) = transfer_state during true (λ _. true) p b in
      put_all reqs (λ _. true) p1 b1 ≡ (
        record p {
          syncing = false;
          pending_queue = [];
          data_map = store_all reqs (store_all (p.pending_queue ++ during) p.data_map);
        },
        record b {
          data_map =
              store_all reqs
                (store_all (p.pending_queue ++ during) (copy_data (copy_data p.data_map)));
        },
      )
settled during reqs p b h n r =
    rw (transfer_done during p b h n r) (put_all_forwarded reqs _ _ h refl n r)

-- What the primary has answered a Put for is not lost when its backup takes over: after a transfer
-- that goes well, with the puts that waited for it, and any later puts whose forwards all
-- arrive, the backup that then hears of a new view with itself as primary answers a Get of any key
-- as the old primary does, and as the puts in their order, over the primary's data before the
-- transfer, say.
pub failover_keeps :
    (during reqs : List PutRequest) (p b : KvServer) (view : View) (key : String)
    → is_primary p.role ≡ true
    → is_empty p.current_view.backup ≡ false
    → is_backup b.role ≡ true
    → view.primary ≡ b.me
    → (b.current_view.view_number == view.view_number) ≡ false
    → let (p1, b1) = transfer_state during true (λ _. true) p b in
      let (p2, b2) = put_all reqs (λ _. true) p1 b1 in
      (get key (ping (some view) b2).1 ≡ get key p2)
      × (get key p2
          ≡ answer_to (
              last_put reqs key (last_put (p.pending_queue ++ during) key (lookup key p.data_map))))
failover_keeps during reqs p b view key h n r v k =
    let queue = p.pending_queue ++ during in
    let old : KvServer = record p {
      syncing = false;
      pending_queue = [];
      data_map = store_all reqs (store_all queue p.data_map);
    } in
    let copied = copy_data (copy_data p.data_map) in
    let backup : KvServer = record b { data_map = store_all reqs (store_all queue copied) } in
    let (leads, data_map) = promoted view backup v k in
    let at_old = get_as_primary key old h ∙ ap answer_to (all_stored queue reqs p.data_map key) in
    let at_new =
      get_as_primary key (ping (some view) backup).1 leads
      ∙ ap (λ m. answer_to (lookup key m)) data_map
      ∙ ap answer_to (all_stored queue reqs copied key)
      ∙ ap (λ o. answer_to (last_put reqs key (last_put queue key o)))
          (lookup-copy_data (copy_data p.data_map) key ∙ lookup-copy_data p.data_map key) in
    rw (settled during reqs p b h n r) (at_new ∙ sym at_old, at_old)
