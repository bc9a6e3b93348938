-- ===== src/Replica/Sync.antt =====
-- The transfer of the whole state to a new backup (kv_server_main/kvserver/server.go).
use go_distributed_system_de.Base.{
  String, true, false, List, [], ◌∷◌, ◌++◌, some, ◌≡◌, refl, sym, ap, ◌∙◌, Map, lookup,
  lookup-insert, string_eq, str_eq, if◌then◌else◌,
}
use go_distributed_system_de.Views.{is_empty}
use go_distributed_system_de.Replica.{
  is_primary, is_backup, PutRequest, KvServer, copy_data, sync_state, transfer_start, transfer_end,
  transfer_state,
}
use go_distributed_system_de.Replica.Puts.{
  last_put, store_all, lookup-store_all, put_all_forwarded, put_all_queued,
}

pub lookup-copy_data :
    (m : Map String String) (key : String) → lookup key (copy_data m) ≡ lookup key m
unfolding copy_data lookup
lookup-copy_data [] key = refl
lookup-copy_data ((j, v) ∷ m) key =
    lookup-insert j key v (copy_data m)
    ∙ ap (λ o. if str_eq j key then some v else o) (lookup-copy_data m key)

-- What a transfer leaves that goes well.
pub transfer_done :
    (during : List PutRequest) (p b : KvServer)
    → is_primary p.role ≡ true
    → is_empty p.current_view.backup ≡ false
    → is_backup b.role ≡ true
    → transfer_state during true (λ _. true) p b ≡ (
      record p {
        syncing = false;
        pending_queue = [];
        data_map = store_all (p.pending_queue ++ during) p.data_map;
      },
      record b {
        data_map = store_all (p.pending_queue ++ during) (copy_data (copy_data p.data_map));
      },
    )
unfolding transfer_state transfer_start transfer_end sync_state
transfer_done during p b h n r =
    rw (put_all_queued during (λ _. true) (record p { syncing = true }) b h refl) (
      put_all_forwarded (p.pending_queue ++ during)
        (record p { syncing = false; pending_queue = [] })
        (record b { data_map = copy_data (copy_data p.data_map) }) h refl n r)

-- After a transfer that goes well, to a backup that has its role and that every forward reaches, the
-- primary holds what the puts that had waited before and those that came in meanwhile say, in their
-- order, over its old data; the backup holds the same, whatever it held before; nothing waits any more.
pub transfer_state-Agree :
    (during : List PutRequest) (p b : KvServer) (key : String)
    → is_primary p.role ≡ true
    → is_empty p.current_view.backup ≡ false
    → is_backup b.role ≡ true
    → let (p', b') = transfer_state during true (λ _. true) p b in
      (lookup key p'.data_map ≡ last_put (p.pending_queue ++ during) key (lookup key p.data_map))
      × (lookup key b'.data_map ≡ lookup key p'.data_map)
      × (p'.pending_queue ≡ [])
      × (p'.syncing ≡ false)
transfer_state-Agree during p b key h n r =
    let queue = p.pending_queue ++ during in
    let stored = lookup-store_all queue p.data_map key in
    rw (transfer_done during p b h n r) (
      stored,
      lookup-store_all queue (copy_data (copy_data p.data_map)) key
          ∙ ap (last_put queue key)
              (lookup-copy_data (copy_data p.data_map) key ∙ lookup-copy_data p.data_map key)
          ∙ sym stored,
      refl,
      refl,
    )
