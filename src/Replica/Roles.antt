-- ===== src/Replica/Roles.antt =====
-- Roles and transfers that a new view brings (kv_server_main/kvserver/server.go).
use go_distributed_system_de.Base.{
  ◌==◌, ==_iff, true, false, Option, none, some, ◌≡◌, refl, ◌⊎◌, inl, inr, arith, str_eq,
  Bool-cases,
}
use go_distributed_system_de.Views.{View, is_empty}
use go_distributed_system_de.Replica.{
  is_primary, KvServer, role_in, note_backup, handle_view_change, ping,
}

-- The role is the one that the view gives.
abbrev pub InStep : KvServer → Type 0
InStep kv = kv.role ≡ role_in kv.me kv.current_view

note_backup-InStep : (kv : KvServer) → InStep kv → InStep (note_backup kv).1
unfolding note_backup
note_backup-InStep kv h = elim (Bool-cases (is_empty kv.current_view.backup)) [
  | inl e ↦ rw e h
  | inr e ↦ elim (Bool-cases (str_eq kv.current_view.backup kv.last_backup)) [
    | inl f ↦ rw (e, f) h
    | inr f ↦ rw (e, f) h
  ]
]

handle_view_change-InStep : (kv : KvServer) → InStep (handle_view_change kv).1
unfolding handle_view_change
handle_view_change-InStep kv = elim (Bool-cases (is_primary (role_in kv.me kv.current_view))) [
  | inl e ↦ rw e (note_backup-InStep (record kv { role = role_in kv.me kv.current_view }) refl)
  | inr e ↦ rw e refl
]

pub ping_rest :
    (view : View) (kv : KvServer)
    → let kv' = (ping (some view) kv).1 in (kv'.me ≡ kv.me) × (kv'.current_view ≡ view)
unfolding ping handle_view_change note_backup
ping_rest view kv = ground arith

-- An answer of the view service keeps the role in step with the view, provided that two views with
-- the same number are the same view.
pub ping-InStep :
    (answer : Option View) (kv : KvServer)
    → ((view : View)
        → answer ≡ some view
        → kv.current_view.view_number ≡ view.view_number
        → view ≡ kv.current_view)
    → InStep kv
    → InStep (ping answer kv).1
unfolding ping
ping-InStep none kv same h = h
ping-InStep (some view) kv same h =
    elim (Bool-cases (kv.current_view.view_number == view.view_number)) [
      | inl e ↦
          rw e (rw (same view refl ((==_iff kv.current_view.view_number view.view_number).0 e)) h)
      | inr e ↦ rw e (handle_view_change-InStep (record kv { current_view = view }))
    ]

-- An answer starts a transfer in exactly one case: the view has another number, names this server as
-- primary and names a backup, which is not the last one noted. It goes to that backup, under the
-- view's number, and the backup is noted, so that the next view with the same backup starts none.
pub ping_starts_transfer :
    (view : View) (kv : KvServer)
    → let (transfer, kv') = ping (some view) kv in
      (((kv.current_view.view_number == view.view_number) ≡ false)
        × (str_eq view.primary kv.me ≡ true)
        × (is_empty view.backup ≡ false)
        × (str_eq view.backup kv.last_backup ≡ false)
        × (transfer ≡ some (view.backup, view.view_number))
        × (kv'.last_backup ≡ view.backup))
      ⊎ ((transfer ≡ none)
          × (((kv.current_view.view_number == view.view_number) ≡ true)
              ⊎ (str_eq view.primary kv.me ≡ false)
              ⊎ (is_empty view.backup ≡ true)
              ⊎ (str_eq view.backup kv.last_backup ≡ true)))
unfolding ping handle_view_change note_backup role_in
ping_starts_transfer view kv = ground arith

-- A view with another number gives the server its role.
pub ping_new :
    (view : View) (kv : KvServer)
    → (kv.current_view.view_number == view.view_number) ≡ false
    → let kv' = (ping (some view) kv).1 in
      (kv'.role ≡ role_in kv.me view) × (kv'.connected ≡ kv.connected)
unfolding ping handle_view_change note_backup
ping_new view kv h = ground arith
