-- ===== src/Replica/Puts.antt =====
-- Puts on the primary, with and without a transfer under way (kv_server_main/kvserver/server.go).
use mathlib.Core.List.{append_assoc, append-nil}
use go_distributed_system_de.Base.{
  Bool-cases, ◌⊎◌, inl, inr, ℕ, suc, String, Bool, true, false, not, ◌&&◌, List, [], ◌∷◌, ◌++◌,
  Option, some, ◌≡◌, refl, arith, Map, lookup, insert, lookup-insert, lookup-insert_self,
  lookup-insert_ne, string_eq, str_eq, if◌then◌else◌,
}
use go_distributed_system_de.Views.{is_empty}
use go_distributed_system_de.Replica.{
  is_primary, is_backup, PutRequest, KvServer, Response, done, err_not_primary, get, store, put,
  put_start, forward_update, put_all,
}

-- What a key holds after puts in order.
abbrev pub last_put : List PutRequest → String → Option String → Option String
last_put [] key before = before
last_put (req ∷ reqs) key before =
    last_put reqs key (if str_eq req.key key then some req.value else before)

abbrev pub store_all : List PutRequest → Map String String → Map String String
store_all [] m = m
store_all (req ∷ reqs) m = store_all reqs (insert req.key req.value m)

pub lookup-store_all :
    (reqs : List PutRequest) (m : Map String String) (key : String)
    → lookup key (store_all reqs m) ≡ last_put reqs key (lookup key m)
lookup-store_all [] m key = refl
lookup-store_all (req ∷ reqs) m key =
    rw (← lookup-insert req.key key req.value m)
      (lookup-store_all reqs (insert req.key req.value m) key)

abbrev pub PutOutcome :
    PutRequest → Bool → KvServer → KvServer → Response × KvServer × KvServer → Type 0
PutOutcome req reached p b (r, p', b') =
    ((is_primary p.role ≡ false) × (r ≡ err_not_primary) × (p' ≡ p) × (b' ≡ b))
    ⊎ ((is_primary p.role ≡ true)
        × (p.syncing ≡ true)
        × (r ≡ done "")
        × (p'.pending_queue ≡ p.pending_queue ++ req ∷ [])
        × (p'.data_map ≡ p.data_map)
        × (b' ≡ b))
    ⊎ ((is_primary p.role ≡ true)
        × (p.syncing ≡ false)
        × (r ≡ done "")
        × (get req.key p' ≡ done req.value)
        × ((key : String) → str_eq req.key key ≡ false → get key p' ≡ get key p)
        × (b' ≡ (
            if not (is_empty p.current_view.backup) && reached && is_backup b.role
            then store req b
            else b)))

put_made :
    (req : PutRequest) (reached : Bool) (p b : KvServer)
    → is_primary p.role ≡ true
    → p.syncing ≡ false
    → let (r, p', b') = put req reached p b in
      (r ≡ done "")
      × (get req.key p' ≡ done req.value)
      × ((key : String) → str_eq req.key key ≡ false → get key p' ≡ get key p)
      × (b' ≡ (
          if not (is_empty p.current_view.backup) && reached && is_backup b.role
          then store req b
          else b))
unfolding put put_start get forward_update
put_made req reached p b h k =
    rw (h, k)
      (
        refl,
        rw (lookup-insert_self req.key req.value p.data_map) (rw h refl),
        (λ key n. rw (h, lookup-insert_ne req.key key req.value p.data_map n) refl),
        ground arith,
      )

-- A Put ends in one of three ways. A server that is not primary refuses it and changes nothing. During
-- a transfer the primary answers done, but the put only waits in the queue: no data changes. Outside a
-- transfer the primary answers done, the value is read back, no other key changes, and the put is
-- stored at the backup exactly when the view has one, the forward arrives and its role is backup.
pub put_lem :
    (req : PutRequest) (reached : Bool) (p b : KvServer)
    → PutOutcome req reached p b (put req reached p b)
unfolding put put_start get forward_update
put_lem req reached p b = elim (Bool-cases (is_primary p.role)) [
  | inr h ↦ inl (h, rw h refl, rw h refl, rw h refl)
  | inl h ↦ inr (elim (Bool-cases p.syncing) [
    | inl k ↦ inl (h, k, rw (h, k) refl, rw (h, k) refl, rw (h, k) refl, rw (h, k) refl)
    | inr k ↦
        let (r, made, others, stored) = put_made req reached p b h k in
        inr (h, k, r, made, others, stored)
  ])
]

-- The puts of a server that is primary and not in a transfer, all of which reach a backup.
pub put_forwarded :
    (req : PutRequest) (p b : KvServer)
    → is_primary p.role ≡ true
    → p.syncing ≡ false
    → is_empty p.current_view.backup ≡ false
    → is_backup b.role ≡ true
    → put req true p b ≡ (done "", store req p, store req b)
unfolding put put_start forward_update
put_forwarded req p b h k n r = simp (h, k, n, r)

pub put_all_forwarded :
    (reqs : List PutRequest) (p b : KvServer)
    → is_primary p.role ≡ true
    → p.syncing ≡ false
    → is_empty p.current_view.backup ≡ false
    → is_backup b.role ≡ true
    → put_all reqs (λ _. true) p b ≡ (
      record p { data_map = store_all reqs p.data_map },
      record b { data_map = store_all reqs b.data_map },
    )
unfolding put_all
put_all_forwarded [] p b h k n r = refl
put_all_forwarded (req ∷ reqs) p b h k n r =
    rw (put_forwarded req p b h k n r) (put_all_forwarded reqs (store req p) (store req b) h k n r)

put_queued :
    (req : PutRequest) (reached : Bool) (p b : KvServer)
    → is_primary p.role ≡ true
    → p.syncing ≡ true
    → put req reached p b ≡ (done "", record p { pending_queue = p.pending_queue ++ req ∷ [] }, b)
unfolding put put_start
put_queued req reached p b h k = simp (h, k)

-- Puts that come in during a transfer wait in the queue, in order.
pub put_all_queued :
    (reqs : List PutRequest) (reached : ℕ → Bool) (p b : KvServer)
    → is_primary p.role ≡ true
    → p.syncing ≡ true
    → put_all reqs reached p b ≡ (record p { pending_queue = p.pending_queue ++ reqs }, b)
unfolding put_all
put_all_queued [] reached p b h k = rw (append-nil p.pending_queue) refl
put_all_queued (req ∷ reqs) reached p b h k =
    rw (put_queued req (reached 0) p b h k, ← append_assoc p.pending_queue (req ∷ []) reqs)
      (put_all_queued reqs (λ n. reached (suc n))
        (record p { pending_queue = p.pending_queue ++ req ∷ [] }) b h k)
