-- ===== src/Programs/Once.antt =====
-- The client program with one operation (multipaxos_kvstore/client/client.go).
use go_distributed_system_de.Base.{
  Bool, true, false, not, ◌&&◌, ◌||◌, str_eq, str_eq_iff, if◌then◌else◌, ◌≡◌, ◌⊎◌, ◌↔◌, inl, inr,
  refl, sym, ap, subst, Bool-cases, arith,
}
use go_distributed_system_de.Views.{is_empty}
use go_distributed_system_de.KvClient.{
  KvClient, End, finished, tried_all, key_not_found, put_key, get_key, delete_key,
}
use go_distributed_system_de.Programs.Shell.{
  Flags, Ended, exit_1, unknown, once, once_put, once_get, once_delete, write_ended, get_ended,
}

-- An operation with the arguments that it needs.
abbrev pub is_complete : Flags → Bool
is_complete f =
    not (is_empty f.key)
    && ((str_eq f.op "put" && not (is_empty f.value)) || str_eq f.op "get" || str_eq f.op "delete")

-- What it asks the client library for.
abbrev pub request : {W : Type 0} → Flags → KvClient W → W → End × W
request f c =
    if str_eq f.op "put"
    then put_key c f.key f.value
    else if str_eq f.op "get"
    then get_key c f.key
    else delete_key c f.key

abbrev pub is_finished : End → Bool
is_finished (finished v) = true
is_finished _ = false

-- The request is sent, and served exactly if the exit status is 0; or there is none to send.
abbrev pub Served : Ended → End → Type 0
Served ended e = (ended.status ≡ 0) ↔ (is_finished e ≡ true)

abbrev pub OnceOutcome : {W : Type 0} → Flags → KvClient W → W → Ended × W → Type 0
OnceOutcome f c w (ended, w') =
    ((is_complete f ≡ true) × (w' ≡ (request f c w).1) × Served ended (request f c w).0)
    ⊎ ((is_complete f ≡ false) × (w' ≡ w) × (ended.status ≡ 1))

write_ended-Served : (e : End) → Served (write_ended e) e
write_ended-Served (finished v) = (λ h. refl, λ h. refl)
write_ended-Served tried_all = (λ h. ground arith, λ h. ground arith)
write_ended-Served key_not_found = (λ h. ground arith, λ h. ground arith)

get_ended-Served : (e : End) → Served (get_ended e) e
get_ended-Served (finished v) = (λ h. refl, λ h. refl)
get_ended-Served tried_all = (λ h. ground arith, λ h. ground arith)
get_ended-Served key_not_found = (λ h. ground arith, λ h. ground arith)

module _ {W : Type 0} (f : Flags) (c : KvClient W) (w : W) where
  put-Outcome : str_eq f.op "put" ≡ true → OnceOutcome f c w (once_put f c w)
  unfolding once_put
  put-Outcome p =
      let op : f.op ≡ "put" = (str_eq_iff f.op "put").0 p in
      let g : str_eq f.op "get" ≡ false = ap (λ x. str_eq x "get") op in
      let d : str_eq f.op "delete" ≡ false = ap (λ x. str_eq x "delete") op in
      elim (Bool-cases (is_empty f.key)) [
        | inl k ↦ rw (p, g, d, k) (inr (refl, refl, refl))
        | inr k ↦ elim (Bool-cases (is_empty f.value)) [
          | inl v ↦ rw (p, g, d, k, v) (inr (refl, refl, refl))
          | inr v ↦
              rw (p, g, d, k, v)
                (inl (refl, refl, write_ended-Served (put_key c f.key f.value w).0))
        ]
      ]

  get-Outcome :
      str_eq f.op "put" ≡ false → str_eq f.op "get" ≡ true → OnceOutcome f c w (once_get f c w)
  unfolding once_get
  get-Outcome p g = elim (Bool-cases (is_empty f.key)) [
    | inl k ↦ rw (p, g, k) (inr (refl, refl, refl))
    | inr k ↦ rw (p, g, k) (inl (refl, refl, get_ended-Served (get_key c f.key w).0))
  ]

  delete-Outcome :
      str_eq f.op "put" ≡ false
      → str_eq f.op "get" ≡ false
      → str_eq f.op "delete" ≡ true
      → OnceOutcome f c w (once_delete f c w)
  unfolding once_delete
  delete-Outcome p g d = elim (Bool-cases (is_empty f.key)) [
    | inl k ↦ rw (p, g, d, k) (inr (refl, refl, refl))
    | inr k ↦ rw (p, g, d, k) (inl (refl, refl, write_ended-Served (delete_key c f.key w).0))
  ]

  other-Outcome :
      str_eq f.op "put" ≡ false
      → str_eq f.op "get" ≡ false
      → str_eq f.op "delete" ≡ false
      → OnceOutcome f c w (exit_1 (unknown f.op), w)
  other-Outcome p g d = elim (Bool-cases (is_empty f.key)) [
    | inl k ↦ rw (p, g, d, k) (inr (refl, refl, refl))
    | inr k ↦ rw (p, g, d, k) (inr (refl, refl, refl))
  ]

  arrives : (o : Ended × W) → once f c w ≡ o → OnceOutcome f c w o → OnceOutcome f c w (once f c w)
  arrives o e h = subst (OnceOutcome f c w) (sym e) h

-- With one of the operations put, get and delete and the arguments that it needs, the program sends
-- the request, with whose outcome the world is left, and its exit status is 0 exactly if a
-- server served it. With an argument missing or another operation it sends nothing and its exit
-- status is 1.
pub once_lem : {W : Type 0} (f : Flags) (c : KvClient W) (w : W) → OnceOutcome f c w (once f c w)
unfolding once
once_lem f c w = elim (Bool-cases (str_eq f.op "put")) [
  | inl p ↦ arrives f c w (once_put f c w) (rw p refl) (put-Outcome f c w p)
  | inr p ↦ elim (Bool-cases (str_eq f.op "get")) [
    | inl g ↦ arrives f c w (once_get f c w) (rw (p, g) refl) (get-Outcome f c w p g)
    | inr g ↦ elim (Bool-cases (str_eq f.op "delete")) [
      | inl d ↦ arrives f c w (once_delete f c w) (rw (p, g, d) refl) (delete-Outcome f c w p g d)
      | inr d ↦
          arrives f c w (exit_1 (unknown f.op), w) (rw (p, g, d) refl) (other-Outcome f c w p g d)
    ]
  ]
]
