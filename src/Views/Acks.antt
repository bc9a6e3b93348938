-- ===== src/Views/Acks.antt =====
-- What the primary's acknowledgement guards (view/viewservice/server.go).
use go_distributed_system_de.Base.{
  ℕ, String, true, false, List, Option, none, some, ◌≡◌, refl, ◌⊎◌, inl, inr, arith, ap, ◌∙◌,
  lookup, string_eq,
}
use go_distributed_system_de.Views.{
  ViewServer, mark_dead, primary_stage, backup_stage, pick, make_primary, assign_primary,
  make_backup, assign_backup, remove_from_idle, check_failures_and_promote, is_empty, is_dead,
  is_alive, info_alive,
}
use go_distributed_system_de.Views.Roles.{pick-alive}

-- While the primary has not acknowledged its view, no tick changes the primary or gives it a
-- backup: the view stays, or only loses its backup, which is dead then.
pub tick_unacked :
    (now : ℕ) (order order' : List String) (vs : ViewServer)
    → vs.primary_acked ≡ false
    → let ws = check_failures_and_promote now order order' vs in
      (ws.current_view ≡ vs.current_view)
      ⊎ ((ws.primary ≡ vs.primary)
          × (ws.backup ≡ "")
          × (is_dead vs.backup (mark_dead now vs) ≡ true)
          × (ws.primary_acked ≡ false))
unfolding check_failures_and_promote mark_dead primary_stage backup_stage assign_primary
    assign_backup
tick_unacked now order order' vs h = ground arith

module _ (vs : ViewServer) where
  servers-primary_stage : (primary_stage vs).servers ≡ vs.servers
  unfolding primary_stage
  servers-primary_stage = ground arith

  primary-primary_stage :
      ((primary_stage vs).primary ≡ vs.primary)
      ⊎ ((primary_stage vs).primary ≡ "")
      ⊎ (((primary_stage vs).primary ≡ vs.backup)
          × (is_alive vs.backup vs ≡ true)
          × (vs.primary_acked ≡ true)
          × (is_dead vs.primary vs ≡ true))
  unfolding primary_stage
  primary-primary_stage = ground arith

  acked-primary_stage : (primary_stage vs).primary_acked ≡ true → vs.primary_acked ≡ true
  unfolding primary_stage
  acked-primary_stage h = ground arith

  backup_stage_rest :
      ((backup_stage vs).servers ≡ vs.servers)
      × ((backup_stage vs).primary ≡ vs.primary)
      × ((backup_stage vs).primary_acked ≡ vs.primary_acked)
  unfolding backup_stage
  backup_stage_rest = ground arith

make_primary_new :
    (o : Option String) (vs : ViewServer)
    → ((name : String) → o ≡ some name → is_alive name vs ≡ true)
    → ((make_primary o vs).primary ≡ vs.primary) ⊎ (is_alive (make_primary o vs).primary vs ≡ true)
unfolding make_primary remove_from_idle
make_primary_new none vs h = inl refl
make_primary_new (some name) vs h = inr (h name refl)

assign_primary_new :
    (order : List String) (vs : ViewServer)
    → ((assign_primary order vs).primary ≡ vs.primary)
      ⊎ ((vs.primary_acked ≡ true)
          × (is_empty vs.primary ≡ true)
          × (is_alive (assign_primary order vs).primary vs ≡ true))
unfolding assign_primary
assign_primary_new order vs =
    let picked = λ (name : String) (e : pick order vs.backup vs ≡ some name).
      (pick-alive order vs.backup name vs e).0 in
    ground (arith, make_primary_new (pick order vs.backup vs) vs picked)

assign_backup_primary :
    (order : List String) (vs : ViewServer) → (assign_backup order vs).primary ≡ vs.primary
unfolding assign_backup make_backup remove_from_idle
assign_backup_primary order vs = ground arith

is_alive-servers :
    (name : String) (vs ws : ViewServer)
    → vs.servers ≡ ws.servers
    → is_alive name vs ≡ is_alive name ws
unfolding is_alive
is_alive-servers name vs ws h = ap (λ m. info_alive (lookup name m)) h

-- A tick keeps the primary, takes the role from it, or gives it to a server that is alive at the
-- tick; a server takes over only when the view was acknowledged.
pub tick_new_primary :
    (now : ℕ) (order order' : List String) (vs : ViewServer)
    → let ws = check_failures_and_promote now order order' vs in
      (ws.primary ≡ vs.primary)
      ⊎ (ws.primary ≡ "")
      ⊎ ((is_alive ws.primary (mark_dead now vs) ≡ true) × (vs.primary_acked ≡ true))
unfolding check_failures_and_promote mark_dead
tick_new_primary now order order' vs =
    let m = mark_dead now vs in
    let p = primary_stage m in
    let b = backup_stage p in
    let a = assign_primary order b in
    ground (
      arith,
      primary-primary_stage m,
      acked-primary_stage m,
      servers-primary_stage m,
      backup_stage_rest p,
      assign_primary_new order b,
      assign_backup_primary order' a,
      is_alive-servers a.primary b m ((backup_stage_rest p).0 ∙ servers-primary_stage m),
      is_alive-servers m.backup vs vs refl,
    )
