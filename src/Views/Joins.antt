-- ===== src/Views/Joins.antt =====
-- How a backup joins, and how it takes over (view/viewservice/server.go).
use go_distributed_system_de.Base.{
  ℕ, String, true, false, List, some, ◌≡◌, arith, ap, ◌∙◌, string_eq, str_eq_iff,
}
use go_distributed_system_de.Views.{
  ViewServer, next_number, mark_dead, primary_stage, backup_stage, pick, assign_primary,
  make_backup, assign_backup, remove_from_idle, check_failures_and_promote, is_empty, is_dead,
  is_alive,
}

-- The stages that leave the view alone.
primary_stage_alive : (vs : ViewServer) → is_dead vs.primary vs ≡ false → primary_stage vs ≡ vs
unfolding primary_stage
primary_stage_alive vs d = ground arith

backup_stage_none : (vs : ViewServer) → is_empty vs.backup ≡ true → backup_stage vs ≡ vs
unfolding backup_stage
backup_stage_none vs b = ground arith

assign_primary_kept :
    (order : List String) (vs : ViewServer)
    → is_empty vs.primary ≡ false
    → assign_primary order vs ≡ vs
unfolding assign_primary
assign_primary_kept order vs p = ground arith

assign_backup_unacked :
    (order : List String) (vs : ViewServer) → vs.primary_acked ≡ false → assign_backup order vs ≡ vs
unfolding assign_backup
assign_backup_unacked order vs k = ground arith

abbrev with_backup : String → ViewServer → ViewServer
with_backup name vs = remove_from_idle name (record vs {
  current_view = record {
    view_number = next_number vs.view_number;
    primary = vs.primary;
    backup = name;
  };
})

assign_backup_joins :
    (order : List String) (vs : ViewServer) (name : String)
    → vs.primary_acked ≡ true
    → is_empty vs.backup ≡ true
    → is_empty vs.primary ≡ false
    → pick order vs.primary vs ≡ some name
    → assign_backup order vs ≡ with_backup name vs
unfolding assign_backup make_backup remove_from_idle
assign_backup_joins order vs name k b p c = simp (b, p, k, c)

stages_join :
    (order order' : List String) (vs : ViewServer) (name : String)
    → vs.primary_acked ≡ true
    → is_empty vs.backup ≡ true
    → is_empty vs.primary ≡ false
    → is_dead vs.primary vs ≡ false
    → pick order' vs.primary vs ≡ some name
    → assign_backup order' (assign_primary order (backup_stage (primary_stage vs)))
      ≡ with_backup name vs
stages_join order order' vs name k b p d c =
    rw (primary_stage_alive vs d, backup_stage_none vs b, assign_primary_kept order vs p)
      (assign_backup_joins order' vs name k b p c)

primary_stage_dead :
    (vs : ViewServer)
    → vs.primary_acked ≡ true
    → is_empty vs.backup ≡ false
    → is_empty vs.primary ≡ false
    → is_dead vs.primary vs ≡ true
    → is_alive vs.backup vs ≡ true
    → ((primary_stage vs).primary ≡ vs.backup)
      × ((primary_stage vs).backup ≡ "")
      × ((primary_stage vs).primary_acked ≡ false)
unfolding primary_stage
primary_stage_dead vs k b p d a = ground arith

assign_primary_unacked :
    (order : List String) (vs : ViewServer)
    → vs.primary_acked ≡ false
    → assign_primary order vs ≡ vs
unfolding assign_primary
assign_primary_unacked order vs k = ground arith

stages_promote :
    (order order' : List String) (vs : ViewServer)
    → vs.primary_acked ≡ true
    → is_empty vs.backup ≡ false
    → is_empty vs.primary ≡ false
    → is_dead vs.primary vs ≡ true
    → is_alive vs.backup vs ≡ true
    → (assign_backup order' (assign_primary order (backup_stage (primary_stage vs)))).primary
      ≡ vs.backup
stages_promote order order' vs k b p d a =
    let (new, none_left, unacked) = primary_stage_dead vs k b p d a in
    let e =
      backup_stage_none (primary_stage vs)
        ((str_eq_iff (primary_stage vs).backup "").1 none_left) in
    rw
      (
        e,
        assign_primary_unacked order (primary_stage vs) unacked,
        assign_backup_unacked order' (primary_stage vs) unacked,
      )
      new

promote_backup :
    (now : ℕ) (order order' : List String) (vs : ViewServer)
    → vs.primary_acked ≡ true
    → is_empty vs.backup ≡ false
    → is_empty vs.primary ≡ false
    → is_dead vs.primary (mark_dead now vs) ≡ true
    → is_alive vs.backup (mark_dead now vs) ≡ true
    → (check_failures_and_promote now order order' vs).primary ≡ vs.backup
unfolding check_failures_and_promote mark_dead
promote_backup now order order' vs k b p d a =
    stages_promote order order' (mark_dead now vs) k b p d a

-- A backup joins without an acknowledgement: when an acknowledged primary has no backup, the tick
-- that finds one raises the view number and leaves the view marked as acknowledged, though the
-- primary has not heard of it; so if the primary is dead and this backup alive at the next tick, with
-- no Ping between them, the backup becomes primary.
pub promotes_unacknowledged_backup :
    (now later : ℕ) (o o' order order' : List String) (vs : ViewServer) (name : String)
    → vs.primary_acked ≡ true
    → is_empty vs.backup ≡ true
    → is_empty vs.primary ≡ false
    → is_empty name ≡ false
    → is_dead vs.primary (mark_dead now vs) ≡ false
    → pick o' vs.primary (mark_dead now vs) ≡ some name
    → let ws = check_failures_and_promote now o o' vs in
      is_dead vs.primary (mark_dead later ws) ≡ true
      → is_alive name (mark_dead later ws) ≡ true
      → (ws.view_number ≡ next_number vs.view_number)
        × (ws.primary ≡ vs.primary)
        × (ws.backup ≡ name)
        × (ws.primary_acked ≡ true)
        × ((check_failures_and_promote later order order' ws).primary ≡ name)
unfolding check_failures_and_promote mark_dead remove_from_idle is_dead is_alive
promotes_unacknowledged_backup now later o o' order order' vs name k b p n d c d' a =
    let e = stages_join o o' (mark_dead now vs) name k b p d c in
    let m' = mark_dead later (check_failures_and_promote now o o' vs) in
    let prim = ap (λ x. x.primary) e in
    let back = ap (λ x. x.backup) e in
    let acked = ap (λ x. x.primary_acked) e ∙ k in
    (
      ap (λ x. x.view_number) e,
      prim,
      back,
      acked,
      promote_backup later order order' _ acked (ap is_empty back ∙ n) (ap is_empty prim ∙ p)
            (ap (λ x. is_dead x m') prim ∙ d') (ap (λ x. is_alive x m') back ∙ a)
          ∙ back,
    )
