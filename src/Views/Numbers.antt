-- ===== src/Views/Numbers.antt =====
-- View numbers count the changes of the view (view/viewservice/server.go).
use go_distributed_system_de.Base.{
  ℕ, ◌+◌, ◌^◌, ◌<◌, ◌≤◌, String, true, false, List, ◌≡◌, ◌⊎◌, arith, str_eq_iff,
}
use go_distributed_system_de.Views.{
  ViewServer, next_number, mark_dead, primary_stage, backup_stage, make_primary, assign_primary,
  make_backup, assign_backup, remove_from_idle, check_failures_and_promote, is_empty,
}

-- What each stage of a tick does to the view: nothing, or one change under the next number.
abbrev Bumped : ViewServer → ViewServer → Type 0
Bumped vs ws = ws.view_number ≡ next_number vs.view_number

primary_change :
    (vs : ViewServer)
    → (primary_stage vs ≡ vs)
      ⊎ (Bumped vs (primary_stage vs)
          × ((primary_stage vs).backup ≡ "")
          × (((primary_stage vs).primary_acked ≡ false) ⊎ ((primary_stage vs).primary ≡ "")))
unfolding primary_stage
primary_change vs = ground (arith, str_eq_iff vs.backup "")

backup_change :
    (vs : ViewServer)
    → (backup_stage vs ≡ vs)
      ⊎ ((is_empty vs.backup ≡ false)
          × Bumped vs (backup_stage vs)
          × ((backup_stage vs).primary ≡ vs.primary)
          × ((backup_stage vs).primary_acked ≡ vs.primary_acked))
unfolding backup_stage
backup_change vs = ground arith

assign_primary_change :
    (order : List String) (vs : ViewServer)
    → (assign_primary order vs ≡ vs)
      ⊎ ((is_empty vs.primary ≡ true)
          × (vs.primary_acked ≡ true)
          × Bumped vs (assign_primary order vs)
          × ((assign_primary order vs).primary_acked ≡ false))
unfolding assign_primary make_primary remove_from_idle
assign_primary_change order vs = ground arith

assign_backup_change :
    (order : List String) (vs : ViewServer)
    → (assign_backup order vs ≡ vs)
      ⊎ ((is_empty vs.primary ≡ false)
          × (vs.primary_acked ≡ true)
          × Bumped vs (assign_backup order vs)
          × ((assign_backup order vs).primary_acked ≡ true))
unfolding assign_backup make_backup remove_from_idle
assign_backup_change order vs = ground arith

empty : (s : String) → s ≡ "" → is_empty s ≡ true
empty s h = (str_eq_iff s "").1 h

next_number_lem : (n : ℕ) → n + 1 < 2 ^ 64 → next_number n ≡ n + 1
next_number_lem n h = omega arith

-- A tick changes the view at most twice: the number stays, and then the view is the same, or it
-- rises by one or two, as long as the number is not about to wrap around.
pub tick-AtMost :
    (now : ℕ) (order order' : List String) (vs : ViewServer)
    → vs.view_number + 2 < 2 ^ 64
    → let ws = check_failures_and_promote now order order' vs in
      (ws.current_view ≡ vs.current_view)
      ⊎ ((vs.view_number < ws.view_number) × (ws.view_number ≤ vs.view_number + 2))
unfolding check_failures_and_promote mark_dead
tick-AtMost now order order' vs h =
    let m = mark_dead now vs in
    let p = primary_stage m in
    let b = backup_stage p in
    let a = assign_primary order b in
    ground (
      arith,
      primary_change m,
      backup_change p,
      assign_primary_change order b,
      assign_backup_change order' a,
      empty p.backup,
      empty p.primary,
      empty b.primary,
    )
