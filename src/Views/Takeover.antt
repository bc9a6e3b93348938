-- ===== src/Views/Takeover.antt =====
-- A dead primary is replaced by its backup (view/viewservice/server.go).
use Prim.Native.Nat.{◌-◌}
use go_distributed_system_de.Base.{
  ℕ, ◌<◌, ◌≤◌, String, true, false, not, List, [], ◌∷◌, none, some, ◌≡◌, ◌≢◌, refl, arith, ap, ◌∙◌,
  Map, lookup, string_eq, str_eq_iff,
}
use go_distributed_system_de.Views.{
  ViewServer, ServerInfo, dead_interval, next_number, mark, mark_all, mark_dead, primary_stage,
  backup_stage, assign_primary, assign_backup, check_failures_and_promote, is_empty, is_dead,
  is_alive, info_alive, info_dead, ping, note_ack, note_ping,
}

lookup-mark_all :
    (now : ℕ) (name : String) (info : ServerInfo) (servers : Map String ServerInfo)
    → lookup name servers ≡ some info
    → lookup name (mark_all now servers) ≡ some (mark now info)
unfolding mark_all lookup
lookup-mark_all now name info [] h = absurd (ground arith)
lookup-mark_all now name info ((x, i) ∷ servers) h =
    ground (arith, lookup-mark_all now name info servers)

-- The times at which the view service last heard of two servers.
pub record Heard (now : ℕ) (vs : ViewServer) : Type 0 where
  pub silent : ServerInfo
  pub of_primary : lookup vs.primary vs.servers ≡ some silent
  pub too_long : dead_interval < now - silent.last_ping_time
  pub healthy : ServerInfo
  pub of_backup : lookup vs.backup vs.servers ≡ some healthy
  pub alive : healthy.alive ≡ true
  pub in_time : now - healthy.last_ping_time ≤ dead_interval

mark_silent :
    (now : ℕ) (info : ServerInfo)
    → dead_interval < now - info.last_ping_time
    → (mark now info).alive ≡ false
unfolding mark
mark_silent now info h = ground arith

mark_healthy :
    (now : ℕ) (info : ServerInfo)
    → now - info.last_ping_time ≤ dead_interval
    → info.alive ≡ true
    → (mark now info).alive ≡ true
unfolding mark
mark_healthy now info h a = ground arith

-- The next view, in which the backup leads alone.
abbrev pub promoted : ViewServer → ViewServer
promoted vs = record vs {
  current_view = record {
    view_number = next_number vs.view_number;
    primary = vs.backup;
    backup = "";
  };
  primary_acked = false;
}

primary_stage-promoted :
    (vs : ViewServer)
    → is_empty vs.primary ≡ false
    → is_empty vs.backup ≡ false
    → vs.primary_acked ≡ true
    → is_dead vs.primary vs ≡ true
    → is_alive vs.backup vs ≡ true
    → primary_stage vs ≡ promoted vs
unfolding primary_stage is_dead is_alive
primary_stage-promoted vs p b a d l = rw (p, b, a, d, l) refl

unacked_stages :
    (order order' : List String) (vs : ViewServer)
    → is_empty vs.backup ≡ true
    → vs.primary_acked ≡ false
    → assign_backup order' (assign_primary order (backup_stage vs)) ≡ vs
unfolding backup_stage assign_primary assign_backup
unacked_stages order order' vs b a = ground arith

not_empty : (s : String) → s ≢ "" → is_empty s ≡ false
not_empty s h = ground (arith, str_eq_iff s "")

tick-promoted :
    (now : ℕ) (order order' : List String) (vs : ViewServer)
    → vs.primary ≢ ""
    → vs.backup ≢ ""
    → vs.primary_acked ≡ true
    → Heard now vs
    → check_failures_and_promote now order order' vs ≡ promoted (mark_dead now vs)
unfolding check_failures_and_promote mark_dead is_dead is_alive
tick-promoted now order order' vs p b a h =
    let m = mark_dead now vs in
    let d : is_dead vs.primary m ≡ true =
      ap info_dead (lookup-mark_all now vs.primary h.silent vs.servers h.of_primary)
      ∙ ap not (mark_silent now h.silent h.too_long) in
    let l : is_alive vs.backup m ≡ true =
      ap info_alive (lookup-mark_all now vs.backup h.healthy vs.servers h.of_backup)
      ∙ mark_healthy now h.healthy h.in_time h.alive in
    ap (λ ws. assign_backup order' (assign_primary order (backup_stage ws)))
      (primary_stage-promoted m (not_empty vs.primary p) (not_empty vs.backup b) a d l)
    ∙ unacked_stages order order' (promoted m) refl refl

-- When the primary has acknowledged its view and has then been silent for more than the dead
-- interval, and the backup has not, the tick makes the backup the primary of the next view.
pub tick_promotes :
    (now : ℕ) (order order' : List String) (vs : ViewServer)
    → vs.primary ≢ ""
    → vs.backup ≢ ""
    → vs.primary_acked ≡ true
    → Heard now vs
    → (check_failures_and_promote now order order' vs).current_view
      ≡ record { view_number = next_number vs.view_number; primary = vs.backup; backup = "" }
unfolding mark_dead
tick_promotes now order order' vs p b a h =
    ap (λ ws. ws.current_view) (tick-promoted now order order' vs p b a h)

pub view-ping :
    (name : String) (number now : ℕ) (vs : ViewServer)
    → (ping name number now vs).1.current_view ≡ vs.current_view
unfolding ping note_ack note_ping
view-ping name number now vs = elim (lookup name vs.servers) [
  | none ↦ ground arith
  | some info ↦ ground arith
]

-- No Ping takes an acknowledgement back.
pub ping_keeps_ack :
    (name : String) (number now : ℕ) (vs : ViewServer)
    → vs.primary_acked ≡ true
    → (ping name number now vs).1.primary_acked ≡ true
unfolding ping note_ack note_ping
ping_keeps_ack name number now vs a = elim (lookup name vs.servers) [
  | none ↦ ground arith
  | some info ↦ ground arith
]

-- A Ping of the primary with the number of the view acknowledges it.
pub ping_acks :
    (name : String) (number now : ℕ) (vs : ViewServer)
    → vs.primary ≡ name
    → vs.view_number ≡ number
    → (ping name number now vs).1.primary_acked ≡ true
unfolding ping note_ack note_ping
ping_acks name number now vs p n = elim (lookup name vs.servers) [
  | none ↦ ground (arith, str_eq_iff name vs.primary)
  | some info ↦ ground (arith, str_eq_iff name vs.primary)
]
