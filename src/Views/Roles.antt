-- ===== src/Views/Roles.antt =====
-- Who gets the roles (view/viewservice/server.go).
use go_distributed_system_de.Base.{
  ℕ, String, true, false, not, ◌&&◌, List, [], ◌∷◌, Option, none, some, ◌≡◌, ◌≢◌, refl, sym, subst,
  ◌⊎◌, inl, inr, arith, str_eq, str_eq_iff, Bool-cases,
}
use go_distributed_system_de.Views.{
  View, ViewServer, mark_dead, primary_stage, backup_stage, pick, make_primary, assign_primary,
  make_backup, assign_backup, remove_from_idle, check_failures_and_promote, is_empty, ping,
  is_alive, start_server,
}

-- The backup is another server than the primary, and there is no backup without a primary.
abbrev pub WellFormed : View → Type 0
WellFormed v = (v.backup ≡ "") ⊎ ((v.primary ≢ v.backup) × (v.primary ≢ ""))

pub pick-alive :
    (order : List String) (taken name : String) (vs : ViewServer)
    → pick order taken vs ≡ some name
    → (is_alive name vs ≡ true) × (str_eq name taken ≡ false)
unfolding pick
pick-alive [] taken name vs h = absurd (ground arith)
pick-alive (x ∷ order) taken name vs h = ground (arith, pick-alive order taken name vs)

primary_stage-WellFormed :
    (vs : ViewServer) → WellFormed vs.current_view → WellFormed (primary_stage vs).current_view
unfolding primary_stage
primary_stage-WellFormed vs h = ground (arith, str_eq_iff vs.backup "")

backup_stage-WellFormed :
    (vs : ViewServer) → WellFormed vs.current_view → WellFormed (backup_stage vs).current_view
unfolding backup_stage
backup_stage-WellFormed vs h = ground arith

make_primary-WellFormed :
    (o : Option String) (vs : ViewServer)
    → vs.primary ≡ ""
    → WellFormed vs.current_view
    → WellFormed (make_primary o vs).current_view
unfolding make_primary remove_from_idle
make_primary-WellFormed none vs p h = h
make_primary-WellFormed (some name) vs p (inl e) = inl e
make_primary-WellFormed (some name) vs p (inr e) = absurd (e.1 p)

make_backup-WellFormed :
    (o : Option String) (vs : ViewServer)
    → vs.primary ≢ ""
    → ((name : String) → o ≡ some name → str_eq name vs.primary ≡ false)
    → WellFormed vs.current_view
    → WellFormed (make_backup o vs).current_view
unfolding make_backup remove_from_idle
make_backup-WellFormed none vs p q h = h
make_backup-WellFormed (some name) vs p q h =
    inr ((λ e. ground (arith, q name refl, str_eq_iff name vs.primary)), p)

assign_primary-WellFormed :
    (order : List String) (vs : ViewServer)
    → WellFormed vs.current_view
    → WellFormed (assign_primary order vs).current_view
unfolding assign_primary
assign_primary-WellFormed order vs h = elim (Bool-cases (is_empty vs.primary && vs.primary_acked)) [
  | inl e ↦ rw e (
      make_primary-WellFormed (pick order vs.backup vs) vs
        ((str_eq_iff vs.primary "").0 (ground arith)) h)
  | inr e ↦ rw e h
]

assign_backup-WellFormed :
    (order : List String) (vs : ViewServer)
    → WellFormed vs.current_view
    → WellFormed (assign_backup order vs).current_view
unfolding assign_backup
assign_backup-WellFormed order vs h =
    elim (Bool-cases (is_empty vs.backup && not (is_empty vs.primary) && vs.primary_acked)) [
      | inl e ↦ rw e (
          make_backup-WellFormed (pick order vs.primary vs) vs
            (λ p. ground (arith, str_eq_iff vs.primary ""))
            (λ name q. (pick-alive order vs.primary name vs q).1) h)
      | inr e ↦ rw e h
    ]

-- In whatever orders its loops visit the servers, a tick keeps the primary and the backup distinct,
-- and a backup only beside a primary; a Ping does not change the view.
pub tick-WellFormed :
    (now : ℕ) (order order' : List String) (vs : ViewServer)
    → WellFormed vs.current_view
    → WellFormed (check_failures_and_promote now order order' vs).current_view
unfolding check_failures_and_promote mark_dead
tick-WellFormed now order order' vs h = assign_backup-WellFormed order' _ (
    assign_primary-WellFormed order _
      (backup_stage-WellFormed _ (primary_stage-WellFormed (mark_dead now vs) h)))

-- What the view service is sent and what its clock makes it do.
pub data Event : Type 0 where
  pings : String → ℕ → ℕ → Event
  ticks : ℕ → List String → List String → Event

pub step : ViewServer → Event → ViewServer
step vs (pings name number now) = (ping name number now vs).1
step vs (ticks now order order') = check_failures_and_promote now order order' vs

pub run : ViewServer → List Event → ViewServer
run vs [] = vs
run vs (e ∷ es) = run (step vs e) es

pub view-ping :
    (name : String) (number now : ℕ) (vs : ViewServer)
    → (ping name number now vs).1.current_view ≡ vs.current_view
unfolding ping
view-ping name number now vs = ground arith

step-WellFormed :
    (vs : ViewServer) (e : Event) → WellFormed vs.current_view → WellFormed (step vs e).current_view
unfolding step
step-WellFormed vs (pings name number now) h =
    subst WellFormed (sym (view-ping name number now vs)) h
step-WellFormed vs (ticks now order order') h = tick-WellFormed now order order' vs h

run_from-WellFormed :
    (vs : ViewServer) (es : List Event)
    → WellFormed vs.current_view
    → WellFormed (run vs es).current_view
unfolding run
run_from-WellFormed vs [] h = h
run_from-WellFormed vs (e ∷ es) h = run_from-WellFormed (step vs e) es (step-WellFormed vs e h)

-- After any pings and ticks from the start, in whatever orders the ticks visit the servers, the
-- backup of the view is another server than its primary, and there is no backup without a primary.
pub run-WellFormed : (es : List Event) → WellFormed (run start_server es).current_view
run-WellFormed es = run_from-WellFormed start_server es (inl refl)
