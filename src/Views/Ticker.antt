-- ===== src/Views/Ticker.antt =====
-- The life of the view service (`StartServer`, `ticker` and `Kill` of view/viewservice/server.go, the
-- main function of view/view_server.go).
use go_distributed_system_de.Base.{
  ℕ, String, Bool, true, false, List, [], ◌∷◌, Option, none, some, if◌then◌else◌, ◌≡◌, refl, ◌⊎◌,
  inl, inr, arith, ap, subst, ◌∙◌, lookup, string_eq,
}
use go_distributed_system_de.Views.{
  View, ViewServer, start_server, ping, kill, check_failures_and_promote, mark_dead, primary_stage,
  backup_stage, assign_primary, make_primary, assign_backup, make_backup, remove_from_idle,
  note_ack, note_ping,
}
use go_distributed_system_de.Views.Takeover.{view-ping}

-- What happens to the service, in order: a Ping, a tick of the clock with the orders of the two
-- visits, or the signal upon which `main` calls Kill.
pub data ServiceEvent : Type 0 where
  pings : String → ℕ → ℕ → ServiceEvent
  clock : ℕ → List String → List String → ServiceEvent
  interrupted : ServiceEvent

-- `ticker` looks at `dead` only before it waits for the clock: `waiting` is whether it waits or has
-- ended.
unfoldable pub ticker : Bool → ℕ → List String → List String → ViewServer → Bool × ViewServer
ticker false now order order' vs = (false, vs)
ticker true now order order' vs =
    let vs' = check_failures_and_promote now order order' vs in
    ((if vs'.dead then false else true), vs')

unfoldable pub serve_event : ServiceEvent → Bool × ViewServer → Bool × ViewServer
serve_event (pings name number now) (waiting, vs) = (waiting, (ping name number now vs).1)
serve_event (clock now order order') (waiting, vs) = ticker waiting now order order' vs
serve_event interrupted (waiting, vs) = (waiting, kill vs)

unfoldable pub serve_events : List ServiceEvent → Bool × ViewServer → Bool × ViewServer
serve_events [] s = s
serve_events (event ∷ events) s = serve_events events (serve_event event s)

-- `main`: the service ends at once when it cannot listen.
abbrev pub run_service : Bool → List ServiceEvent → Option (Bool × ViewServer)
run_service false events = none
run_service true events = some (serve_events events (true, start_server))

dead-primary_stage : (vs : ViewServer) → (primary_stage vs).dead ≡ vs.dead
unfolding primary_stage
dead-primary_stage vs = ground arith

dead-backup_stage : (vs : ViewServer) → (backup_stage vs).dead ≡ vs.dead
unfolding backup_stage
dead-backup_stage vs = ground arith

dead-assign_primary :
    (order : List String) (vs : ViewServer) → (assign_primary order vs).dead ≡ vs.dead
unfolding assign_primary make_primary remove_from_idle
dead-assign_primary order vs = ground arith

dead-assign_backup :
    (order : List String) (vs : ViewServer) → (assign_backup order vs).dead ≡ vs.dead
unfolding assign_backup make_backup remove_from_idle
dead-assign_backup order vs = ground arith

dead-check :
    (now : ℕ) (order order' : List String) (vs : ViewServer)
    → (check_failures_and_promote now order order' vs).dead ≡ vs.dead
unfolding check_failures_and_promote mark_dead
dead-check now order order' vs =
    let p = primary_stage (mark_dead now vs) in
    let b = backup_stage p in
    dead-assign_backup order' (assign_primary order b)
    ∙ dead-assign_primary order b
    ∙ dead-backup_stage p
    ∙ dead-primary_stage (mark_dead now vs)

dead-ping :
    (name : String) (number now : ℕ) (vs : ViewServer) → (ping name number now vs).1.dead ≡ vs.dead
unfolding ping note_ack note_ping
dead-ping name number now vs = elim (lookup name vs.servers) [
  | none ↦ ground arith
  | some info ↦ ground arith
]

-- Without its ticker the service never changes the view.
stopped_view :
    (events : List ServiceEvent) (vs : ViewServer)
    → (serve_events events (false, vs)).1.current_view ≡ vs.current_view
unfolding serve_events serve_event ticker kill
stopped_view [] vs = refl
stopped_view (pings name number now ∷ events) vs =
    stopped_view events (ping name number now vs).1 ∙ view-ping name number now vs
stopped_view (clock now order order' ∷ events) vs = stopped_view events vs
stopped_view (interrupted ∷ events) vs = stopped_view events (record vs { dead = true })

-- The view is as before, or one tick has changed it.
abbrev pub OneTick : View → View → Type 0
OneTick before after =
    (after ≡ before)
    ⊎ ((now : ℕ) × (order : List String) × (order' : List String) × (us : ViewServer)
        × (us.current_view ≡ before)
        × (after ≡ (check_failures_and_promote now order order' us).current_view))

OneTick-from : (a b c : View) → a ≡ b → OneTick a c → OneTick b c
OneTick-from a b c e h = subst (λ v. OneTick v c) e h

-- After Kill the view changes by at most one tick, whatever comes then: the loop looks whether the
-- service is dead before it waits for the clock, so the tick that it waits for is still made.
pub serve_events-OneTick :
    (events : List ServiceEvent) (vs : ViewServer)
    → vs.dead ≡ true
    → OneTick vs.current_view (serve_events events (true, vs)).1.current_view
unfolding serve_events serve_event ticker kill
serve_events-OneTick [] vs h = inl refl
serve_events-OneTick (pings name number now ∷ events) vs h =
    let vs' = (ping name number now vs).1 in
    OneTick-from vs'.current_view vs.current_view _ (view-ping name number now vs)
      (serve_events-OneTick events vs' (dead-ping name number now vs ∙ h))
serve_events-OneTick (clock now order order' ∷ events) vs h =
    let vs' = check_failures_and_promote now order order' vs in
    inr (
      now,
      order,
      order',
      vs,
      refl,
      ap (λ d. (serve_events events ((if d then false else true), vs')).1.current_view)
            (dead-check now order order' vs ∙ h)
          ∙ stopped_view events vs',
    )
serve_events-OneTick (interrupted ∷ events) vs h =
    serve_events-OneTick events (record vs { dead = true }) refl
