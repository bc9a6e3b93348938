-- ===== src/Replica/Life.antt =====
-- The life of a key-value server (`StartServer`, `connectToViewService`, `pingLoop` and `Kill` of
-- kv_server_main/kvserver/server.go, the main function of kv_server_main/kv_server_main.go).
use go_distributed_system_de.Base.{
  String, Bool, true, false, not, List, [], ◌∷◌, Option, none, some, if◌then◌else◌, ◌≡◌, refl, ◌⊎◌,
  inl, inr, arith, ap, ◌∙◌, subst,
}
use go_distributed_system_de.Views.{View}
use go_distributed_system_de.Replica.{
  Role, KvServer, start_server, connect_to_view_service, ping, handle_view_change, note_backup,
  kill,
}

-- What happens in the loops of a server: a dial of the view service has ended well, or it has failed
-- and the second's sleep after it is over; the clock asks for a Ping, which is answered or not; or
-- the signal comes upon which `main` calls Kill.
pub data LifeEvent : Type 0 where
  dialled : Bool → LifeEvent
  beats : Option View → LifeEvent
  interrupted : LifeEvent

-- Which of the two loops run, with the server.
pub record Life : Type 0 where
  pub connecting : Bool
  pub pinging : Bool
  pub kv : KvServer

-- Both loops look at `dead` only before they dial or wait.
unfoldable pub dial : Bool → Life → Life
dial went_well l =
    if l.connecting
    then (if went_well
        then record l { connecting = false; kv = connect_to_view_service l.kv }
        else record l { connecting = not l.kv.dead })
    else l

-- A Ping needs a connection.
abbrev pub ping_connected : Option View → KvServer → KvServer
ping_connected answer kv = if kv.connected then (ping answer kv).1 else kv

unfoldable pub beat : Option View → Life → Life
beat answer l =
    let kv' = ping_connected answer l.kv in
    if l.pinging then record l { pinging = not kv'.dead; kv = kv' } else l

unfoldable pub live : List LifeEvent → Life → Life
live [] l = l
live (dialled went_well ∷ events) l = live events (dial went_well l)
live (beats answer ∷ events) l = live events (beat answer l)
live (interrupted ∷ events) l = live events (record l { kv = kill l.kv })

-- `main`: the server ends at once when it cannot listen.
abbrev pub run_server : Bool → String → List LifeEvent → Option Life
run_server false name events = none
run_server true name events =
    some (live events (record { connecting = true; pinging = true; kv = start_server name }))

-- The view and the role.
abbrev pub standing : KvServer → View × Role
standing kv = (kv.current_view, kv.role)

dead-ping : (answer : Option View) (kv : KvServer) → (ping answer kv).1.dead ≡ kv.dead
unfolding ping handle_view_change note_backup
dead-ping none kv = refl
dead-ping (some view) kv = ground arith

dead-ping_connected :
    (answer : Option View) (kv : KvServer) → (ping_connected answer kv).dead ≡ kv.dead
dead-ping_connected answer kv = ground (arith, dead-ping answer kv)

-- A dial leaves the view, the role and `dead` alone.
dial_rest :
    (went_well : Bool) (l : Life)
    → let l' = dial went_well l in
      (standing l'.kv ≡ standing l.kv) × (l'.kv.dead ≡ l.kv.dead) × (l'.pinging ≡ l.pinging)
unfolding dial
dial_rest went_well l = ground arith

beat_cases :
    (answer : Option View) (l : Life)
    → (standing (beat answer l).kv ≡ standing l.kv)
      ⊎ (standing (beat answer l).kv ≡ standing (ping answer l.kv).1)
unfolding beat
beat_cases answer l = ground arith

beat_last : (answer : Option View) (l : Life) → l.kv.dead ≡ true → (beat answer l).pinging ≡ false
unfolding beat
beat_last answer l h = ground (arith, dead-ping_connected answer l.kv)

beat_stopped : (answer : Option View) (l : Life) → l.pinging ≡ false → beat answer l ≡ l
unfolding beat
beat_stopped answer l h = rw h refl

-- Without its ping loop a server keeps its view and its role.
stopped_standing :
    (events : List LifeEvent) (l : Life)
    → l.pinging ≡ false
    → standing (live events l).kv ≡ standing l.kv
unfolding live
stopped_standing [] l h = refl
stopped_standing (dialled went_well ∷ events) l h =
    let (same, dead, pinging) = dial_rest went_well l in
    stopped_standing events (dial went_well l) (pinging ∙ h) ∙ same
stopped_standing (beats answer ∷ events) l h =
    ap (λ m. standing (live events m).kv) (beat_stopped answer l h) ∙ stopped_standing events l h
stopped_standing (interrupted ∷ events) l h =
    stopped_standing events (record l { kv = kill l.kv }) h

-- The view and the role are as before, or one answer has changed them.
abbrev pub OneAnswer : View × Role → View × Role → Type 0
OneAnswer before after =
    (after ≡ before)
    ⊎ ((answer : Option View) × (us : KvServer) × (standing us ≡ before)
        × (after ≡ standing (ping answer us).1))

-- After Kill at most one answer of the view service still changes the view and the role, whatever
-- comes then: `pingLoop` looks whether the server is dead before it waits for the clock.
pub live-OneAnswer :
    (events : List LifeEvent) (l : Life)
    → l.kv.dead ≡ true
    → OneAnswer (standing l.kv) (standing (live events l).kv)
unfolding live
live-OneAnswer [] l h = inl refl
live-OneAnswer (dialled went_well ∷ events) l h =
    let (same, dead, pinging) = dial_rest went_well l in
    subst (λ v. OneAnswer v (standing (live events (dial went_well l)).kv)) same
      (live-OneAnswer events (dial went_well l) (dead ∙ h))
live-OneAnswer (beats answer ∷ events) l h =
    let last = stopped_standing events (beat answer l) (beat_last answer l h) in
    elim (beat_cases answer l) [
      | inl e ↦ inl (last ∙ e)
      | inr e ↦ inr (answer, l.kv, refl, last ∙ e)
    ]
live-OneAnswer (interrupted ∷ events) l h = live-OneAnswer events (record l { kv = kill l.kv }) refl
