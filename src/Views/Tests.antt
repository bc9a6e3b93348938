-- ===== src/Views/Tests.antt =====
-- Small runs of the view service (view/viewservice/server.go).
use go_distributed_system_de.Base.{
  ◌*◌, String, true, false, List, [], ◌∷◌, ◌≡◌, ◌⊎◌, refl, lookup, insert,
}
use go_distributed_system_de.Views.{
  ViewServer, ping, start_server, next_number, check_failures_and_promote, mark_dead, is_dead,
  is_alive, pick, assign_backup, assign_primary, backup_stage, primary_stage, remove_from_idle,
}
use go_distributed_system_de.Views.Roles.{WellFormed, Event, pings, ticks, run, run-WellFormed}
use go_distributed_system_de.Views.Acks.{tick_unacked}
use go_distributed_system_de.Views.Joins.{promotes_unacknowledged_backup}

abbrev events : List Event
events =
    pings "a" 0 100
    ∷ ticks 200 ("a" ∷ []) ("a" ∷ [])
    ∷ pings "b" 0 300
    ∷ pings "a" 1 400
    ∷ ticks 500 ("a" ∷ "b" ∷ []) ("a" ∷ "b" ∷ [])
    ∷ []

run-WellFormed_example : WellFormed (run start_server events).current_view
run-WellFormed_example = run-WellFormed events

-- "a" is primary, and has pinged at 0; "b" is idle, and has pinged at 1400 ms.
abbrev acked : ViewServer
acked = record {
  current_view = record { view_number = 1; primary = "a"; backup = "" };
  servers =
      ("a", record { name = "a"; last_ping_time = 0; alive = true })
      ∷ ("b", record { name = "b"; last_ping_time = 1400 * 1_000_000; alive = true })
      ∷ [];
  idle_servers = "b" ∷ [];
  primary_acked = true;
  dead = false;
}

abbrev waiting : ViewServer
waiting = record acked { primary_acked = false }

tick_unacked_example :
    let ws = check_failures_and_promote 5 [] [] waiting in
    (ws.current_view ≡ waiting.current_view)
    ⊎ ((ws.primary ≡ waiting.primary)
        × (ws.backup ≡ "")
        × (is_dead waiting.backup (mark_dead 5 waiting) ≡ true)
        × (ws.primary_acked ≡ false))
tick_unacked_example = tick_unacked 5 [] [] waiting refl

abbrev order : List String
order = "a" ∷ "b" ∷ []

promotes_unacknowledged_backup_example :
    let ws = check_failures_and_promote (1450 * 1_000_000) order order acked in
    (ws.view_number ≡ next_number 1)
    × (ws.primary ≡ "a")
    × (ws.backup ≡ "b")
    × (ws.primary_acked ≡ true)
    × ((check_failures_and_promote (1950 * 1_000_000) order order ws).primary ≡ "b")
unfolding is_dead is_alive lookup mark_dead pick check_failures_and_promote assign_backup
    assign_primary backup_stage primary_stage remove_from_idle
promotes_unacknowledged_backup_example =
    promotes_unacknowledged_backup (1450 * 1_000_000) (1950 * 1_000_000) order order order order
      acked "b" refl refl refl refl refl refl refl refl

-- The first server that pings becomes primary at the next tick.
pub first_tick :
    (check_failures_and_promote 200
      ("a" ∷ [])
      ("a" ∷ [])
      (ping "a" 0 100 start_server).1).current_view
    ≡ record { view_number = 1; primary = "a"; backup = "" }
unfolding check_failures_and_promote mark_dead primary_stage backup_stage assign_primary
    assign_backup ping lookup is_dead is_alive pick insert remove_from_idle
first_tick = refl
