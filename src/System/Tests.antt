-- ===== src/System/Tests.antt =====
-- A small run of the view service with two servers (view/viewservice/server.go,
-- kv_server_main/kvserver/server.go).
use go_distributed_system_de.Base.{
  ℕ, ◌==◌, String, [], ◌∷◌, ◌≡◌, ◌≢◌, ◌⊎◌, refl, arith, zero, sym, ◌∙◌, str_eq_iff, if◌then◌else◌,
  occurs_first, lookup, insert, some, true, ◌+◌, Bool-cases, inl, inr,
}
use go_distributed_system_de.Views.{
  View, current_ref, ServerInfo, next_number, check_failures_and_promote,
}
use go_distributed_system_de.Views.Takeover.{Heard, view-ping}
use go_distributed_system_de.System.Takeover.{ticked, exchange, backup_takes_over}
use go_distributed_system_de.Views
use go_distributed_system_de.Views.Tests.{first_tick}
use go_distributed_system_de.Replica.{primary, ping_request, role_in, handle_view_change}
use go_distributed_system_de.Replica
use go_distributed_system_de.System.{
  World, start, change_server, connects, do_work, asked, written_out, heard, Reached, starts, ticks,
  asks, writes, hears, works,
}
use go_distributed_system_de.System.Primaries.{one_primary}
use go_distributed_system_de.System.Torn.{torn_exchange, torn_answer}

abbrev names : ℕ → String
names i = if i == 0 then "a" else "b"

-- The server "a" connects and pings, becomes primary at the tick, pings again and hears of it.
abbrev connected : World
connected = record (start names) {
  servers = change_server 0 (do_work connects ((start names).servers 0)) (start names).servers;
}

abbrev pinged : World
pinged = asked 0 "a" 0 100 connected

abbrev promoted : World
promoted = record pinged {
  views = check_failures_and_promote 200 ("a" ∷ []) ("a" ∷ []) pinged.views;
}

abbrev answered : World
answered = written_out current_ref (asked 0 "a" 0 300 promoted)

abbrev ready : World
ready = heard 0 (record { view_number = 1; primary = "a"; backup = "" }) answered

named : (i : ℕ) → names i ≢ ""
named i = elim (Bool-cases (i == 0)) [
  | inl e ↦ rw e (λ h. ground (arith, str_eq_iff "a" ""))
  | inr e ↦ rw e (λ h. ground (arith, str_eq_iff "b" ""))
]

ready-Reached : Reached names 1 ready
unfolding Views.ping
ready-Reached =
    hears {w = answered} 0 (record { view_number = 1; primary = "a"; backup = "" })
      (occurs_first (sym (view-ping "a" 0 300 promoted.views ∙ first_tick)))
      (writes {w = asked 0 "a" 0 300 promoted} current_ref (occurs_first refl) (
        asks 0 "a" 0 300 refl
          (ticks 200 ("a" ∷ []) ("a" ∷ []) (asks 0 "a" 0 100 refl (works 0 connects starts)))))

one_primary_example : zero ≡ zero
unfolding Replica.ping handle_view_change role_in
one_primary_example =
    one_primary names 1 ready 0 0 (λ e. refl) named (omega arith) ready-Reached refl refl refl

-- "a" was last heard of at 0 and "b" at 3 seconds, when "a" is missed.
abbrev missed : ℕ
missed = 3_000_000_000

abbrev old_view : View
old_view = record { view_number = 5; primary = "a"; backup = "b" }

abbrev information : String → ℕ → ServerInfo
information name at = record { name = name; last_ping_time = at; alive = true }

abbrev silent_primary : World
silent_primary = record {
  views = record Views.start_server {
    current_view = old_view;
    servers = ("a", information "a" 0) ∷ ("b", information "b" missed) ∷ [];
  };
  pending = [];
  sent = [];
  servers =
      λ i. record (Replica.start_server (names i)) { connected = true; current_view = old_view };
}

silent_primary-Heard : Heard missed silent_primary.views
unfolding lookup
silent_primary-Heard = record {
  silent = information "a" 0;
  of_primary = refl;
  too_long = omega arith;
  healthy = information "b" missed;
  of_backup = refl;
  alive = refl;
  in_time = omega arith;
}

backup_takes_over_example :
    let promoting = ticked missed [] [] silent_primary in
    let ready = exchange 1 "b" 5 (missed + 1) promoting in
    (ping_request (promoting.servers 1) ≡ some ("b", 5))
    × (ready.views.primary ≡ "b")
    × ((ready.servers 1).role ≡ primary)
    × (ping_request (ready.servers 1) ≡ some ("b", next_number 5))
    × ((asked 1 "b" (next_number 5) (missed + 2) ready).views.primary_acked ≡ true)
backup_takes_over_example =
    backup_takes_over silent_primary 1 missed (missed + 1) (missed + 2) [] []
      (λ e. ground (arith, str_eq_iff "a" "")) (λ e. ground (arith, str_eq_iff "b" "")) refl
      silent_primary-Heard refl refl refl

-- "a" leads in view 5; the backup "b" has not heard of the view yet.
abbrev late_backup : World
late_backup = record silent_primary {
  servers =
      change_server 0
        (record (Replica.start_server "a") {
          connected = true;
          current_view = old_view;
          role = primary;
        })
        (change_server 1 (Replica.start_server "b") silent_primary.servers);
}

late_backup-Heard : Heard missed (asked 1 "b" 0 missed late_backup).views
unfolding lookup insert Views.ping
late_backup-Heard = record {
  silent = information "a" 0;
  of_primary = refl;
  too_long = omega arith;
  healthy = information "b" missed;
  of_backup = refl;
  alive = refl;
  in_time = omega arith;
}

torn_answer_example :
    let old = late_backup.servers 1 in
    let torn = torn_exchange 1 "b" 0 missed missed [] [] late_backup in
    let new = torn.servers 1 in
    let other = torn.servers 0 in
    (new.current_view ≡ record { view_number = 5; primary = "b"; backup = "" })
    × (((old.current_view.view_number ≢ 5)
          × (new.role ≡ primary)
          × (other.role ≡ primary)
          × (other.current_view.view_number ≡ new.current_view.view_number))
        ⊎ ((old.current_view.view_number ≡ 5)
            × (new.role ≡ old.role)
            × (role_in new.me new.current_view ≡ primary)))
torn_answer_example =
    torn_answer late_backup 1 0 0 missed missed [] [] (λ e. ground (arith, str_eq_iff "a" ""))
      (λ e. ground (arith, str_eq_iff "b" "")) refl late_backup-Heard refl (λ e. ground (arith, e))
      refl refl refl
