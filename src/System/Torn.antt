-- ===== src/System/Torn.antt =====
-- An answer that is written out around a tick (view/viewservice/server.go,
-- kv_server_main/kvserver/server.go).
use go_distributed_system_de.Base.{
  ℕ, ◌==◌, ==_iff, String, true, false, List, some, ◌≡◌, ◌≢◌, ◌⊎◌, inl, inr, refl, arith, ap, ◌∙◌,
  sym, Bool-cases,
}
use go_distributed_system_de.Views.{View, marshal, check_failures_and_promote}
use go_distributed_system_de.Views
use go_distributed_system_de.Views.Takeover.{Heard, tick_promotes, view-ping, ping_keeps_ack}
use go_distributed_system_de.Replica.{KvServer, primary, role_in, ping}
use go_distributed_system_de.Replica.Roles.{ping_rest, ping_new}
use go_distributed_system_de.System.{World, change_server, asked, heard}
use go_distributed_system_de.System.Takeover.{ticked, server_changed, primary-role_in}

-- The number of the answer is read before the tick, its primary and its backup after it.
abbrev pub torn_exchange : ℕ → String → ℕ → ℕ → ℕ → List String → List String → World → World
torn_exchange i name number at now order order' w =
    let (ref, vs) = Views.ping name number at w.views in
    let later = ticked now order order' (asked i name number at w) in
    heard i (marshal ref vs later.views later.views) later

other_kept :
    (i j : ℕ) (kv : KvServer) (servers : ℕ → KvServer)
    → j ≢ i
    → change_server i kv servers j ≡ servers j
other_kept i j kv servers h = ground (arith, ==_iff j i)

ping_same :
    (view : View) (kv : KvServer)
    → (kv.current_view.view_number == view.view_number) ≡ true
    → (ping (some view) kv).1.role ≡ kv.role
unfolding ping
ping_same view kv h = rw h refl

same_fields :
    {v : View} {n : ℕ} {primary' backup' : String}
    → v.view_number ≡ n
    → v.primary ≡ primary'
    → v.backup ≡ backup'
    → v ≡ record { view_number = n; primary = primary'; backup = backup' }
same_fields a b c = λ k. record { view_number = a k; primary = b k; backup = c k }

differs : (k m n : ℕ) → m ≡ n → (k == m) ≡ false → k ≢ n
differs k m n e h = λ q. ground (arith, ==_iff k m, e, q)

-- The Ping of a server with the backup's name comes before a tick that replaces the primary, and its
-- answer is written out around that tick: the number before it, the rest after it. The primary
-- had acknowledged its view and has then been silent for more than the dead interval, the backup has
-- not; another server with the primary's name has the role primary in that view. Then the answer
-- has the old number with the backup as primary. If the server named the backup held a view of
-- another number, it is now primary in a view of the old number, and so is the old primary; if it
-- held one of the old number, it keeps its role, though its new view makes it the primary.
pub torn_answer :
    (w : World) (i j number at now : ℕ) (order order' : List String)
    → w.views.primary ≢ ""
    → w.views.backup ≢ ""
    → w.views.primary_acked ≡ true
    → Heard now (asked i w.views.backup number at w).views
    → (w.servers i).me ≡ w.views.backup
    → j ≢ i
    → (w.servers j).me ≡ w.views.primary
    → (w.servers j).role ≡ primary
    → (w.servers j).current_view ≡ w.views.current_view
    → let name = w.views.backup in
      let n = w.views.view_number in
      let old = w.servers i in
      let torn = torn_exchange i name number at now order order' w in
      let new = torn.servers i in
      let other = torn.servers j in
      (new.current_view ≡ record { view_number = n; primary = name; backup = "" })
      × (((old.current_view.view_number ≢ n)
            × (new.role ≡ primary)
            × (other.role ≡ primary)
            × (other.current_view.view_number ≡ new.current_view.view_number))
          ⊎ ((old.current_view.view_number ≡ n)
              × (new.role ≡ old.role)
              × (role_in new.me new.current_view ≡ primary)))
torn_answer w i j number at now order order' p b a h me d you r c =
    let name = w.views.backup in
    let n = w.views.view_number in
    let kv = w.servers i in
    let vs = (Views.ping name number at w.views).1 in
    let before : vs.current_view ≡ w.views.current_view = view-ping name number at w.views in
    let after =
      tick_promotes now order order' vs (λ e. p (sym (ap (λ v. v.primary) before) ∙ e))
        (λ e. b (sym (ap (λ v. v.backup) before) ∙ e)) (ping_keeps_ack name number at w.views a)
        h in
    let later = check_failures_and_promote now order order' vs in
    let answer = marshal (Views.ping name number at w.views).0 vs later later in
    let torn : answer ≡ record { view_number = n; primary = name; backup = "" } =
      same_fields (ap (λ v. v.view_number) before)
        (ap (λ v. v.primary) after ∙ ap (λ v. v.backup) before) (ap (λ v. v.backup) after) in
    let new = (ping (some answer) kv).1 in
    let changed = server_changed i new w.servers in
    let other = other_kept i j new w.servers d in
    let (same, hears) = ping_rest answer kv in
    let leads : role_in kv.me answer ≡ primary =
      primary-role_in kv.me answer (ap (λ v. v.primary) torn ∙ sym me) in
    (
      ap (λ s. s.current_view) changed ∙ hears ∙ torn,
      elim (Bool-cases (kv.current_view.view_number == answer.view_number)) [
        | inl e ↦ inr (
          (==_iff _ _).0 e ∙ ap (λ v. v.view_number) torn,
          ap (λ s. s.role) changed ∙ ping_same answer kv e,
          ap (λ s. role_in s.me s.current_view) changed
              ∙ ap (λ m. role_in m new.current_view) same
              ∙ ap (role_in kv.me) hears
              ∙ leads,
        )
        | inr e ↦ inl (
          differs kv.current_view.view_number answer.view_number n (ap (λ v. v.view_number) torn) e,
          ap (λ s. s.role) changed ∙ (ping_new answer kv e).0 ∙ leads,
          ap (λ s. s.role) other ∙ r,
          ap (λ s. s.current_view.view_number) other
              ∙ ap (λ v. v.view_number) c
              ∙ sym (
                  ap (λ s. s.current_view.view_number) changed
                  ∙ ap (λ v. v.view_number) (hears ∙ torn)),
        )
      ],
    )
