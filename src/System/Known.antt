-- ===== src/System/Known.antt =====
-- All the views that the servers and the messages hold (view/viewservice/server.go,
-- kv_server_main/kvserver/server.go).
use go_distributed_system_de.Base.{
  ℕ, suc, ◌==◌, ◌*◌, ◌^◌, ◌<◌, ◌≤◌, String, List, Occurs, occurs_cases, if◌then◌else◌, ◌≡◌, ◌⊎◌,
  refl, inl, inr, arith, Bool-cases, ap, sym, subst, ◌∙◌,
}
use go_distributed_system_de.Views.{View, ViewRef, ViewServer, check_failures_and_promote}
use go_distributed_system_de.Views
use go_distributed_system_de.Views.Numbers.{tick-AtMost}
use go_distributed_system_de.Views.Roles.{view-ping}
use go_distributed_system_de.Replica.{KvServer}
use go_distributed_system_de.System.{World, asked, written_out, change_server}

-- Where a view may stand.
pub data Known (w : World) (v : View) : Type 0 where
  current : v ≡ w.views.current_view → Known w v
  in_flight : Occurs v w.sent → Known w v
  held : (i : ℕ) → v ≡ (w.servers i).current_view → Known w v

-- No two of them share a number, and none is newer than the view service's.
pub record Ordered (n : ℕ) (w : World) : Type 0 where
  pub unique : (v v' : View) → Known w v → Known w v' → v.view_number ≡ v'.view_number → v ≡ v'
  pub newest : (v : View) → Known w v → v.view_number ≤ w.views.view_number
  pub few : w.views.view_number ≤ n * 2

-- Fewer views, of the same service.
pub kept-Ordered :
    (n : ℕ) (w w' : World)
    → w'.views.current_view ≡ w.views.current_view
    → ((v : View) → Known w' v → Known w v)
    → Ordered n w
    → Ordered n w'
kept-Ordered n w w' e k o = record {
  unique = λ v v' a b. o.unique v v' (k v a) (k v' b);
  newest = λ v a. rw e (o.newest v (k v a));
  few = rw e o.few;
}

newer_unique :
    (n : ℕ) (w w' : World)
    → w.views.view_number < w'.views.view_number
    → Ordered n w
    → (v v' : View) → (v ≡ w'.views.current_view) ⊎ Known w v
    → (v' ≡ w'.views.current_view) ⊎ Known w v'
    → v.view_number ≡ v'.view_number
    → v ≡ v'
newer_unique n w w' l o v v' (inl p) (inl q) e = p ∙ sym q
newer_unique n w w' l o v v' (inl p) (inr q) e =
    absurd (omega (arith, o.newest v' q, ap (λ (x : View). x.view_number) p, l, e))
newer_unique n w w' l o v v' (inr p) (inl q) e =
    absurd (omega (arith, o.newest v p, ap (λ (x : View). x.view_number) q, l, e))
newer_unique n w w' l o v v' (inr p) (inr q) e = o.unique v v' p q e

-- A tick brings at most one view that was not there, and its number is above all others.
newer-Ordered :
    (n : ℕ) (w w' : World)
    → w.views.view_number < w'.views.view_number
    → w'.views.view_number ≤ suc n * 2
    → ((v : View) → Known w' v → (v ≡ w'.views.current_view) ⊎ Known w v)
    → Ordered n w
    → Ordered (suc n) w'
newer-Ordered n w w' l f k o = record {
  unique = λ v v' a b e. newer_unique n w w' l o v v' (k v a) (k v' b) e;
  newest = λ v a. elim (k v a) [
    | inl p ↦ omega (arith, ap (λ (x : View). x.view_number) p)
    | inr p ↦ omega (arith, o.newest v p)
  ];
  few = f;
}

tick-Known :
    (w : World) (vs : ViewServer) (v : View)
    → Known (record w { views = vs }) v
    → (v ≡ vs.current_view) ⊎ Known w v
tick-Known w vs v (current e) = inl e
tick-Known w vs v (in_flight m) = inr (in_flight m)
tick-Known w vs v (held i e) = inr (held i e)

more_ticks : (n : ℕ) (w : World) → Ordered n w → Ordered (suc n) w
more_ticks n w o = record { unique = o.unique; newest = o.newest; few = omega (arith, o.few) }

same_view :
    (n : ℕ) (w : World) (vs : ViewServer)
    → vs.current_view ≡ w.views.current_view
    → Ordered n w
    → Ordered n (record w { views = vs })
same_view n w vs e o =
    kept-Ordered n w (record w { views = vs }) e
      (λ v k. elim (tick-Known w vs v k) [ inl p ↦ current (p ∙ e) | inr p ↦ p ]) o

pub tick-Ordered :
    (n : ℕ) (w : World) (now : ℕ) (order order' : List String)
    → suc n * 2 < 2 ^ 64
    → Ordered n w
    → Ordered (suc n) (record w { views = check_failures_and_promote now order order' w.views })
tick-Ordered n w now order order' b o =
    let vs = check_failures_and_promote now order order' w.views in
    elim (tick-AtMost now order order' w.views (omega (arith, o.few, b))) [
      | inl e ↦ more_ticks n (record w { views = vs }) (same_view n w vs e o)
      | inr (l, u) ↦
          newer-Ordered n w (record w { views = vs }) l (omega (arith, o.few, u)) (tick-Known w vs)
            o
    ]

asked-Known :
    (w : World) (i : ℕ) (name : String) (number now : ℕ) (v : View)
    → Known (asked i name number now w) v
    → Known w v
unfolding Views.ping
asked-Known w i name number now v (current e) = current (e ∙ view-ping name number now w.views)
asked-Known w i name number now v (in_flight m) = in_flight m
asked-Known w i name number now v (held j e) = held j e

pub asked-Ordered :
    (n : ℕ) (w : World) (i : ℕ) (name : String) (number now : ℕ)
    → Ordered n w
    → Ordered n (asked i name number now w)
asked-Ordered n w i name number now o =
    kept-Ordered n w (asked i name number now w) (view-ping name number now w.views)
      (asked-Known w i name number now) o

written_out-Known : (w : World) (ref : ViewRef) (v : View) → Known (written_out ref w) v → Known w v
written_out-Known w ref v (current e) = current e
written_out-Known w ref v (in_flight m) = elim (occurs_cases m) [
  | inl e ↦ current e
  | inr m' ↦ in_flight m'
]
written_out-Known w ref v (held j e) = held j e

-- An answer carries the view of the moment when it is written out.
pub written_out-Ordered :
    (n : ℕ) (w : World) (ref : ViewRef) → Ordered n w → Ordered n (written_out ref w)
written_out-Ordered n w ref o =
    kept-Ordered n w (written_out ref w) refl (written_out-Known w ref) o

changed-Known :
    (w : World) (i : ℕ) (kv : KvServer)
    → Known w kv.current_view
    → (v : View) → Known (record w { servers = change_server i kv w.servers }) v
    → Known w v
changed-Known w i kv h v (current e) = current e
changed-Known w i kv h v (in_flight m) = in_flight m
changed-Known w i kv h v (held j e) = elim (Bool-cases (j == i)) [
  | inl t ↦ subst (Known w) (sym (e ∙ ap (λ c. (if c then kv else w.servers j).current_view) t)) h
  | inr t ↦ held j (e ∙ ap (λ c. (if c then kv else w.servers j).current_view) t)
]

-- A server that has changed holds the view that it held, or one that was known.
pub changed-Ordered :
    (n : ℕ) (w : World) (i : ℕ) (kv : KvServer)
    → Known w kv.current_view
    → Ordered n w
    → Ordered n (record w { servers = change_server i kv w.servers })
changed-Ordered n w i kv h o =
    kept-Ordered n w (record w { servers = change_server i kv w.servers }) refl
      (changed-Known w i kv h) o
