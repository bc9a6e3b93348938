-- ===== src/System/Primaries.antt =====
-- Which servers take themselves for the primary (view/viewservice/server.go,
-- kv_server_main/kvserver/server.go).
use go_distributed_system_de.Base.{
  ℕ, ◌==◌, ==_iff, ◌*◌, ◌^◌, ◌<◌, String, true, false, some, ◌≡◌, ◌≢◌, Occurs, not-nil, refl, arith,
  Bool-cases, inl, inr, sym, subst, ap, ◌∙◌, str_eq, str_eq_iff,
}
use go_distributed_system_de.Views.{View}
use go_distributed_system_de.Replica.{
  KvServer, PutRequest, primary, role_in, put_start, forward_update, sync_state, transfer_start,
  transfer_end,
}
use go_distributed_system_de.Replica
use go_distributed_system_de.Replica.Roles.{InStep, ping-InStep, ping_rest}
use go_distributed_system_de.System.{
  World, start, change_server, Work, connects, starts_transfer, is_killed, starts_put, stores,
  takes_update, takes_state, ends_transfer, do_work, heard, Reached, starts, ticks, asks, writes,
  hears, works,
}
use go_distributed_system_de.System.Known.{
  Known, current, in_flight, held, Ordered, tick-Ordered, asked-Ordered, written_out-Ordered,
  changed-Ordered,
}

-- What a server does on its own changes neither its name, nor its view, nor its role.
record SameRole (kv kv' : KvServer) : Type 0 where
  me : kv'.me ≡ kv.me
  view : kv'.current_view ≡ kv.current_view
  role : kv'.role ≡ kv.role

do_work-SameRole : (work : Work) (kv : KvServer) → SameRole kv (do_work work kv)
unfolding put_start forward_update sync_state transfer_start transfer_end
do_work-SameRole connects kv = record { me = refl; view = refl; role = refl }
do_work-SameRole starts_transfer kv = record { me = refl; view = refl; role = refl }
do_work-SameRole is_killed kv = record { me = refl; view = refl; role = refl }
do_work-SameRole (starts_put req) kv = record {
  me = ground arith;
  view = ground arith;
  role = ground arith;
}
do_work-SameRole (stores req) kv = record { me = refl; view = refl; role = refl }
do_work-SameRole (takes_update req) kv = record {
  me = ground arith;
  view = ground arith;
  role = ground arith;
}
do_work-SameRole (takes_state data_map) kv = record { me = refl; view = refl; role = refl }
do_work-SameRole (ends_transfer true) kv = record { me = refl; view = refl; role = refl }
do_work-SameRole (ends_transfer false) kv = record { me = refl; view = refl; role = refl }

-- Every server has its name and the role that its view gives it.
record Named (names : ℕ → String) (i : ℕ) (kv : KvServer) : Type 0 where
  pub me : kv.me ≡ names i
  pub in_step : InStep kv

work-Named :
    (names : ℕ → String) (i : ℕ) (work : Work) (kv : KvServer)
    → Named names i kv
    → Named names i (do_work work kv)
work-Named names i work kv h =
    let s = do_work-SameRole work kv in
    record {
      me = s.me ∙ h.me;
      in_step =
          s.role
          ∙ h.in_step
          ∙ sym (
              ap (λ (n : String). role_in n (do_work work kv).current_view) s.me
              ∙ ap (role_in kv.me) s.view);
    }

-- The invariant of the whole system.
record Sound (names : ℕ → String) (n : ℕ) (w : World) : Type 0 where
  pub ordered : Ordered n w
  pub named : (i : ℕ) → Named names i (w.servers i)

change-Named :
    (names : ℕ → String) (w : World) (i : ℕ) (kv : KvServer)
    → Named names i kv
    → ((j : ℕ) → Named names j (w.servers j))
    → (j : ℕ) → Named names j (change_server i kv w.servers j)
change-Named names w i kv h all j = elim (Bool-cases (j == i)) [
  | inl t ↦ rw t (rw ((==_iff j i).0 t) h)
  | inr t ↦ rw t (all j)
]

no_view : View
no_view = record { view_number = 0; primary = ""; backup = "" }

start-Known : (names : ℕ → String) (v : View) → Known (start names) v → v ≡ no_view
unfolding no_view
start-Known names v (current e) = e
start-Known names v (in_flight m) = absurd (not-nil m)
start-Known names v (held i e) = e

start-Ordered : (names : ℕ → String) → Ordered 0 (start names)
unfolding no_view
start-Ordered names = record {
  unique = λ v v' a b e. start-Known names v a ∙ sym (start-Known names v' b);
  newest = λ v a. omega (arith, ap (λ (x : View). x.view_number) (start-Known names v a));
  few = omega arith;
}

start-Named : (names : ℕ → String) (i : ℕ) → names i ≢ "" → Named names i ((start names).servers i)
unfolding role_in
start-Named names i h =
    let e : str_eq "" (names i) ≡ false =
      ground (arith, str_eq_iff "" (names i), str_eq_iff (names i) "") in
    record { me = refl; in_step = rw e refl }

hear-Sound :
    (names : ℕ → String) (n : ℕ) (w : World) (i : ℕ) (view : View)
    → Occurs view w.sent
    → Sound names n w
    → Sound names n (heard i view w)
hear-Sound names n w i view m s =
    let kv = w.servers i in
    let (me, new) = ping_rest view kv in
    let same : (v : View)
        → some view ≡ some v
        → kv.current_view.view_number ≡ v.view_number
        → v ≡ kv.current_view =
      λ v e k.
        s.ordered.unique v kv.current_view (subst (Known w) (ground arith) (in_flight m))
          (held i refl) (sym k) in
    record {
      ordered =
          changed-Ordered n w i (Replica.ping (some view) kv).1 (rw new (in_flight m)) s.ordered;
      named =
          change-Named names w i (Replica.ping (some view) kv).1
            (record {
              me = me ∙ (s.named i).me;
              in_step = ping-InStep (some view) kv same (s.named i).in_step;
            })
            s.named;
    }

work-Sound :
    (names : ℕ → String) (n : ℕ) (w : World) (i : ℕ) (work : Work)
    → Sound names n w
    → Sound names n (record w { servers = change_server i (do_work work (w.servers i)) w.servers })
work-Sound names n w i work s =
    let kv = do_work work (w.servers i) in
    record {
      ordered =
          changed-Ordered n w i kv (held i (do_work-SameRole work (w.servers i)).view) s.ordered;
      named = change-Named names w i kv (work-Named names i work (w.servers i) (s.named i)) s.named;
    }

Reached-Sound :
    (names : ℕ → String)
    → ((i : ℕ) → names i ≢ "")
    → (n : ℕ) (w : World) → n * 2 < 2 ^ 64
    → Reached names n w
    → Sound names n w
Reached-Sound names h _ _ b starts = record {
  ordered = start-Ordered names;
  named = λ i. start-Named names i (h i);
}
Reached-Sound names h _ _ b (ticks {n = n} {w = w} now order order' r) =
    let s = Reached-Sound names h n w (omega (arith, b)) r in
    record { ordered = tick-Ordered n w now order order' b s.ordered; named = s.named }
Reached-Sound names h _ _ b (asks {n = n} {w = w} i name number now e r) =
    let s = Reached-Sound names h n w b r in
    record { ordered = asked-Ordered n w i name number now s.ordered; named = s.named }
Reached-Sound names h _ _ b (writes {n = n} {w = w} ref m r) =
    let s = Reached-Sound names h n w b r in
    record { ordered = written_out-Ordered n w ref s.ordered; named = s.named }
Reached-Sound names h _ _ b (hears {n = n} {w = w} i view m r) =
    hear-Sound names n w i view m (Reached-Sound names h n w b r)
Reached-Sound names h _ _ b (works {n = n} {w = w} i work r) =
    work-Sound names n w i work (Reached-Sound names h n w b r)

primary_named : (name : String) (v : View) → role_in name v ≡ primary → v.primary ≡ name
unfolding role_in
primary_named name v h = ground (arith, str_eq_iff v.primary name)

-- Wherever the view service and its servers get to, with answers written out at any later time, lost,
-- delayed or out of order, servers killed and the handlers of a server between any two answers,
-- two servers that both take themselves for the primary in views of the same number are one
-- server, provided that no tick runs while an answer is written out,
-- two servers do not share a name, no name is empty, and the ticks are few enough for the view
-- number not to wrap.
pub one_primary :
    (names : ℕ → String) (n : ℕ) (w : World) (i j : ℕ)
    → (names i ≡ names j → i ≡ j)
    → ((k : ℕ) → names k ≢ "")
    → n * 2 < 2 ^ 64
    → Reached names n w
    → (w.servers i).role ≡ primary
    → (w.servers j).role ≡ primary
    → (w.servers i).current_view.view_number ≡ (w.servers j).current_view.view_number
    → i ≡ j
one_primary names n w i j distinct h b r p q e =
    let s = Reached-Sound names h n w b r in
    let v =
      s.ordered.unique (w.servers i).current_view (w.servers j).current_view (held i refl)
        (held j refl) e in
    let a =
      primary_named (w.servers i).me (w.servers i).current_view (sym (s.named i).in_step ∙ p) in
    let c =
      primary_named (w.servers j).me (w.servers j).current_view (sym (s.named j).in_step ∙ q) in
    distinct (sym (s.named i).me ∙ sym a ∙ ap (λ (x : View). x.primary) v ∙ c ∙ (s.named j).me)
