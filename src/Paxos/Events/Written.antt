-- ===== src/Paxos/Events/Written.antt =====
-- What the steps of a server write to its file (multipaxos_kvstore/server/paxos_server.go).
use go_distributed_system_de.Base.{
  ℤ, pos, negsuc, some, continue, Outcome, ok, err, panic, ◌≡◌, ◌⊎◌, ◌≤◌, length, length-append, [],
  ◌∷◌, arith, refl, ◌∙◌, inl, inr, int_eq,
}
use go_distributed_system_de.Types.Ballot.{BallotNumber}
use go_distributed_system_de.Types.Ballot.Order.{
  Below, AtLeast, AtLeast-refl, AtLeast-trans, AtLeast-Below,
}
use go_distributed_system_de.Types.Entry.{LogEntry}
use go_distributed_system_de.Persistence.{
  PersistentState, PersistentData, IoError, save, snapshot, set_npromised,
  set_highest_accepted_ballot, update_log, append_log,
}
use go_distributed_system_de.Persistence.Durability.{save_cases}
use go_distributed_system_de.Persistence.Log.{
  updated, length-updated, update_log-save, update_log_negative,
}
use go_distributed_system_de.Paxos.State.{PaxosServer, Serve, Error}
use go_distributed_system_de.Paxos.Election.{dropped, voted_for_self}

-- The promise is at least what it was and the log is no shorter, and the file is as before or holds
-- a promise and a log of which the same is true.
pub record Written (ps ps' : PersistentState) : Type 0 where
  pub promised : AtLeast ps'.npromised ps.npromised
  pub longer : length ps.log ≤ length ps'.log
  pub file :
      (ps'.file ≡ ps.file)
      ⊎ ((d : PersistentData) × (ps'.file ≡ some d)
          × AtLeast d.npromised ps.npromised
          × (length ps.log ≤ length d.log))

pub Written-refl : (ps : PersistentState) → Written ps ps
Written-refl ps = record {
  promised = AtLeast-refl ps.npromised;
  longer = omega arith;
  file = inl refl;
}

pub Written-trans : (a b c : PersistentState) → Written a b → Written b c → Written a c
Written-trans a b c f g = record {
  promised = AtLeast-trans c.npromised b.npromised a.npromised g.promised f.promised;
  longer = omega (arith, f.longer, g.longer);
  file = elim g.file [
    | inl e ↦ elim f.file [ inl e' ↦ inl (e ∙ e') | inr (d, e', l, n) ↦ inr (d, e ∙ e', l, n) ]
    | inr (d, e, l, n) ↦ inr (
      d,
      e,
      AtLeast-trans d.npromised b.npromised a.npromised l f.promised,
      omega (arith, n, f.longer),
    )
  ];
}

pub save-Written :
    (ps new : PersistentState)
    → AtLeast new.npromised ps.npromised
    → length ps.log ≤ length new.log
    → new.file ≡ ps.file
    → Written ps (save new).1
save-Written ps new l n e = elim (save_cases new) [
  | inl (later, s) ↦
      rw s (record { promised = l; longer = n; file = inr (snapshot new, refl, l, n) })
  | inr (later, x, s) ↦ rw s (record { promised = l; longer = n; file = inl e })
]

pub set_npromised-Written :
    (ballot : BallotNumber) (ps : PersistentState)
    → Below ps.npromised ballot
    → Written ps (set_npromised ballot ps).1
unfolding set_npromised
set_npromised-Written ballot ps h =
    save-Written ps (record ps { npromised = ballot }) (AtLeast-Below ps.npromised ballot h)
      (omega arith) refl

pub update_log-Written :
    (index : ℤ) (entry : LogEntry) (ps : PersistentState) → Written ps (update_log index entry ps).1
update_log-Written (pos i) entry ps = rw (update_log-save i entry ps) (
    save-Written ps (record ps { log = updated ps.log i entry }) (AtLeast-refl ps.npromised)
      (omega (arith, length-updated ps.log i entry)) refl)
update_log-Written (negsuc n) entry ps = rw (update_log_negative n entry ps) (Written-refl ps)

pub accepted-Written :
    (index : ℤ) (ballot : BallotNumber) (ps : PersistentState)
    → Written ps (set_highest_accepted_ballot index ballot ps).1
unfolding set_highest_accepted_ballot
accepted-Written index ballot ps = save-Written ps _ (AtLeast-refl ps.npromised) (omega arith) refl

pub append_log-Written :
    (entry : LogEntry) (ps : PersistentState) → Written ps (append_log entry ps).1
unfolding append_log
append_log-Written entry ps =
    save-Written ps _ (AtLeast-refl ps.npromised) (omega (arith, length-append ps.log (entry ∷ [])))
      refl

pub unwritten : (s t : PaxosServer) → t.ps ≡ s.ps → Written s.ps t.ps
unwritten s t e = rw e (Written-refl s.ps)

pub ps-dropped :
    (s : PaxosServer) (r : Outcome IoError (Unit {0}) × PersistentState) → (dropped s r).1.ps ≡ r.1
unfolding dropped
ps-dropped s (ok u, ps) = refl
ps-dropped s (err e, ps) = refl
ps-dropped s (panic, ps) = refl

pub ps-voted :
    (s : PaxosServer) (r : Outcome IoError (Unit {0}) × PersistentState)
    → (voted_for_self s r).1.ps ≡ r.1
unfolding voted_for_self
ps-voted s (ok u, ps) = refl
ps-voted s (err e, ps) = refl
ps-voted s (panic, ps) = refl

pub continue-Written :
    {A B : Type 0} (s : PaxosServer) (r : Outcome Error A × PaxosServer) (rest : A → Serve B)
    → Written s.ps r.1.ps
    → ((a : A) (t : PaxosServer) → Written t.ps (rest a t).1.ps)
    → Written s.ps (continue r.0 rest r.1).1.ps
continue-Written s (ok a, t) rest f g = Written-trans s.ps t.ps (rest a t).1.ps f (g a t)
continue-Written s (err e, t) rest f g = f
continue-Written s (panic, t) rest f g = f
