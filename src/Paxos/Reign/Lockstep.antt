-- ===== src/Paxos/Reign/Lockstep.antt =====
-- What the steps of a reign do to the copies of the log
-- (multipaxos_kvstore/server/paxos_server.go).
use go_distributed_system_de.Base.{
  pos, leb, ltb_ℤ, ◌^◌, ◌≤◌, ◌<◌, ℕ, suc, zero, ◌==◌, [], ◌∷◌, ◌++◌, length, ltb, ◌≡◌, inl, inr,
  refl, sym, ap, ◌∙◌, subst, arith, Bool-cases, length-append,
}
use go_distributed_system_de.Types.Entry.{LogEntry}
use go_distributed_system_de.Types.KvStore.{KvStore}
use go_distributed_system_de.Types.Role.{is_leader}
use go_distributed_system_de.Persistence.{append_log}
use go_distributed_system_de.Persistence.Durability.{save_cases}
use go_distributed_system_de.Paxos.State.{PaxosServer, majority}
use go_distributed_system_de.Paxos.Learner.Replay.{last_index, apply_committed_entries-OnlyApplied}
use go_distributed_system_de.Paxos.Replication
use go_distributed_system_de.Paxos.Replication.{begin_proposal, finish_proposal, step_down}
use go_distributed_system_de.Paxos.Replication.Commit.{under_promise}
use go_distributed_system_de.Paxos.Heartbeat.{finish_heartbeats}
use go_distributed_system_de.Paxos.Reign.{
  Reign, change, next_entry, Step, proposes, finishes, accepts, hears, leader_prepares, prepares,
  counts_heartbeats, leader_applies, applies,
}
use go_distributed_system_de.Paxos.Reign.Copies.{
  Copy, SameStore, Copy-kept, Copy-append, Copy-known,
}
use go_distributed_system_de.Paxos.Reign.Moves.{prepare-kept, Copy-prepare, Copy-accept}
use go_distributed_system_de.Paxos.Reign.Commits.{last_index-lt, Copy-hear, Copy-apply}

-- Every server has a copy of the leader's log, and knows no more as committed than the leader.
pub record InStep (kv : KvStore) (g : Reign) : Type 0 where
  pub room : length g.leader.ps.log ≤ 2 ^ 63
  pub top : ℕ
  pub commit : g.leader.commit_index ≡ last_index top
  pub leads : Copy kv g.leader.ps.log top g.leader
  pub follow : (i : ℕ) → Copy kv g.leader.ps.log top (g.followers i)

module _ (kv : KvStore) (g : Reign) (h : InStep kv g) where
  -- A follower's move.
  follower-InStep :
      (i : ℕ) (s : PaxosServer) → Copy kv g.leader.ps.log h.top s → InStep kv (change i s g)
  follower-InStep i s c = record {
    room = h.room;
    top = h.top;
    commit = h.commit;
    leads = h.leads;
    follow = λ j. elim (Bool-cases (j == i)) [ inl e ↦ rw e c | inr e ↦ rw e (h.follow j) ];
  }

  -- A move of the leader that keeps its log and its commit index.
  leader-InStep :
      (s : PaxosServer)
      → Copy kv g.leader.ps.log h.top s
      → s.ps.log ≡ g.leader.ps.log
      → s.commit_index ≡ g.leader.commit_index
      → InStep kv (record g { leader = s })
  leader-InStep s c e k = record {
    room = rw e h.room;
    top = h.top;
    commit = k ∙ h.commit;
    leads = subst (λ log. Copy kv log h.top s) (sym e) c;
    follow = rw e h.follow;
  }

  grown-InStep :
      (s : PaxosServer) (entry : LogEntry)
      → length g.leader.ps.log < 2 ^ 63
      → SameStore g.leader s
      → s.ps.log ≡ g.leader.ps.log ++ entry ∷ []
      → InStep kv (record g { leader = s })
  grown-InStep s entry r m e =
      let more = entry ∷ [] in
      let c = Copy-append kv g.leader.ps.log more h.top g.leader h.leads in
      let n = length-append g.leader.ps.log more in
      record {
        room = rw e (omega (arith, r, n));
        top = h.top;
        commit = m.commit ∙ h.commit;
        leads = record {
          size = omega arith;
          agrees = λ j l. refl;
          committed = c.committed;
          commit = m.commit ∙ c.commit;
          held = rw e (omega (arith, c.held, n));
          known = c.known;
          applied = c.applied;
          last = m.last ∙ c.last;
          done = c.done;
          store = rw e (m.store ∙ c.store);
        };
        follow = rw e (λ i. Copy-append kv g.leader.ps.log more h.top (g.followers i) (h.follow i));
      }

  committed-InStep :
      (k : ℕ)
      → k < length g.leader.ps.log
      → InStep kv (record g { leader = Replication.commit (pos k) g.leader })
  unfolding Replication.commit
  committed-InStep k l = elim (Bool-cases (ltb_ℤ g.leader.commit_index (pos k))) [
    | inl e ↦
        let lt : h.top < suc k =
          last_index-lt h.top (suc k) (ap (λ i. ltb_ℤ i (pos k)) (sym h.commit) ∙ e) in
        let c = h.leads in
        rw e (record {
          room = h.room;
          top = suc k;
          commit = refl;
          leads = record {
            size = c.size;
            agrees = c.agrees;
            committed = suc k;
            commit = refl;
            held = omega (arith, l);
            known = omega arith;
            applied = c.applied;
            last = c.last;
            done = omega (arith, c.done, c.known, lt);
            store = c.store;
          };
          follow = λ i.
              Copy-known kv g.leader.ps.log h.top (suc k) (g.followers i) (omega (arith, lt))
                (h.follow i);
        })
    | inr e ↦ rw e h
  ]

  stepped_down-InStep : InStep kv (record g { leader = step_down g.leader })
  unfolding step_down
  stepped_down-InStep =
      leader-InStep (step_down g.leader)
        (Copy-kept kv g.leader.ps.log h.top g.leader (step_down g.leader)
          (record { commit = ground arith; last = ground arith; store = ground arith })
          (ground arith) h.leads)
        (ground arith) (ground arith)

  finished-InStep :
      (k count : ℕ)
      → k < length g.leader.ps.log
      → InStep kv (record g { leader = (finish_proposal (pos k) count g.leader).1 })
  unfolding finish_proposal
  finished-InStep k count l = elim (Bool-cases (leb (majority g.leader) count)) [
    | inl e ↦ rw e (committed-InStep k l)
    | inr e ↦ rw e stepped_down-InStep
  ]

  heartbeats-InStep :
      (successes : ℕ) → InStep kv (record g { leader = finish_heartbeats successes g.leader })
  unfolding finish_heartbeats
  heartbeats-InStep successes = elim (Bool-cases (ltb successes (majority g.leader))) [
    | inl e ↦ rw e stepped_down-InStep
    | inr e ↦ rw e h
  ]

  proposed-InStep :
      (entry : LogEntry)
      → length g.leader.ps.log < 2 ^ 63
      → InStep kv (record g { leader = (begin_proposal entry g.leader).1 })
  unfolding begin_proposal append_log
  proposed-InStep entry r =
      let new = under_promise entry g.leader in
      elim (Bool-cases (is_leader g.leader.state)) [
        | inl e ↦
            rw (e, begin_proposal)
              (elim (save_cases (record g.leader.ps { log = g.leader.ps.log ++ new ∷ [] })) [
                | inl (later, s) ↦ rw s (
                    grown-InStep _ new r (record { commit = refl; last = refl; store = refl }) refl)
                | inr (later, x, s) ↦ rw s (
                    grown-InStep _ new r (record { commit = refl; last = refl; store = refl }) refl)
              ])
        | inr e ↦ rw (e, begin_proposal) h
      ]

pub last_index-inj : (m n : ℕ) → last_index m ≡ last_index n → m ≡ n
last_index-inj zero zero h = refl
last_index-inj zero (suc n) h = absurd (ground arith)
last_index-inj (suc m) zero h = absurd (ground arith)
last_index-inj (suc m) (suc n) h = ground arith

-- Each step keeps every server in step.
pub Step-InStep : (kv : KvStore) {g k : Reign} → Step g k → InStep kv g → InStep kv k
Step-InStep kv {g = g} (proposes op key value r) h =
    proposed-InStep kv g h (next_entry op key value g.leader) r
Step-InStep kv {g = g} (finishes k count l) h = finished-InStep kv g h k count l
Step-InStep kv {g = g} (accepts i k ballot entry now e p l) h =
    follower-InStep kv g h i _
      (Copy-accept kv g.leader.ps.log h.top (g.followers i) (h.follow i) k ballot entry now e p l)
Step-InStep kv {g = g} (hears i n m ballot now e l r) h = follower-InStep kv g h i _ (
    Copy-hear kv g.leader.ps.log h.top (g.followers i) (h.follow i) n ballot now r
      (omega (arith, l, last_index-inj m h.top (sym e ∙ h.commit))))
Step-InStep kv {g = g} (leader_prepares ballot now) h =
    let (m, e) = prepare-kept g.leader ballot now in
    leader-InStep kv g h _ (Copy-prepare kv g.leader.ps.log h.top g.leader h.leads ballot now) e
      m.commit
Step-InStep kv {g = g} (prepares i ballot now) h =
    follower-InStep kv g h i _
      (Copy-prepare kv g.leader.ps.log h.top (g.followers i) (h.follow i) ballot now)
Step-InStep kv {g = g} (counts_heartbeats successes) h = heartbeats-InStep kv g h successes
Step-InStep kv {g = g} leader_applies h =
    let e = apply_committed_entries-OnlyApplied g.leader in
    leader-InStep kv g h _ (Copy-apply kv g.leader.ps.log h.top g.leader h.room h.leads)
      (ap (λ (s : PaxosServer). s.ps.log) e) (ap (λ (s : PaxosServer). s.commit_index) e)
Step-InStep kv {g = g} (applies i) h =
    follower-InStep kv g h i _
      (Copy-apply kv g.leader.ps.log h.top (g.followers i) h.room (h.follow i))
