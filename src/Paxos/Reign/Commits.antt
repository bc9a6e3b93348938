-- ===== src/Paxos/Reign/Commits.antt =====
-- What commits and the learner do to a copy of the leader's log
-- (multipaxos_kvstore/server/paxos_server.go).
use go_distributed_system_de.Base.{
  pos, leb_ℤ, ltb_ℤ, ◌+◌, ◌-◌, ◌^◌, ◌≤◌, ◌<◌, ℕ, suc, zero, true, List, length, take, ◌≡◌, inl, inr,
  refl, sym, ap, ◌∙◌, subst, arith, Bool-cases, int_eq,
}
use go_distributed_system_de.Types.Ballot.{BallotNumber, compare}
use go_distributed_system_de.Types.Entry.{LogEntry}
use go_distributed_system_de.Types.KvStore.{KvStore, apply_all}
use go_distributed_system_de.Paxos.State.{PaxosServer}
use go_distributed_system_de.Paxos.Learner.{apply_committed_entries}
use go_distributed_system_de.Paxos.Learner.Replay.{
  last_index, HasApplied, apply_committed_entries-HasApplied, apply_committed_entries-OnlyApplied,
}
use go_distributed_system_de.Paxos.Replication
use go_distributed_system_de.Paxos.Heartbeat.{handle_heartbeat, heard}
use go_distributed_system_de.Paxos.Reign.Copies.{Copy, Copy-kept, take-agrees}

pub last_index-lt : (m n : ℕ) → ltb_ℤ (last_index m) (last_index n) ≡ true → m < n
last_index-lt zero zero h = absurd (ground arith)
last_index-lt zero (suc n) h = omega arith
last_index-lt (suc m) zero h = absurd (ground arith)
last_index-lt (suc m) (suc n) h = ground arith

-- The commit index, raised to one whose entries the server has.
pub Copy-commit :
    (kv : KvStore) (log : List LogEntry) (top : ℕ) (s : PaxosServer)
    → Copy kv log top s
    → (n : ℕ) → n ≤ length s.ps.log
    → n ≤ top
    → Copy kv log top (Replication.commit (last_index n) s)
unfolding Replication.commit
Copy-commit kv log top s c n l k = elim (Bool-cases (ltb_ℤ s.commit_index (last_index n))) [
  | inl e ↦
      let lt : c.committed < n =
        last_index-lt c.committed n (ap (λ i. ltb_ℤ i (last_index n)) (sym c.commit) ∙ e) in
      rw e (record {
        size = c.size;
        agrees = c.agrees;
        committed = n;
        commit = refl;
        held = l;
        known = k;
        applied = c.applied;
        last = c.last;
        done = omega (arith, c.done, lt);
        store = c.store;
      })
  | inr e ↦ rw e c
]

-- The role and the times of a server are no part of its copy.
heard-Copy :
    (kv : KvStore) (log : List LogEntry) (top : ℕ) (s : PaxosServer) (ballot : BallotNumber)
    (now : ℕ)
    → Copy kv log top s
    → Copy kv log top (heard ballot now s)
unfolding heard
heard-Copy kv log top s ballot now c =
    Copy-kept kv log top s (heard ballot now s)
      (record { commit = refl; last = refl; store = refl }) refl c

pub Copy-hear :
    (kv : KvStore) (log : List LogEntry) (top : ℕ) (s : PaxosServer)
    → Copy kv log top s
    → (n : ℕ) (ballot : BallotNumber) (now : ℕ) → n ≤ length s.ps.log
    → n ≤ top
    → Copy kv log top (handle_heartbeat ballot (last_index n) now s).1
unfolding handle_heartbeat heard
Copy-hear kv log top s c n ballot now l k =
    elim (Bool-cases (leb_ℤ (pos 0) (compare ballot s.ps.npromised))) [
      | inl e ↦
          rw e (
            Copy-commit kv log top (heard ballot now s) (heard-Copy kv log top s ballot now c) n l
              k)
      | inr e ↦ rw e c
    ]

pub Copy-apply :
    (kv : KvStore) (log : List LogEntry) (top : ℕ) (s : PaxosServer)
    → length log ≤ 2 ^ 63
    → Copy kv log top s
    → Copy kv log top (apply_committed_entries s)
Copy-apply kv log top s room c =
    let s' = apply_committed_entries s in
    let k = c.committed - c.applied in
    let z : k + c.applied ≡ c.committed = omega (arith, c.done) in
    let prefix : take c.applied s.ps.log ≡ take c.applied log =
      take-agrees c.applied s.ps.log log (omega (arith, c.done, c.held))
        (λ j l. c.agrees j (omega (arith, l, c.done, c.held))) in
    let now : HasApplied kv c.committed s' =
      subst (λ n. HasApplied kv n s') z
        (apply_committed_entries-HasApplied kv k c.applied s
          (record { last = c.last; store = c.store ∙ ap (apply_all kv) (sym prefix) })
          (c.commit ∙ ap last_index (sym z)) (omega (arith, z, c.held))
          (omega (arith, z, c.held, c.size, room))) in
    let rest = apply_committed_entries-OnlyApplied s in
    let e : s'.ps.log ≡ s.ps.log = ap (λ (t : PaxosServer). t.ps.log) rest in
    record {
      size = rw e c.size;
      agrees = rw e c.agrees;
      committed = c.committed;
      commit = ap (λ (t : PaxosServer). t.commit_index) rest ∙ c.commit;
      held = rw e c.held;
      known = c.known;
      applied = c.committed;
      last = now.last;
      done = omega arith;
      store =
          now.store
          ∙ ap (apply_all kv) (
              ap (take c.committed) e
              ∙ take-agrees c.committed s.ps.log log c.held
                  (λ j l. c.agrees j (omega (arith, l, c.held))));
    }
