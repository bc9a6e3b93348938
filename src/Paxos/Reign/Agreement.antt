-- ===== src/Paxos/Reign/Agreement.antt =====
-- The servers of one reign apply the same commands (multipaxos_kvstore/server/paxos_server.go).
use go_distributed_system_de.Base.{
  ◌≤◌, ◌≤ℤ◌, ℕ, suc, zero, take, Option, none, some, ◌≡◌, sym, subst, ap, ◌∙◌, arith,
}
use go_distributed_system_de.Types.KvStore.{KvStore, apply_all}
use go_distributed_system_de.Paxos.State.{PaxosServer}
use go_distributed_system_de.Paxos.Learner.Replay.{last_index}
use go_distributed_system_de.Paxos.Reign.{Reign, Steps, none_yet, then_one}
use go_distributed_system_de.Paxos.Reign.Copies.{Copy}
use go_distributed_system_de.Paxos.Reign.Lockstep.{InStep, Step-InStep, last_index-inj}

Steps-InStep : (kv : KvStore) {g k : Reign} → Steps g k → InStep kv g → InStep kv k
Steps-InStep kv none_yet h = h
Steps-InStep kv (then_one before step) h = Step-InStep kv step (Steps-InStep kv before h)

-- The leader, or a follower.
abbrev pub server : Option ℕ → Reign → PaxosServer
server none g = g.leader
server (some i) g = g.followers i

server-Copy :
    (kv : KvStore) (g : Reign) (h : InStep kv g) (a : Option ℕ)
    → Copy kv g.leader.ps.log h.top (server a g)
server-Copy kv g h none = h.leads
server-Copy kv g h (some i) = h.follow i

last_index-le : (m n : ℕ) → m ≤ n → last_index m ≤ℤ last_index n
last_index-le zero zero h = omega arith
last_index-le zero (suc n) h = omega arith
last_index-le (suc m) zero h = absurd (omega arith)
last_index-le (suc m) (suc n) h = omega arith

-- While one server leads, two servers that have applied up to the same index have the same store, and
-- no server has applied an entry that the leader does not know as committed. (The servers begin
-- with copies of the leader's log and stores that go back to one store; each request proposes its
-- entry at the end of the log, which stays shorter than the largest `int`; Accepts and heartbeats
-- may be lost, repeated and delayed, saves may fail, other candidates may send Prepares, but no
-- Accept leaves a gap in a follower's log, and no heartbeat commits what a follower does not have.)
pub reign_agrees :
    (kv : KvStore) (g k : Reign) (a b : Option ℕ)
    → InStep kv g
    → Steps g k
    → (server a k).last_applied ≡ (server b k).last_applied
    → ((server a k).kv_store ≡ (server b k).kv_store)
      × ((server a k).last_applied ≤ℤ k.leader.commit_index)
reign_agrees kv g k a b h steps e =
    let i = Steps-InStep kv steps h in
    let c = server-Copy kv k i a in
    let d = server-Copy kv k i b in
    let n = last_index-inj c.applied d.applied (sym c.last ∙ e ∙ d.last) in
    (
      c.store ∙ ap (λ m. apply_all kv (take m k.leader.ps.log)) n ∙ sym d.store,
      subst (λ n. n ≤ℤ k.leader.commit_index) (sym c.last)
          (subst (λ n. last_index c.applied ≤ℤ n) (sym i.commit)
            (last_index-le c.applied i.top (omega (arith, c.done, c.known)))),
    )
