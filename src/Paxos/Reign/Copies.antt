-- ===== src/Paxos/Reign/Copies.antt =====
-- The log of a server as a copy of the leader's (multipaxos_kvstore/server/paxos_server.go).
use go_distributed_system_de.Base.{
  ◌≤◌, ◌<◌, ℕ, suc, zero, List, [], ◌∷◌, ◌++◌, length, get_elem?, take, take-suc, ◌≡◌, refl, sym,
  ap, ◌∙◌, arith, get_elem?-append_left, length-append, get_elem?-some, int_eq,
}
use go_distributed_system_de.Types.Entry.{LogEntry}
use go_distributed_system_de.Types.KvStore.{KvStore, apply_all}
use go_distributed_system_de.Paxos.State.{PaxosServer}
use go_distributed_system_de.Paxos.Learner.Replay.{last_index}

-- The server has the first entries of `log`, knows at most `top` of them as committed, and its store
-- is what the applied ones make of `kv`.
pub record Copy (kv : KvStore) (log : List LogEntry) (top : ℕ) (s : PaxosServer) : Type 0 where
  pub size : length s.ps.log ≤ length log
  pub agrees : (j : ℕ) → j < length s.ps.log → get_elem? s.ps.log j ≡ get_elem? log j
  pub committed : ℕ
  pub commit : s.commit_index ≡ last_index committed
  pub held : committed ≤ length s.ps.log
  pub known : committed ≤ top
  pub applied : ℕ
  pub last : s.last_applied ≡ last_index applied
  pub done : applied ≤ committed
  pub store : s.kv_store ≡ apply_all kv (take applied log)

-- What a step leaves alone.
pub record SameStore (s s' : PaxosServer) : Type 0 where
  pub commit : s'.commit_index ≡ s.commit_index
  pub last : s'.last_applied ≡ s.last_applied
  pub store : s'.kv_store ≡ s.kv_store

pub Copy-kept :
    (kv : KvStore) (log : List LogEntry) (top : ℕ) (s s' : PaxosServer)
    → SameStore s s'
    → s'.ps.log ≡ s.ps.log
    → Copy kv log top s
    → Copy kv log top s'
Copy-kept kv log top s s' h e c = record {
  size = rw e c.size;
  agrees = rw e c.agrees;
  committed = c.committed;
  commit = h.commit ∙ c.commit;
  held = rw e c.held;
  known = c.known;
  applied = c.applied;
  last = h.last ∙ c.last;
  done = c.done;
  store = h.store ∙ c.store;
}

-- Entries that agree one by one make the same prefix.
pub take-agrees :
    (n : ℕ) (xs ys : List LogEntry)
    → n ≤ length xs
    → ((j : ℕ) → j < n → get_elem? xs j ≡ get_elem? ys j)
    → take n xs ≡ take n ys
take-agrees zero xs ys l h = refl
take-agrees (suc n) xs ys l h =
    let (v, e) = get_elem?-some xs n (omega arith) in
    take-suc xs n v e
    ∙ ap (λ zs. zs ++ v ∷ []) (take-agrees n xs ys (omega arith) (λ j k. h j (omega arith)))
    ∙ sym (take-suc ys n v (sym (h n (omega arith)) ∙ e))

-- The leader's log grows at its end.
pub Copy-append :
    (kv : KvStore) (log more : List LogEntry) (top : ℕ) (s : PaxosServer)
    → Copy kv log top s
    → Copy kv (log ++ more) top s
Copy-append kv log more top s c =
    let n : c.applied ≤ length log = omega (arith, c.done, c.held, c.size) in
    record {
      size = omega (arith, c.size, length-append log more);
      agrees =
          λ j k. c.agrees j k ∙ sym (get_elem?-append_left log more j (omega (arith, k, c.size)));
      committed = c.committed;
      commit = c.commit;
      held = c.held;
      known = c.known;
      applied = c.applied;
      last = c.last;
      done = c.done;
      store =
          c.store
          ∙ ap (apply_all kv) (
              take-agrees c.applied log (log ++ more) n
                (λ j k. sym (get_elem?-append_left log more j (omega (arith, n, k)))));
    }

pub Copy-known :
    (kv : KvStore) (log : List LogEntry) (top more : ℕ) (s : PaxosServer)
    → top ≤ more
    → Copy kv log top s
    → Copy kv log more s
Copy-known kv log top more s h c = record {
  size = c.size;
  agrees = c.agrees;
  committed = c.committed;
  commit = c.commit;
  held = c.held;
  known = omega (arith, c.known, h);
  applied = c.applied;
  last = c.last;
  done = c.done;
  store = c.store;
}
