-- ===== src/Paxos/Learner/Replay.antt =====
-- The state machine is the replay of the committed prefix of the log
-- (`applyCommittedEntries` of multipaxos_kvstore/server/paxos_server.go).
use go_distributed_system_de.Base.{
  ℤ, pos, negsuc, pos_part, neg_part, ltb_ℤ, inc64, ◌+◌, ◌-◌, ◌^◌, ◌≤◌, ◌<◌, ℕ, suc, zero, true,
  false, Bool-cases, Option-cases, inl, inr, some, [], ◌∷◌, take, take-suc, length, get_elem?, ◌≡◌,
  refl, sym, ap, ap₂, ◌∙◌, arith, get_elem?-some,
}
use go_distributed_system_de.Types.Entry.{LogEntry}
use go_distributed_system_de.Types.KvStore.{KvStore, apply, apply_all}
use go_distributed_system_de.Types.KvStore.Laws.{apply_all-append}
use go_distributed_system_de.Persistence.{PersistentState, get_log_entry}
use go_distributed_system_de.Persistence.Log.{get_log_entry-get_elem?}
use go_distributed_system_de.Paxos.State.{PaxosServer}
use go_distributed_system_de.Paxos.Learner.{apply_loop, apply_committed_entries, rounds}

-- The last index of a prefix: -1 for the empty one.
abbrev pub last_index : ℕ → ℤ
last_index zero = negsuc 0
last_index (suc n) = pos n

pub inc64-last_index : (n : ℕ) → n < 2 ^ 63 → inc64 (last_index n) ≡ pos n
unfolding inc64
inc64-last_index zero h = refl
inc64-last_index (suc n) h = ground arith

-- `n` entries are applied: the store is the one that the first `n` entries make of `kv`.
pub record HasApplied (kv : KvStore) (n : ℕ) (s : PaxosServer) : Type 0 where
  pub last : s.last_applied ≡ last_index n
  pub store : s.kv_store ≡ apply_all kv (take n s.ps.log)

apply_all-one : (kv : KvStore) (e : LogEntry) → apply_all kv (e ∷ []) ≡ (apply kv e).1
unfolding apply_all
apply_all-one kv e = refl

-- The entry at index `n` of the log is applied next.
next-HasApplied :
    (kv : KvStore) (n : ℕ) (s : PaxosServer) (entry : LogEntry)
    → HasApplied kv n s
    → n < 2 ^ 63
    → get_elem? s.ps.log n ≡ some entry
    → HasApplied kv
        (suc n)
        (record s { last_applied = inc64 s.last_applied; kv_store = (apply s.kv_store entry).1 })
next-HasApplied kv n s entry h b e = record {
  last = ap inc64 h.last ∙ inc64-last_index n b;
  store =
      ap (λ k. (apply k entry).1) h.store
      ∙ sym (
          ap (apply_all kv) (take-suc s.ps.log n entry e)
          ∙ apply_all-append (take n s.ps.log) (entry ∷ []) kv
          ∙ apply_all-one (apply_all kv (take n s.ps.log)) entry);
}

missing_or_found :
    (ps : PersistentState) (n : ℕ)
    → n < length ps.log
    → (entry : LogEntry) × (get_log_entry ps (pos n) ≡ some entry)
      × (get_elem? ps.log n ≡ some entry)
missing_or_found ps n h =
    let (entry, e) = get_elem?-some ps.log n h in (entry, get_log_entry-get_elem? ps n ∙ e, e)

pub behind : (n k : ℕ) → ltb_ℤ (last_index n) (last_index (suc k + n)) ≡ true
behind zero k = ground arith
behind (suc n) k = ground arith

pub level : (n : ℕ) → ltb_ℤ (last_index n) (last_index n) ≡ false
level zero = refl
level (suc n) = ground arith

-- With `k` committed entries left, all of them in the log, the loop applies each one in order.
apply_loop-HasApplied :
    (kv : KvStore) (k fuel n : ℕ) (s : PaxosServer)
    → k ≤ fuel
    → HasApplied kv n s
    → s.commit_index ≡ last_index (k + n)
    → k + n ≤ length s.ps.log
    → k + n ≤ 2 ^ 63
    → HasApplied kv (k + n) (apply_loop fuel s)
unfolding apply_loop
apply_loop-HasApplied kv zero zero n s f h c l b = let z : 0 + n ≡ n = omega arith in rw z h
apply_loop-HasApplied kv zero (suc fuel) n s f h c l b =
    let z : 0 + n ≡ n = omega arith in rw (h.last, c, z, level n, apply_loop) h
apply_loop-HasApplied kv (suc k) zero n s f h c l b = absurd (omega arith)
apply_loop-HasApplied kv (suc k) (suc fuel) n s f h c l b =
    let z : suc k + n ≡ k + suc n = omega arith in
    let (entry, g, e) = missing_or_found s.ps n (omega arith) in
    let t : ltb_ℤ s.last_applied s.commit_index ≡ true = ap₂ ltb_ℤ h.last c ∙ behind n k in
    let q : get_log_entry s.ps (inc64 s.last_applied) ≡ some entry =
      ap (get_log_entry s.ps) (ap inc64 h.last ∙ inc64-last_index n (omega arith)) ∙ g in
    rw (t, q, z, apply_loop)
      (apply_loop-HasApplied kv k fuel (suc n)
        (record s { last_applied = inc64 s.last_applied; kv_store = (apply s.kv_store entry).1 })
        (omega arith) (next-HasApplied kv n s entry h (omega arith) e) (c ∙ ap last_index z)
        (omega arith) (omega arith))

distance :
    (k n : ℕ)
    → pos_part (last_index (k + n))
        + neg_part (last_index n)
        - (pos_part (last_index n) + neg_part (last_index (k + n)))
      ≡ k
distance zero zero = refl
distance (suc k) zero = ground arith
distance k (suc n) = ground arith

pub rounds-last_index :
    (k n : ℕ) (s : PaxosServer)
    → s.last_applied ≡ last_index n
    → s.commit_index ≡ last_index (k + n)
    → rounds s ≡ k
rounds-last_index k n s h c = rw (h, c) (distance k n)

-- If `n` entries are applied, and the log holds all `k` further entries up to the commit index, then
-- applyCommittedEntries applies exactly those, in the order of the log: afterwards the last applied
-- index is the commit index, and the store is what the whole committed prefix makes of the store
-- that the replay started from.
pub apply_committed_entries-HasApplied :
    (kv : KvStore) (k n : ℕ) (s : PaxosServer)
    → HasApplied kv n s
    → s.commit_index ≡ last_index (k + n)
    → k + n ≤ length s.ps.log
    → k + n ≤ 2 ^ 63
    → HasApplied kv (k + n) (apply_committed_entries s)
unfolding apply_committed_entries
apply_committed_entries-HasApplied kv k n s h c l b =
    apply_loop-HasApplied kv k (rounds s) n s (omega (arith, rounds-last_index k n s h.last c)) h c
      l b

-- Everything but the last applied index and the store.
abbrev pub OnlyApplied : PaxosServer → PaxosServer → Type 0
OnlyApplied s s' = s' ≡ record s { last_applied = s'.last_applied; kv_store = s'.kv_store }

loop-OnlyApplied : (fuel : ℕ) (s : PaxosServer) → OnlyApplied s (apply_loop fuel s)
unfolding apply_loop
loop-OnlyApplied zero s = refl
loop-OnlyApplied (suc fuel) s = elim (Bool-cases (ltb_ℤ s.last_applied s.commit_index)) [
  | inl e ↦ elim (Option-cases (get_log_entry s.ps (inc64 s.last_applied))) [
    | inl m ↦ rw (e, m, apply_loop)
    | inr (entry, m) ↦
        rw (e, m, apply_loop)
          (loop-OnlyApplied fuel (record s {
            last_applied = inc64 s.last_applied;
            kv_store = (apply s.kv_store entry).1;
          }))
  ]
  | inr e ↦ rw (e, apply_loop)
]

-- Applying committed entries changes the last applied index and the store, and nothing else.
pub apply_committed_entries-OnlyApplied :
    (s : PaxosServer) → OnlyApplied s (apply_committed_entries s)
unfolding apply_committed_entries
apply_committed_entries-OnlyApplied s = loop-OnlyApplied (rounds s) s
