-- ===== src/Paxos/Learner/Ends.antt =====
-- The learner's loop ends by itself (`applyCommittedEntries` of
-- multipaxos_kvstore/server/paxos_server.go).
use go_distributed_system_de.Base.{
  ℤ, pos, negsuc, pos_part, neg_part, ltb_ℤ, inc64, ◌+◌, ◌-◌, ◌^◌, ◌≤◌, ◌<◌, ℕ, suc, zero, true,
  false, Bool-cases, Option-cases, inl, inr, none, ◌⊎◌, ◌≡◌, arith,
}
use go_distributed_system_de.Types.KvStore.{apply}
use go_distributed_system_de.Persistence.{get_log_entry}
use go_distributed_system_de.Paxos.State.{PaxosServer}
use go_distributed_system_de.Paxos.Learner.{apply_loop, apply_committed_entries, rounds}

-- The loop's test fails, or the entry that it came to is missing.
abbrev pub Stopped : PaxosServer → Type 0
Stopped s =
    (ltb_ℤ s.last_applied s.commit_index ≡ false) ⊎ (get_log_entry s.ps s.last_applied ≡ none)

no_rounds : (a c : ℤ) → pos_part c + neg_part a - (pos_part a + neg_part c) ≡ 0 → ltb_ℤ a c ≡ false
no_rounds a c h = ground arith

one_round :
    (a c : ℤ)
    → ltb_ℤ a c ≡ true
    → pos_part c < 2 ^ 63
    → pos_part c + neg_part (inc64 a) - (pos_part (inc64 a) + neg_part c)
      < pos_part c + neg_part a - (pos_part a + neg_part c)
unfolding inc64
one_round (pos n) c h b = ground arith
one_round (negsuc n) c h b = ground arith

apply_loop-Stopped :
    (fuel : ℕ) (s : PaxosServer)
    → rounds s ≤ fuel
    → pos_part s.commit_index < 2 ^ 63
    → Stopped (apply_loop fuel s)
unfolding apply_loop
apply_loop-Stopped zero s f b = inl (no_rounds s.last_applied s.commit_index (omega (arith, f)))
apply_loop-Stopped (suc fuel) s f b = elim (Bool-cases (ltb_ℤ s.last_applied s.commit_index)) [
  | inl t ↦ elim (Option-cases (get_log_entry s.ps (inc64 s.last_applied))) [
    | inl e ↦ rw (t, e, apply_loop) (inr e)
    | inr (entry, e) ↦
        rw (t, e, apply_loop)
          (apply_loop-Stopped fuel
            (record s {
              last_applied = inc64 s.last_applied;
              kv_store = (apply s.kv_store entry).1;
            })
            (omega (arith, f, one_round s.last_applied s.commit_index t b)) b)
  ]
  | inr t ↦ rw (t, apply_loop) (inl t)
]

-- The loop of applyCommittedEntries ends after at most as many rounds as the commit index is ahead of
-- the last applied one: then its test fails, or the entry that it came to is missing, so that
-- it would make no further round. (The commit index is an `int`.)
pub apply_committed_entries-Stopped :
    (s : PaxosServer) → pos_part s.commit_index < 2 ^ 63 → Stopped (apply_committed_entries s)
unfolding apply_committed_entries
apply_committed_entries-Stopped s b = apply_loop-Stopped (rounds s) s (omega arith) b
