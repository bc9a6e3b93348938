-- ===== src/Paxos/Reign/Filled.antt =====
-- What `UpdateLog` past the end of the log leaves for the learner
-- (multipaxos_kvstore/persistence/persistence.go, multipaxos_kvstore/types/types.go).
use go_distributed_system_de.Base.{
  ◌+◌, ◌≤◌, ◌<◌, ℕ, suc, zero, List, [], ◌∷◌, length, take, take-suc, ◌≡◌, sym, ap, ◌∙◌, arith,
  get_elem?, some, ==_iff,
}
use go_distributed_system_de.Types.Entry.{LogEntry, zero_entry}
use go_distributed_system_de.Types.KvStore.{KvStore, apply_all}
use go_distributed_system_de.Types.KvStore.Laws.{apply_all-append, apply_all-zero}
use go_distributed_system_de.Persistence.Log.{updated, length-updated, get_elem?-updated}
use go_distributed_system_de.Paxos.Reign.Copies.{take-agrees}

module _ (log : List LogEntry) (k : ℕ) (entry : LogEntry) (h : length log < k) where
  below_end : (j : ℕ) → j < length log → get_elem? (updated log k entry) j ≡ get_elem? log j
  below_end j l = get_elem?-updated log k entry j ∙ ground (arith, ==_iff k j)

  in_gap : (j : ℕ) → length log ≤ j → j < k → get_elem? (updated log k entry) j ≡ some zero_entry
  in_gap j l m = get_elem?-updated log k entry j ∙ ground (arith, ==_iff k j)

  at_end : get_elem? (updated log k entry) k ≡ some entry
  at_end = get_elem?-updated log k entry k ∙ ground (arith, ==_iff k k)

  pub old_entries : take (length log) (updated log k entry) ≡ take (length log) log
  old_entries =
      take-agrees (length log) (updated log k entry) log (omega (arith, length-updated log k entry))
        below_end

  -- The entries of the gap change nothing.
  gap_store :
      (kv : KvStore) (d : ℕ)
      → d + length log ≤ k
      → apply_all kv (take (d + length log) (updated log k entry))
        ≡ apply_all kv (take (length log) log)
  gap_store kv zero l =
      let z : 0 + length log ≡ length log = omega arith in rw z (ap (apply_all kv) old_entries)
  gap_store kv (suc d) l =
      let z : suc d + length log ≡ suc (d + length log) = omega arith in
      ap (λ n. apply_all kv (take n (updated log k entry))) z
      ∙ ap (apply_all kv) (
          take-suc (updated log k entry) (d + length log) zero_entry
            (in_gap (d + length log) (omega arith) (omega arith)))
      ∙ apply_all-append (take (d + length log) (updated log k entry)) (zero_entry ∷ []) kv
      ∙ apply_all-zero (apply_all kv (take (d + length log) (updated log k entry)))
      ∙ gap_store kv d (omega arith)

  pub whole_store :
      (kv : KvStore) (d : ℕ)
      → d + length log ≡ k
      → apply_all kv (take (suc k) (updated log k entry))
        ≡ apply_all (apply_all kv (take (length log) log)) (entry ∷ [])
  whole_store kv d e =
      ap (apply_all kv) (take-suc (updated log k entry) k entry at_end)
      ∙ apply_all-append (take k (updated log k entry)) (entry ∷ []) kv
      ∙ ap (λ s. apply_all s (entry ∷ []))
          (ap (λ n. apply_all kv (take n (updated log k entry))) (sym e)
            ∙ gap_store kv d (omega (arith, e)))
