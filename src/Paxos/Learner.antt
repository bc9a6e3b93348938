-- ===== src/Paxos/Learner.antt =====
-- The learner (`applyCommittedEntries` of multipaxos_kvstore/server/paxos_server.go).
pub mod Replay
pub mod Skip
pub mod Ends
use go_distributed_system_de.Base.{
  ℤ, pos_part, neg_part, ltb_ℤ, inc64, ◌+◌, ◌-◌, ℕ, suc, zero, true, false, none, some,
}
use go_distributed_system_de.Types.KvStore.{apply}
use go_distributed_system_de.Persistence.{get_log_entry}
use go_distributed_system_de.Paxos.State.{PaxosServer}

-- `for lastApplied < commitIndex`, on fuel. The index is advanced before the entry is looked up,
-- and a missing entry ends the loop.
unfoldable pub apply_loop : ℕ → PaxosServer → PaxosServer
apply_loop zero s = s
apply_loop (suc fuel) s = elim (ltb_ℤ s.last_applied s.commit_index) [
  | true ↦ elim (get_log_entry s.ps (inc64 s.last_applied)) [
    | none ↦ record s { last_applied = inc64 s.last_applied }
    | some entry ↦
        apply_loop fuel
          (record s { last_applied = inc64 s.last_applied; kv_store = (apply s.kv_store entry).1 })
  ]
  | false ↦ s
]

-- commitIndex - lastApplied, which is as many rounds as the loop can make.
abbrev pub rounds : PaxosServer → ℕ
rounds s =
    pos_part s.commit_index
    + neg_part s.last_applied
    - (pos_part s.last_applied + neg_part s.commit_index)

unfoldable pub apply_committed_entries : PaxosServer → PaxosServer
apply_committed_entries s = apply_loop (rounds s) s
