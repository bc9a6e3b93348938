-- ===== src/Paxos/Learner/Skip.antt =====
-- A committed index that the log does not hold yet
-- (`applyCommittedEntries` of multipaxos_kvstore/server/paxos_server.go).
use go_distributed_system_de.Base.{
  pos, ltb_ℤ, inc64, ◌+◌, ◌^◌, ◌<◌, ℕ, suc, true, none, some, length, ◌≡◌, refl, ap, ap₂, ◌∙◌,
  arith, get_elem?-none,
}
use go_distributed_system_de.Types.Entry.{LogEntry}
use go_distributed_system_de.Persistence.{get_log_entry, update_log}
use go_distributed_system_de.Persistence.Log.{get_log_entry-get_elem?, get_log_entry-update_log}
use go_distributed_system_de.Paxos.State.{PaxosServer}
use go_distributed_system_de.Paxos.Learner.{apply_loop, apply_committed_entries, rounds}
use go_distributed_system_de.Paxos.Learner.Replay.{
  last_index, inc64-last_index, behind, rounds-last_index,
}

apply_missing :
    (n : ℕ) (s : PaxosServer)
    → s.last_applied ≡ last_index n
    → s.commit_index ≡ pos n
    → length s.ps.log ≡ n
    → n < 2 ^ 63
    → apply_committed_entries s ≡ record s { last_applied = pos n }
unfolding apply_committed_entries apply_loop
apply_missing n s h c l b =
    let one : suc n ≡ 1 + n = omega arith in
    let two : pos n ≡ last_index (1 + n) = ap last_index one in
    let inc : inc64 s.last_applied ≡ pos n = ap inc64 h ∙ inc64-last_index n b in
    let t : ltb_ℤ s.last_applied s.commit_index ≡ true = ap₂ ltb_ℤ h (c ∙ two) ∙ behind n 0 in
    let r : rounds s ≡ 1 = rounds-last_index 1 n s h (c ∙ two) in
    let q : get_log_entry s.ps (inc64 s.last_applied) ≡ none =
      ap (get_log_entry s.ps) inc
      ∙ get_log_entry-get_elem? s.ps n
      ∙ get_elem?-none s.ps.log n (omega arith) in
    rw (r, t, q, inc, apply_loop)

apply_nothing :
    (s : PaxosServer) (n : ℕ)
    → s.last_applied ≡ pos n
    → s.commit_index ≡ pos n
    → apply_committed_entries s ≡ s
unfolding apply_committed_entries apply_loop
apply_nothing s n h c =
    let z : suc n ≡ 0 + suc n = omega arith in
    let r : rounds s ≡ 0 = rounds-last_index 0 (suc n) s h (c ∙ ap last_index z) in rw r

-- When the commit index is ahead of the log by one entry, the pass over the committed entries moves
-- the last applied index onto the missing entry and leaves the store alone; and once the entry is
-- written at that index, another pass changes nothing, so this entry is never applied.
pub apply_committed_entries_skips :
    (n : ℕ) (s : PaxosServer) (entry : LogEntry)
    → s.last_applied ≡ last_index n
    → s.commit_index ≡ pos n
    → length s.ps.log ≡ n
    → n < 2 ^ 63
    → let s' = apply_committed_entries s in
      let s'' = record s' { ps = (update_log (pos n) entry s'.ps).1 } in
      (s'.last_applied ≡ pos n)
      × (s'.kv_store ≡ s.kv_store)
      × (get_log_entry s''.ps (pos n) ≡ some entry)
      × (apply_committed_entries s'' ≡ s'')
apply_committed_entries_skips n s entry h c l b = rw (apply_missing n s h c l b) (
  refl,
  refl,
  get_log_entry-update_log s.ps n n entry ∙ (ground arith),
  apply_nothing (record s { last_applied = pos n; ps = (update_log (pos n) entry s.ps).1 }) n refl
      c,
)
