-- ===== src/Paxos/Reign/Gap.antt =====
-- What a follower does with a gap in its log (`UpdateLog` of multipaxos_kvstore/persistence/persistence.go,
-- `HandleAccept`, `HandleHeartbeat` and `applyCommittedEntries` of
-- multipaxos_kvstore/server/paxos_server.go).
use go_distributed_system_de.Base.{
  pos, ltb_ℤ, ◌+◌, ◌^◌, ◌<◌, ℕ, suc, true, [], ◌∷◌, length, take, ok, ◌≡◌, refl, sym, ap, ◌∙◌,
  subst, arith,
}
use go_distributed_system_de.Types.Ballot.{BallotNumber}
use go_distributed_system_de.Types.Ballot.Order.{AtLeast, AtLeast-iff}
use go_distributed_system_de.Types.Entry.{LogEntry}
use go_distributed_system_de.Types.KvStore.{KvStore, apply_all}
use go_distributed_system_de.Persistence.Log.{length-updated}
use go_distributed_system_de.Paxos.State.{PaxosServer}
use go_distributed_system_de.Paxos.Acceptor.{handle_accept}
use go_distributed_system_de.Paxos.Acceptor.Regress.{voted, handle_accept_succeeds}
use go_distributed_system_de.Paxos.Learner.{apply_committed_entries, apply_loop, rounds}
use go_distributed_system_de.Paxos.Learner.Replay.{
  last_index, HasApplied, behind, rounds-last_index, apply_committed_entries-HasApplied,
  apply_committed_entries-OnlyApplied,
}
use go_distributed_system_de.Paxos.Replication.{commit}
use go_distributed_system_de.Paxos.Reign.Filled.{old_entries, whole_store}
use go_distributed_system_de.Paxos.Heartbeat.{handle_heartbeat, heard}

-- `s` after it has accepted the entry at `k`, and has heard that `k` is committed.
abbrev accepted : ℕ → BallotNumber → LogEntry → ℕ → PaxosServer → PaxosServer
accepted k ballot entry now s = record s { last_heartbeat = now; ps = voted k ballot entry s.ps }

abbrev told : ℕ → BallotNumber → ℕ → PaxosServer → PaxosServer
told k ballot later s = record (heard ballot later s) { commit_index = pos k }

tells :
    (k : ℕ) (ballot : BallotNumber) (later : ℕ) (s : PaxosServer)
    → AtLeast ballot s.ps.npromised
    → ltb_ℤ s.commit_index (pos k) ≡ true
    → (handle_heartbeat ballot (pos k) later s).1 ≡ told k ballot later s
unfolding handle_heartbeat heard commit
tells k ballot later s a c = rw ((AtLeast-iff ballot s.ps.npromised).1 a) (rw c refl)

-- A server that has applied all that it knows as committed has nothing to do.
idle :
    (n : ℕ) (s : PaxosServer)
    → s.last_applied ≡ last_index n
    → s.commit_index ≡ last_index n
    → apply_committed_entries s ≡ s
unfolding apply_committed_entries apply_loop
idle n s l c =
    let z : 0 + n ≡ n = omega arith in
    let e : rounds s ≡ 0 = rounds-last_index 0 n s l (c ∙ ap last_index (sym z)) in
    rw (e, apply_loop) refl

-- The server once the entry at `k` is accepted, known as committed and applied.
abbrev pub past_gap : ℕ → BallotNumber → LogEntry → ℕ → ℕ → PaxosServer → PaxosServer
past_gap k ballot entry now later s =
    apply_committed_entries
      (handle_heartbeat ballot (pos k) later (handle_accept ballot entry now s).1).1

-- After the gap: everything up to `k` counts as applied, and the rest is as it was.
record Passed (k : ℕ) (entry : LogEntry) (s u : PaxosServer) : Type 0 where
  last : u.last_applied ≡ pos k
  commit : u.commit_index ≡ pos k
  store : u.kv_store ≡ apply_all s.kv_store (entry ∷ [])
  saves : u.ps.saves ≡ s.ps.saves
  promised : u.ps.npromised ≡ s.ps.npromised

told-Passed :
    (kv : KvStore) (d k now later : ℕ) (ballot : BallotNumber) (entry : LogEntry) (s : PaxosServer)
    → HasApplied kv (length s.ps.log) s
    → suc d + length s.ps.log ≡ k
    → k < 2 ^ 63
    → Passed k entry s
        (apply_committed_entries (told k ballot later (accepted k ballot entry now s)))
unfolding heard
told-Passed kv d k now later ballot entry s h q room =
    let log = s.ps.log in
    let before = told k ballot later (accepted k ballot entry now s) in
    let u = apply_committed_entries before in
    let z : suc (suc d) + length log ≡ suc k = omega (arith, q) in
    let short : length log < k = omega (arith, q) in
    let started : HasApplied kv (length log) before = record {
      last = h.last;
      store = h.store ∙ ap (apply_all kv) (sym (old_entries log k entry short));
    } in
    let all =
      apply_committed_entries-HasApplied kv (suc (suc d)) (length log) before started
        (ap last_index (sym z)) (omega (arith, z, length-updated log k entry))
        (omega (arith, z, room)) in
    let rest = apply_committed_entries-OnlyApplied before in
    record {
      last = all.last ∙ ap last_index z;
      commit = ap (λ (t : PaxosServer). t.commit_index) rest;
      store =
          all.store
          ∙ ap (λ n. apply_all kv (take n u.ps.log)) z
          ∙ ap (λ (t : PaxosServer). apply_all kv (take (suc k) t.ps.log)) rest
          ∙ whole_store log k entry short kv (suc d) q
          ∙ ap (λ st. apply_all st (entry ∷ [])) (sym h.store);
      saves = ap (λ (t : PaxosServer). t.ps.saves) rest;
      promised = ap (λ (t : PaxosServer). t.ps.npromised) rest;
    }

past_gap-Passed :
    (kv : KvStore) (d k now later : ℕ) (ballot : BallotNumber) (entry : LogEntry) (s : PaxosServer)
    → s.ps.saves ≡ []
    → HasApplied kv (length s.ps.log) s
    → s.commit_index ≡ last_index (length s.ps.log)
    → AtLeast ballot s.ps.npromised
    → entry.index ≡ pos k
    → suc d + length s.ps.log ≡ k
    → k < 2 ^ 63
    → Passed k entry s (past_gap k ballot entry now later s)
past_gap-Passed kv d k now later ballot entry s f h c a p q room =
    let z : suc (suc d) + length s.ps.log ≡ suc k = omega (arith, q) in
    let behind_it : ltb_ℤ s.commit_index (pos k) ≡ true =
      ap (λ i. ltb_ℤ i (pos k)) c
      ∙ ap (λ n. ltb_ℤ (last_index (length s.ps.log)) (last_index n)) (sym z)
      ∙ behind (length s.ps.log) (suc d) in
    let first = handle_accept_succeeds k ballot entry now s f p a in
    let e : past_gap k ballot entry now later s
        ≡ apply_committed_entries (told k ballot later (accepted k ballot entry now s)) =
      ap (λ r. apply_committed_entries (handle_heartbeat ballot (pos k) later r.1).1) first
      ∙ ap apply_committed_entries
          (tells k ballot later (accepted k ballot entry now s) a behind_it) in
    subst (Passed k entry s) (sym e) (told-Passed kv d k now later ballot entry s h q room)

-- A follower that misses entries applies empty ones in their place, for good. When a follower that has
-- applied all of its log accepts an entry past the end of it and hears that this entry is
-- committed, the learner counts every missing position as applied but applies only the new entry;
-- an Accept of a missing entry that arrives then is accepted, and is never applied. (Its saves
-- succeed, and the ballot is at least its promise.)
pub gap_applied_empty :
    (kv : KvStore) (d k i now later last : ℕ) (ballot : BallotNumber) (entry missed : LogEntry)
    (s : PaxosServer)
    → s.ps.saves ≡ []
    → HasApplied kv (length s.ps.log) s
    → s.commit_index ≡ last_index (length s.ps.log)
    → AtLeast ballot s.ps.npromised
    → entry.index ≡ pos k
    → suc d + length s.ps.log ≡ k
    → k < 2 ^ 63
    → missed.index ≡ pos i
    → i < k
    → let t = past_gap k ballot entry now later s in
      let late = handle_accept ballot missed last t in
      ((handle_accept ballot entry now s).0 ≡ ok (true, pos k, ballot))
      × (t.last_applied ≡ pos k)
      × (t.kv_store ≡ apply_all s.kv_store (entry ∷ []))
      × (late.0 ≡ ok (true, pos i, ballot))
      × ((apply_committed_entries late.1).kv_store ≡ t.kv_store)
gap_applied_empty kv d k i now later last ballot entry missed s f h c a p q room r l =
    let t = past_gap k ballot entry now later s in
    let passed = past_gap-Passed kv d k now later ballot entry s f h c a p q room in
    let late =
      handle_accept_succeeds i ballot missed last t (passed.saves ∙ f) r
        (subst (AtLeast ballot) (sym passed.promised) a) in
    (
      ap (λ o. o.0) (handle_accept_succeeds k ballot entry now s f p a),
      passed.last,
      passed.store,
      ap (λ o. o.0) late,
      ap (λ o. (apply_committed_entries o.1).kv_store) late
          ∙ ap (λ (u : PaxosServer). u.kv_store)
              (idle (suc k) (accepted i ballot missed last t) passed.last passed.commit),
    )
