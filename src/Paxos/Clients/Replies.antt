-- ===== src/Paxos/Clients/Replies.antt =====
-- What a client sees of Put, Delete and Get (multipaxos_kvstore/server/paxos_server.go).
use go_distributed_system_de.Base.{
  pos, ltb_ℤ, ◌+◌, ◌^◌, ◌≤◌, suc, String, true, false, List, [], ◌∷◌, ◌++◌, none, some, length, ◌≡◌,
  refl, ok, arith, str_eq, str_eq_iff, ap, ◌∙◌, sym, take, take-suc, get_elem?-append_end,
  length-append,
}
use go_distributed_system_de.Types.Entry.{LogEntry, OperationType, new_log_entry, op_put, op_delete}
use go_distributed_system_de.Types.KvStore
use go_distributed_system_de.Types.KvStore.{KvStore, apply_all, new_kv_store}
use go_distributed_system_de.Types.KvStore.Laws.{apply_all-append, get-apply_all, last_write}
use go_distributed_system_de.Types.Role.{leader, is_leader}
use go_distributed_system_de.Paxos.State.{PaxosServer, majority, not_the_leader, key_not_found}
use go_distributed_system_de.Paxos.Replication.{AcceptReply, count_accepts, propose_entry}
use go_distributed_system_de.Paxos.Replication.Commit.{propose_entry_succeeds, appended_to}
use go_distributed_system_de.Paxos.Learner.{apply_committed_entries}
use go_distributed_system_de.Paxos.Learner.Replay.{
  last_index, behind, HasApplied, apply_committed_entries-HasApplied,
  apply_committed_entries-OnlyApplied,
}
use go_distributed_system_de.Paxos.Clients.{
  reply, text, not_the_leader_of, put, put_at, delete, delete_at, get, read_position,
}

-- A leader that has applied all of its log to an empty store, up to its commit index, and whose saves succeed.
pub record UpToDate (s : PaxosServer) : Type 0 where
  pub leads : s.state ≡ leader
  pub saves : s.ps.saves ≡ []
  pub applied : HasApplied new_kv_store (length s.ps.log) s
  pub commit : s.commit_index ≡ last_index (length s.ps.log)
  pub room : length s.ps.log + 1 ≤ 2 ^ 63

-- The server after the proposal of one entry at the end of the log.
abbrev pub after_entry : OperationType → String → String → PaxosServer → PaxosServer
after_entry op key value s =
    let entry = new_log_entry (pos (length s.ps.log)) s.ps.npromised op key value in
    record s { ps = appended_to s.ps entry; commit_index = pos (length s.ps.log) }

pub propose-UpToDate :
    (s : PaxosServer) (op : OperationType) (key value : String) (replies : List AcceptReply)
    → UpToDate s
    → majority s ≤ count_accepts replies
    → propose_entry (new_log_entry (pos (length s.ps.log)) s.ps.npromised op key value) replies s
      ≡ (ok tt, after_entry op key value s)
propose-UpToDate s op key value replies u m =
    let one : 1 + length s.ps.log ≡ suc (length s.ps.log) = omega arith in
    let t : ltb_ℤ s.commit_index (pos (length s.ps.log)) ≡ true =
      ap (λ c. ltb_ℤ c (pos (length s.ps.log))) u.commit
      ∙ ap (λ k. ltb_ℤ (last_index (length s.ps.log)) (last_index k)) (sym one)
      ∙ behind (length s.ps.log) 0 in
    propose_entry_succeeds s (new_log_entry (pos (length s.ps.log)) s.ps.npromised op key value)
      replies u.leads u.saves m
    ∙ (rw t)

take-append : (xs ys : List LogEntry) → take (length xs) (xs ++ ys) ≡ xs
take-append [] ys = refl
take-append (x ∷ xs) ys = ap (◌∷◌ x) (take-append xs ys)

take-all : (xs : List LogEntry) → take (length xs) xs ≡ xs
take-all [] = refl
take-all (x ∷ xs) = ap (◌∷◌ x) (take-all xs)

abbrev pub entry_of : OperationType → String → String → PaxosServer → LogEntry
entry_of op key value s = new_log_entry (pos (length s.ps.log)) s.ps.npromised op key value

store_of_log : (s : PaxosServer) → UpToDate s → s.kv_store ≡ apply_all new_kv_store s.ps.log
store_of_log s u = u.applied.store ∙ ap (apply_all new_kv_store) (take-all s.ps.log)

after_entry-HasApplied :
    (s : PaxosServer) (op : OperationType) (key value : String)
    → UpToDate s
    → HasApplied new_kv_store (length s.ps.log) (after_entry op key value s)
after_entry-HasApplied s op key value u = record {
  last = u.applied.last;
  store =
      store_of_log s u
      ∙ ap (apply_all new_kv_store) (sym (take-append s.ps.log (entry_of op key value s ∷ [])));
}

replay_one :
    (s : PaxosServer) (e : LogEntry)
    → apply_all new_kv_store (take (1 + length s.ps.log) (s.ps.log ++ e ∷ []))
      ≡ apply_all (apply_all new_kv_store s.ps.log) (e ∷ [])
replay_one s e =
    let y : 1 + length s.ps.log ≡ suc (length s.ps.log) = omega arith in
    rw
      (
        y,
        take-suc (s.ps.log ++ e ∷ []) (length s.ps.log) e (get_elem?-append_end s.ps.log e),
        take-append s.ps.log (e ∷ []),
      )
      (apply_all-append s.ps.log (e ∷ []) new_kv_store)

pub applied-after_entry :
    (s : PaxosServer) (op : OperationType) (key value : String)
    → UpToDate s
    → HasApplied new_kv_store
        (1 + length s.ps.log)
        (apply_committed_entries (after_entry op key value s))
applied-after_entry s op key value u =
    let e = entry_of op key value s in
    let n = length s.ps.log in
    let z : pos n ≡ last_index (1 + n) = ap last_index (let y : suc n ≡ 1 + n = omega arith in y) in
    apply_committed_entries-HasApplied new_kv_store 1 n (after_entry op key value s)
      (after_entry-HasApplied s op key value u) z (omega (arith, length-append s.ps.log (e ∷ [])))
      (omega (arith, u.room))

-- Once the new entry is applied, the store is the old one with the entry on top.
store-after_entry :
    (s : PaxosServer) (op : OperationType) (key value : String)
    → UpToDate s
    → (apply_committed_entries (after_entry op key value s)).kv_store
      ≡ apply_all s.kv_store (entry_of op key value s ∷ [])
store-after_entry s op key value u =
    let e = entry_of op key value s in
    let n = length s.ps.log in
    (applied-after_entry s op key value u).store
    ∙ ap (λ (t : PaxosServer). apply_all new_kv_store (take (1 + n) t.ps.log))
        (apply_committed_entries-OnlyApplied (after_entry op key value s))
    ∙ replay_one s e
    ∙ ap (λ kv. apply_all kv (e ∷ [])) (sym (store_of_log s u))

pub get-after_entry :
    (s : PaxosServer) (op : OperationType) (key value j : String)
    → UpToDate s
    → KvStore.get (apply_committed_entries (after_entry op key value s)).kv_store j
      ≡ last_write (entry_of op key value s ∷ []) j (KvStore.get s.kv_store j)
get-after_entry s op key value j u =
    ap (λ kv. KvStore.get kv j) (store-after_entry s op key value u)
    ∙ get-apply_all (entry_of op key value s ∷ []) s.kv_store j

-- After a Put on a leader that has applied all of its log, whose commit index is its last entry and
-- whose saves succeed, when a majority accepts, the client is told `OK`; and once the
-- committed entries are applied, a Get of the key on this server returns the value that was put,
-- unless the value is "reject".
pub get-put :
    (s : PaxosServer) (key value : String) (replies : List AcceptReply)
    → UpToDate s
    → majority s ≤ count_accepts replies
    → str_eq value "reject" ≡ false
    → let r = put key value replies s in
      (r.0 ≡ reply true (text "OK") none)
      × (get key (apply_committed_entries r.1) ≡ reply true (text value) none)
unfolding put put_at read_position get
get-put s key value replies u m v =
    let l : is_leader s.state ≡ true = ap is_leader u.leads in
    let w : KvStore.get (apply_committed_entries (after_entry op_put key value s)).kv_store key
        ≡ some value =
      get-after_entry s op_put key value key u ∙ ground (arith, str_eq_iff key key) in
    rw (l, v, propose-UpToDate s op_put key value replies u m) (refl, rw w)

-- After a Delete on a leader that has applied all of its log, whose commit index is its last entry and
-- whose saves succeed, when a majority accepts, the client is told `OK`; and once the
-- committed entries are applied, a Get of the key on this server reports that it is not found.
pub get-delete :
    (s : PaxosServer) (key : String) (replies : List AcceptReply)
    → UpToDate s
    → majority s ≤ count_accepts replies
    → let r = delete key replies s in
      (r.0 ≡ reply true (text "OK") none)
      × (get key (apply_committed_entries r.1) ≡ reply false (text "") (some key_not_found))
unfolding delete delete_at read_position get
get-delete s key replies u m =
    let l : is_leader s.state ≡ true = ap is_leader u.leads in
    let w : KvStore.get (apply_committed_entries (after_entry op_delete key "" s)).kv_store key
        ≡ none =
      get-after_entry s op_delete key "" key u ∙ ground (arith, str_eq_iff key key) in
    rw (l, propose-UpToDate s op_delete key "" replies u m) (refl, rw w)

-- A Put or a Delete on a server that does not lead changes nothing, and tells the client whom the
-- server takes for the leader.
pub refused_requests :
    (s : PaxosServer) (key value : String) (replies : List AcceptReply)
    → is_leader s.state ≡ false
    → (put key value replies s
        ≡ (reply false (not_the_leader_of s.current_leader) (some not_the_leader), s))
      × (delete key replies s
          ≡ (reply false (not_the_leader_of s.current_leader) (some not_the_leader), s))
unfolding put put_at delete delete_at read_position
refused_requests s key value replies h = (rw h, rw h)
