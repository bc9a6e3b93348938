-- ===== src/Paxos/Clients/Session/Answers.antt =====
-- How a leader answers a session of Puts, Deletes and Gets
-- (multipaxos_kvstore/server/paxos_server.go).
use go_distributed_system_de.Base.{
  pos, ◌+◌, ◌≤◌, ℕ, suc, String, true, false, List, [], ◌∷◌, Option, none, some, length, ◌≡◌, refl,
  arith, str_eq, ap, ◌∙◌, sym, subst, length-append, Bool-cases, inl, inr,
}
use go_distributed_system_de.Types.Entry.{OperationType, op_put, op_delete}
use go_distributed_system_de.Types.KvStore
use go_distributed_system_de.Types.KvStore.{new_kv_store}
use go_distributed_system_de.Types.Role.{is_leader}
use go_distributed_system_de.Paxos.State.{PaxosServer, majority}
use go_distributed_system_de.Paxos.Replication.{AcceptReply, count_accepts}
use go_distributed_system_de.Paxos.Learner.{apply_committed_entries, apply_loop, rounds}
use go_distributed_system_de.Paxos.Learner.Replay.{
  last_index, rounds-last_index, HasApplied, apply_committed_entries-OnlyApplied,
}
use go_distributed_system_de.Paxos.Clients.{
  put, put_at, delete, delete_at, get, found, read_position,
}
use go_distributed_system_de.Paxos.Clients.Replies.{
  UpToDate, after_entry, entry_of, propose-UpToDate, applied-after_entry, get-after_entry,
}
use go_distributed_system_de.Paxos.Clients.Session.{
  Request, puts, deletes, gets, serve, serve_all, Contents, write, done, refused, answer, ask_all,
  AllAccepted, Settled,
}

Settled-UpToDate :
    (n left : ℕ) (m : Contents) (s : PaxosServer) → Settled n (suc left) m s → UpToDate s
Settled-UpToDate n left m s h = record {
  leads = h.leads;
  saves = h.saves;
  applied = h.applied;
  commit = h.commit;
  room = omega (arith, h.room);
}

Settled-less :
    (n left : ℕ) (m : Contents) (s : PaxosServer) → Settled n (suc left) m s → Settled n left m s
Settled-less n left m s h = record {
  leads = h.leads;
  saves = h.saves;
  applied = h.applied;
  commit = h.commit;
  room = omega (arith, h.room);
  quorum = h.quorum;
  shows = h.shows;
}

-- The server once the entry of an accepted request is applied.
abbrev after : OperationType → String → String → PaxosServer → PaxosServer
after op key value s = apply_committed_entries (after_entry op key value s)

module _ (n left : ℕ) (m m' : Contents) (s : PaxosServer) (h : Settled n (suc left) m s)
    (op : OperationType) (key value : String) where
  -- What applying changes no part of.
  rest : after op key value s ≡ record (after_entry op key value s) {
    last_applied = (after op key value s).last_applied;
    kv_store = (after op key value s).kv_store;
  }
  rest = apply_committed_entries-OnlyApplied (after_entry op key value s)

  log-after : length (after op key value s).ps.log ≡ 1 + length s.ps.log
  log-after =
      ap (λ (t : PaxosServer). length t.ps.log) rest
      ∙ omega (arith, length-append s.ps.log (entry_of op key value s ∷ []))

  after-Settled :
      ((j : String) → KvStore.get (after op key value s).kv_store j ≡ m' j)
      → Settled n left m' (after op key value s)
  after-Settled g =
      let c : pos (length s.ps.log) ≡ last_index (length (after op key value s).ps.log) =
        ap last_index (
          let y : suc (length s.ps.log) ≡ length (after op key value s).ps.log =
            omega (arith, log-after) in
          y) in
      record {
        leads = ap (λ (t : PaxosServer). t.state) rest ∙ h.leads;
        saves = ap (λ (t : PaxosServer). t.ps.saves) rest ∙ h.saves;
        applied =
            subst (λ k. HasApplied new_kv_store k (after op key value s)) (sym log-after)
              (applied-after_entry s op key value (Settled-UpToDate n left m s h));
        commit = ap (λ (t : PaxosServer). t.commit_index) rest ∙ c;
        room = omega (arith, log-after, h.room);
        quorum = ap majority rest ∙ h.quorum;
        shows = g;
      }

apply-Settled :
    (n left : ℕ) (m : Contents) (s : PaxosServer)
    → Settled n left m s
    → apply_committed_entries s ≡ s
unfolding apply_committed_entries apply_loop
apply-Settled n left m s h =
    let z : 0 + length s.ps.log ≡ length s.ps.log = omega arith in
    let e : rounds s ≡ 0 =
      rounds-last_index 0 (length s.ps.log) s h.applied.last (h.commit ∙ ap last_index (sym z)) in
    rw (e, apply_loop) refl

module _ (n left : ℕ) (m : Contents) (s : PaxosServer) (h : Settled n (suc left) m s) where
  leads : is_leader s.state ≡ true
  leads = ap is_leader h.leads

  serve-rejected :
      (key value : String) (replies : List AcceptReply)
      → str_eq value "reject" ≡ true
      → serve (puts key value replies) s ≡ (refused, s)
  unfolding serve put put_at read_position
  serve-rejected key value replies v = rw (leads, v, apply-Settled n (suc left) m s h) refl

  serve-put :
      (key value : String) (replies : List AcceptReply)
      → str_eq value "reject" ≡ false
      → n ≤ count_accepts replies
      → serve (puts key value replies) s ≡ (done, after op_put key value s)
  unfolding serve put put_at read_position
  serve-put key value replies v a =
      rw
        (
          leads,
          v,
          propose-UpToDate s op_put key value replies (Settled-UpToDate n left m s h)
              (omega (arith, h.quorum)),
        )
        refl

  serve-delete :
      (key : String) (replies : List AcceptReply)
      → n ≤ count_accepts replies
      → serve (deletes key replies) s ≡ (done, after op_delete key "" s)
  unfolding serve delete delete_at read_position
  serve-delete key replies a =
      rw
        (
          leads,
          propose-UpToDate s op_delete key "" replies (Settled-UpToDate n left m s h)
              (omega (arith, h.quorum)),
        )
        refl

  found-answer : (v : Option String) → found v ≡ answer v
  unfolding found
  found-answer none = refl
  found-answer (some v) = refl

  serve-get : (key : String) → serve (gets key) s ≡ (answer (m key), s)
  unfolding serve get
  serve-get key = rw (h.shows key, found-answer (m key)) refl

  put-Settled :
      (key value : String) → Settled n left (write key (some value) m) (after op_put key value s)
  put-Settled key value =
      after-Settled n left m (write key (some value) m) s h op_put key value (λ j.
        get-after_entry s op_put key value j (Settled-UpToDate n left m s h)
        ∙ ground (arith, h.shows j))

  delete-Settled : (key : String) → Settled n left (write key none m) (after op_delete key "" s)
  delete-Settled key = after-Settled n left m (write key none m) s h op_delete key "" (λ j.
      get-after_entry s op_delete key "" j (Settled-UpToDate n left m s h)
      ∙ ground (arith, h.shows j))

-- Any sequence of Puts, Deletes and Gets to a leader that starts settled (saves succeed, all of
-- its log is applied, its store shows the contents `m`, and its log has room for the requests),
-- when a majority accepts each proposal and the learner has its turn after each request, gets
-- exactly the replies that a map which starts as `m` gives: a Put of "reject" is refused and
-- changes nothing, any other Put or Delete is answered `OK` and is seen by every later Get of its
-- key until the next one, and a Get of a key without a value reports that it is not found.
pub serve_all-ask_all :
    (n : ℕ) (qs : List Request) (m : Contents) (s : PaxosServer)
    → Settled n (length qs) m s
    → AllAccepted n qs
    → serve_all qs s ≡ ask_all qs m
unfolding serve_all
serve_all-ask_all n [] m s h a = refl
serve_all-ask_all n (puts key value replies ∷ qs) m s h a =
    elim (Bool-cases (str_eq value "reject")) [
      | inl e ↦
          rw (serve-rejected n (length qs) m s h key value replies e, e)
            (ap (◌∷◌ refused) (serve_all-ask_all n qs m s (Settled-less n (length qs) m s h) a.1))
      | inr e ↦
          rw (serve-put n (length qs) m s h key value replies e a.0, e)
            (ap (◌∷◌ done) (
              serve_all-ask_all n qs (write key (some value) m) (after op_put key value s)
                (put-Settled n (length qs) m s h key value) a.1))
    ]
serve_all-ask_all n (deletes key replies ∷ qs) m s h a =
    rw (serve-delete n (length qs) m s h key replies a.0) (
      ap (◌∷◌ done) (
        serve_all-ask_all n qs (write key none m) (after op_delete key "" s)
          (delete-Settled n (length qs) m s h key) a.1))
serve_all-ask_all n (gets key ∷ qs) m s h a =
    rw (serve-get n (length qs) m s h key)
      (ap (◌∷◌ (answer (m key))) (serve_all-ask_all n qs m s (Settled-less n (length qs) m s h) a))
