-- ===== src/Cluster/Puts.antt =====
-- A Put of the client library is a Put of the leader (multipaxos_kvstore/client/client.go,
-- multipaxos_kvstore/server/grpc_server.go, multipaxos_kvstore/server/paxos_server.go).
use go_distributed_system_de.Base.{
  ℕ, suc, zero, ◌+◌, ◌==◌, ==_iff, ◌≤◌, ◌<◌, String, true, false, List, [], ◌∷◌, ◌++◌, Option, none,
  some, ◌≡◌, refl, sym, ap, subst, ◌∙◌, arith, str_eq, Bool-cases, inl, inr,
}
use go_distributed_system_de.Types.Entry.{LogEntry, op_put}
use go_distributed_system_de.Types.Role.{is_leader}
use go_distributed_system_de.Persistence.{append_log}
use go_distributed_system_de.Persistence.Durability.{save_succeeds}
use go_distributed_system_de.Paxos.State.{PaxosServer, majority}
use go_distributed_system_de.Paxos.Replication.{AcceptReply, count_accepts, begin_proposal}
use go_distributed_system_de.Paxos.Clients
use go_distributed_system_de.Paxos.Clients.{text, put_at, read_position}
use go_distributed_system_de.Paxos.Clients.Replies.{
  UpToDate, entry_of, after_entry, propose-UpToDate, refused_requests,
}
use go_distributed_system_de.Rpc.Server
use go_distributed_system_de.KvClient.{Call, Stub, calls_of, put_key, finished, write}
use go_distributed_system_de.KvClient.Search.{Declined, AllDecline, request_finds_server}
use go_distributed_system_de.Cluster.{
  Cluster, change, Network, put_sends, accept_one, accept_all, replies_to, put_at_server, stub_of,
  stubs_from, client_of,
}

change_same : (w : Cluster) (i : ℕ) → change w i (w i) ≡ w
change_same w i = λ k j. at j k
  where
    at : (j : ℕ) → change w i (w i) j ≡ w j
    at j = elim (Bool-cases (j == i)) [
      | inl e ↦ rw e (ap w (sym ((==_iff j i).0 e)))
      | inr e ↦ rw e refl
    ]

-- What a leader that has applied all of its log sends for a Put.
abbrev pub put_entry : String → String → PaxosServer → LogEntry
put_entry key value s = entry_of op_put key value s

put_sends-UpToDate :
    (key value : String) (s : PaxosServer)
    → UpToDate s
    → str_eq value "reject" ≡ false
    → put_sends key value s ≡ some (put_entry key value s)
unfolding put_sends begin_proposal append_log read_position
put_sends-UpToDate key value s u v =
    let l : is_leader s.state ≡ true = ap is_leader u.leads in
    rw (l, put_sends)
      (rw (v, begin_proposal)
        (rw (l, begin_proposal)
          (rw (save_succeeds (record s.ps { log = s.ps.log ++ put_entry key value s ∷ [] }) u.saves)
            refl)))

put_sends-follower :
    (key value : String) (s : PaxosServer)
    → is_leader s.state ≡ false
    → put_sends key value s ≡ none
unfolding put_sends read_position
put_sends-follower key value s h = rw (h, put_sends) refl

module _ (key value : String) (nets : ℕ → Network) where
  put_call : Stub Cluster → Call Cluster
  put_call stub = stub.put key value

  calls_from : ℕ → ℕ → List (Option (Call Cluster))
  calls_from count i = calls_of put_call (stubs_from nets count i)

  split_calls :
      (before after i : ℕ)
      → calls_from (before + suc after) i
        ≡ calls_from before i
          ++ some (put_at_server (nets (before + i)) (before + i) key value)
            ∷ calls_from after (suc (before + i))
  unfolding calls_from calls_of put_call
  split_calls zero after i =
      let z : 0 + suc after ≡ suc after = omega arith in
      let y : 0 + i ≡ i = omega arith in rw (z, y) refl
  split_calls (suc before) after i =
      let z : suc before + suc after ≡ suc (before + suc after) = omega arith in
      let y : suc before + i ≡ before + suc i = omega arith in
      rw (z, y) (ap (◌∷◌ (some (put_call (stub_of (nets i) i)))) (split_calls before after (suc i)))

  follower_declines :
      (w : Cluster) (i : ℕ)
      → is_leader (w i).state ≡ false
      → let r = put_at_server (nets i) i key value w in Declined r.0 × (r.1 ≡ w)
  unfolding Server.put accept_all replies_to
  follower_declines w i h =
      let (put_refused, delete_refused) = refused_requests (w i) key value [] h in
      rw (put_sends-follower key value (w i) h, put_refused) (refl, change_same w i)

  followers_decline :
      (w : Cluster) (count i : ℕ)
      → ((j : ℕ) → i ≤ j → j < i + count → is_leader (w j).state ≡ false)
      → AllDecline (calls_from count i) w w
  unfolding calls_from calls_of put_call
  followers_decline w zero i h = refl
  followers_decline w (suc count) i h =
      let (declined, same) = follower_declines w i (h i (omega arith) (omega arith)) in
      (
        declined,
        subst (λ v. AllDecline (calls_from count (suc i)) v w) (sym same)
            (followers_decline w count (suc i)
              (λ j l k. h j (omega (arith, l)) (omega (arith, k)))),
      )

  -- What the leader hears, and what its Put leaves.
  abbrev pub put_replies : ℕ → Cluster → List AcceptReply
  put_replies i w = replies_to (nets i) i (some (put_entry key value (w i))) w

  abbrev pub after_put : ℕ → Cluster → Cluster
  after_put i w =
      change (accept_one (nets i) i (put_entry key value (w i)) w) i
        (after_entry op_put key value (w i))

  leader_answers :
      (w : Cluster) (i : ℕ)
      → UpToDate (w i)
      → majority (w i) ≤ count_accepts (put_replies i w)
      → str_eq value "reject" ≡ false
      → put_at_server (nets i) i key value w
        ≡ (some (record { success = true; value = ""; message = text "OK" }), after_put i w)
  unfolding Server.put accept_all Clients.put put_at read_position
  leader_answers w i u m v =
      let l : is_leader (w i).state ≡ true = ap is_leader u.leads in
      rw (put_sends-UpToDate key value (w i) u v)
        (rw (l, v, propose-UpToDate (w i) op_put key value (put_replies i w) u m) refl)

-- A Put of the client library, when the servers before the leader in its list do not lead, the
-- leader has applied all of its log and can save, the value is not "reject", and with the leader's
-- own vote a majority is heard to accept, reports no error. The leader then has the entry at the
-- end of its log, on disk and committed, under the ballot that it promised; every peer that the
-- leader's Accept reached has handled it, and every other server is as it was.
pub put_key-put :
    (key value : String) (nets : ℕ → Network) (leading after : ℕ) (w : Cluster)
    → ((j : ℕ) → j < leading → is_leader (w j).state ≡ false)
    → UpToDate (w leading)
    → majority (w leading) ≤ count_accepts (put_replies key value nets leading w)
    → str_eq value "reject" ≡ false
    → put_key (client_of nets (leading + suc after)) key value w
      ≡ (finished "", after_put key value nets leading w)
unfolding calls_from put_call
put_key-put key value nets leading after w h u m v =
    let z : leading + 0 ≡ leading = omega arith in
    let before = calls_from key value nets leading 0 in
    let found =
      request_finds_server before (calls_from key value nets after (suc leading))
        (put_at_server (nets leading) leading key value) w w (after_put key value nets leading w)
        (record { success = true; value = ""; message = text "OK" })
        (followers_decline key value nets w leading 0 (λ j l k. h j (omega (arith, k))))
        (leader_answers key value nets w leading u m v) refl in
    ap (λ calls. write calls w) (split_calls key value nets leading after 0)
    ∙ ap
        (λ k.
          write
            (before
              ++ some (put_at_server (nets k) k key value)
                ∷ calls_from key value nets after (suc k))
            w)
        z
    ∙ found.1
