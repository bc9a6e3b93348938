-- ===== src/Cluster/Reads.antt =====
-- A Get of the client library after its Put (multipaxos_kvstore/client/client.go,
-- multipaxos_kvstore/server/grpc_server.go, multipaxos_kvstore/server/paxos_server.go).
use go_distributed_system_de.Base.{
  if◌then◌else◌, ℤ, Bool, ℕ, suc, ◌+◌, ◌==◌, ◌≤◌, ◌<◌, String, true, false, [], some, ◌≡◌, refl, ap,
  subst, sym, ◌∙◌, arith, str_eq, not, ◌&&◌, ltb, length, Bool-cases, inl, inr, Outcome, ok, err,
  panic, pos, negsuc, leb_ℤ,
}
use go_distributed_system_de.Types.Ballot.{BallotNumber, compare}
use go_distributed_system_de.Types.Entry.{LogEntry, op_put}
use go_distributed_system_de.Types.Role.{is_leader}
use go_distributed_system_de.Types.KvStore
use go_distributed_system_de.Persistence.Log.{update_log_negative}
use go_distributed_system_de.Paxos.State.{PaxosServer, Error, majority}
use go_distributed_system_de.Paxos.Acceptor.{handle_accept, accept_at}
use go_distributed_system_de.Paxos.Replication.{count_accepts}
use go_distributed_system_de.Paxos.Reign.Copies.{SameStore}
use go_distributed_system_de.Paxos.Reign.Moves.{same, accept-Written}
use go_distributed_system_de.Paxos.Clients
use go_distributed_system_de.Paxos.Clients.{text}
use go_distributed_system_de.Paxos.Clients.Replies.{UpToDate, after_entry}
use go_distributed_system_de.Rpc.Server
use go_distributed_system_de.Rpc.Server.{answer, accept_response, AcceptResponse, RpcError}
use go_distributed_system_de.Rpc.Peer
use go_distributed_system_de.Rpc.Peer.{read_back, accept_result}
use go_distributed_system_de.Rpc.Wire.{
  ballot_to_pb, pb_to_ballot, convert_log_entry_to_pb, convert_pb_to_log_entry,
}
use go_distributed_system_de.KvClient.{calls_of, put_key, get_key, finished}
use go_distributed_system_de.KvClient.Search.{request_finds_server}
use go_distributed_system_de.Cluster.{
  Cluster, Network, arrives, accept_one, get_at_server, stubs_from, client_of,
}
use go_distributed_system_de.Cluster.Puts.{put_entry, put_replies, after_put, put_key-put}

accept_at-negative :
    (s : PaxosServer) (k : ℕ) (ballot : BallotNumber) (entry : LogEntry) (now : ℕ)
    → SameStore s (accept_at (negsuc k) ballot entry now s).1
unfolding accept_at
accept_at-negative s k ballot entry now = rw (update_log_negative k entry s.ps) (same s)

-- An Accept, whatever comes of it, leaves the store of the server alone.
accept-SameStore :
    (s : PaxosServer) (ballot : BallotNumber) (entry : LogEntry) (now : ℕ)
    → SameStore s (handle_accept ballot entry now s).1
unfolding handle_accept
accept-SameStore s ballot entry now = by_index entry.index refl
  where
    by_index : (i : ℤ) → entry.index ≡ i → SameStore s (handle_accept ballot entry now s).1
    by_index (pos k) e = (accept-Written s k ballot entry now e).0
    by_index (negsuc k) e = elim (Bool-cases (leb_ℤ (pos 0) (compare ballot s.ps.npromised))) [
      | inl t ↦ rw t (
          subst (λ i. SameStore s (accept_at i ballot entry now s).1) (sym e)
            (accept_at-negative s k ballot entry now))
      | inr t ↦ rw t (same s)
    ]

state_kept :
    (r : Outcome Error (Bool × ℤ × BallotNumber) × PaxosServer)
    → (read_back accept_result (answer accept_response r)).1 ≡ r.1
state_kept (ok a, s) = refl
state_kept (err e, s) = refl
state_kept (panic, s) = refl

accept_one-store :
    (net : Network) (i j : ℕ) (entry : LogEntry) (w : Cluster)
    → (accept_one net i entry w j).kv_store ≡ (w j).kv_store
unfolding Peer.accept Server.accept
accept_one-store net i j entry w =
    let sends = not (j == i) && ltb j (length (w i).peers) && arrives (net.links j) in
    let b = pb_to_ballot (some (ballot_to_pb entry.ballot_num)) in
    let e = convert_pb_to_log_entry (convert_log_entry_to_pb entry) in
    let r = handle_accept b e (net.arrival j) (w j) in
    elim (Bool-cases sends) [
      | inl t ↦
          rw t (
            ap (λ s. s.kv_store) (state_kept r)
            ∙ (accept-SameStore (w j) b e (net.arrival j)).store)
      | inr t ↦ rw t refl
    ]

server_reads :
    (key old : String) (s : PaxosServer)
    → KvStore.get s.kv_store key ≡ some old
    → Server.get key s ≡ some (record { success = true; value = old; message = text "OK" })
unfolding Server.get Clients.get
server_reads key old s h = rw h refl

-- The first server in the list of the client answers a Get whenever it knows the key.
first_reads :
    (key old : String) (nets : ℕ → Network) (count : ℕ) (w : Cluster)
    → KvStore.get (w 0).kv_store key ≡ some old
    → get_key (client_of nets (suc count)) key w ≡ (finished old, w)
unfolding calls_of
first_reads key old nets count w h =
    let after = calls_of (λ stub. stub.get key) (stubs_from nets count 1) in
    let answered = ap (λ r. (r, w)) (server_reads key old (w 0) h) in
    (request_finds_server [] after (get_at_server 0 key) w w w
      (record { success = true; value = old; message = text "OK" }) refl answered refl).2

-- A Get after a Put can be stale. When the leader is not the first server of the list and the first
-- one holds `old` for the key, a Put of a new value that succeeds is followed by a Get of the same
-- client that returns `old`: followers answer reads from their own store. (The servers before
-- the leader do not lead, the leader has applied all of its log and can save, and with its own vote
-- a majority is heard to accept; the value is not "reject".)
pub get_after_put_stale :
    (key value old : String) (nets : ℕ → Network) (leading after : ℕ) (w : Cluster)
    → 0 < leading
    → ((j : ℕ) → j < leading → is_leader (w j).state ≡ false)
    → UpToDate (w leading)
    → majority (w leading) ≤ count_accepts (put_replies key value nets leading w)
    → str_eq value "reject" ≡ false
    → KvStore.get (w 0).kv_store key ≡ some old
    → let c = client_of nets (leading + suc after) in
      let (end, written) = put_key c key value w in
      (end ≡ finished "") × (get_key c key written ≡ (finished old, written))
get_after_put_stale key value old nets leading after w p h u m v k =
    let e = put_key-put key value nets leading after w h u m v in
    let written = after_put key value nets leading w in
    let z : (0 == leading) ≡ false = ground arith in
    let n : leading + suc after ≡ suc (leading + after) = omega arith in
    let entry = put_entry key value (w leading) in
    let kept = accept_one-store (nets leading) leading 0 entry w in
    let same : KvStore.get (written 0).kv_store key ≡ some old =
      ap
        (λ c.
          KvStore.get
            (if c
              then after_entry op_put key value (w leading)
              else accept_one (nets leading) leading entry w 0).kv_store
            key)
        z
      ∙ ap (λ kv. KvStore.get kv key) kept
      ∙ k in
    (
      ap (λ r. r.0) e,
      subst (λ r. get_key (client_of nets (leading + suc after)) key r.1 ≡ (finished old, r.1))
          (sym e)
          (subst (λ count. get_key (client_of nets count) key written ≡ (finished old, written))
            (sym n) (first_reads key old nets (leading + after) written same)),
    )
