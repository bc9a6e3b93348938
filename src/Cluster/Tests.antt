-- ===== src/Cluster/Tests.antt =====
-- A small cluster (multipaxos_kvstore/client/client.go): server 1 of 3 leads.
use go_distributed_system_de.Base.{
  ℕ, true, false, ◌==◌, [], ◌∷◌, pos, none, if◌then◌else◌, lookup, insert, wrap32, ◌≡◌, refl, arith,
  List,
}
use go_distributed_system_de.Types.Role.{leader}
use go_distributed_system_de.Types.Ballot.{new_ballot_number, compare}
use go_distributed_system_de.Types.KvStore
use go_distributed_system_de.Types.KvStore.{apply_all}
use go_distributed_system_de.Persistence.{update_log, set_highest_accepted_ballot, save}
use go_distributed_system_de.Paxos.State.{PaxosServer, make_server}
use go_distributed_system_de.Paxos.Acceptor.{handle_accept, accept_at}
use go_distributed_system_de.Paxos.Replication.{AcceptReply, replied, count_accepts}
use go_distributed_system_de.Paxos.Clients.Replies.{UpToDate}
use go_distributed_system_de.Rpc.Server
use go_distributed_system_de.Rpc.Peer
use go_distributed_system_de.Rpc.Wire.{
  ballot_to_pb, pb_to_ballot, convert_log_entry_to_pb, convert_pb_to_log_entry,
}
use go_distributed_system_de.KvClient.{put_key, get_key, finished}
use go_distributed_system_de.Cluster.{
  Cluster, Network, delivered, replies_to, replies_from, accept_reply, client_of,
}
use go_distributed_system_de.Cluster.Puts.{put_replies, after_put, put_key-put}
use go_distributed_system_de.Cluster.Reads.{get_after_put_stale}

abbrev server : ℕ → PaxosServer
server i =
    make_server (pos i) ("a" ∷ "b" ∷ "c" ∷ [])
      (record {
        log = [];
        npromised = new_ballot_number (pos 1) (pos 1);
        highest_accepted_ballot = [];
        file = none;
        saves = [];
      })
      0

abbrev leading : PaxosServer
leading = record (server 1) { state = leader }

abbrev cluster : Cluster
cluster i = if i == 1 then leading else server i

leading-UpToDate : UpToDate (cluster 1)
unfolding apply_all
leading-UpToDate = record {
  leads = refl;
  saves = refl;
  applied = record { last = refl; store = refl };
  commit = refl;
  room = omega arith;
}

-- Every Accept is delivered.
abbrev nets : ℕ → Network
nets i = record { links = λ j. delivered; arrival = λ j. 7 }

-- Server 0 has an old value of the key.
abbrev lagging : PaxosServer
lagging = record (server 0) { kv_store = record { store = ("k", "old") ∷ [] } }

abbrev behind : Cluster
behind i = if i == 0 then lagging else cluster i

yeses : List AcceptReply
yeses = replied true ∷ replied true ∷ []

cluster_replies : put_replies "k" "v" nets 1 cluster ≡ yeses
unfolding yeses replies_to replies_from accept_reply Peer.accept Server.accept handle_accept
    accept_at update_log set_highest_accepted_ballot insert compare save pb_to_ballot ballot_to_pb
    wrap32 convert_pb_to_log_entry convert_log_entry_to_pb
cluster_replies = refl

behind_replies : put_replies "k" "v" nets 1 behind ≡ yeses
unfolding yeses replies_to replies_from accept_reply Peer.accept Server.accept handle_accept
    accept_at update_log set_highest_accepted_ballot insert compare save pb_to_ballot ballot_to_pb
    wrap32 convert_pb_to_log_entry convert_log_entry_to_pb
behind_replies = refl

put_key-put_example :
    put_key (client_of nets 3) "k" "v" cluster ≡ (finished "", after_put "k" "v" nets 1 cluster)
unfolding count_accepts yeses
put_key-put_example =
    put_key-put "k" "v" nets 1 1 cluster
      (λ j h. let e : (j == 1) ≡ false = ground arith in rw e refl) leading-UpToDate
      (rw cluster_replies (omega arith)) refl

get_after_put_stale_example :
    let c = client_of nets 3 in
    let (end, written) = put_key c "k" "v" behind in
    (end ≡ finished "") × (get_key c "k" written ≡ (finished "old", written))
unfolding count_accepts yeses KvStore.get lookup
get_after_put_stale_example =
    get_after_put_stale "k" "v" "old" nets 1 1 behind (omega arith)
      (λ j h. let e : (j == 0) ≡ true = ground arith in rw e refl) leading-UpToDate
      (rw behind_replies (omega arith)) refl refl
