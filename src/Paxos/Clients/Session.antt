-- ===== src/Paxos/Clients/Session.antt =====
-- A session with a leader against a map (`Put`, `Delete`, `Get` and `applyCommittedEntries` of
-- multipaxos_kvstore/server/paxos_server.go).
pub mod Answers
use go_distributed_system_de.Base.{
  pos, ◌+◌, ◌^◌, ◌≤◌, ℕ, suc, String, true, false, List, [], ◌∷◌, Option, none, some, length, ◌≡◌,
  refl, arith, str_eq, ap, ◌∙◌, sym, subst, length-append, if◌then◌else◌, Bool-cases, inl, inr,
}
use go_distributed_system_de.Types.Entry.{OperationType, op_put, op_delete}
use go_distributed_system_de.Types.KvStore
use go_distributed_system_de.Types.KvStore.{new_kv_store}
use go_distributed_system_de.Types.Role.{leader, is_leader}
use go_distributed_system_de.Paxos.State.{PaxosServer, majority, key_not_found, simulated_rejection}
use go_distributed_system_de.Paxos.Replication.{AcceptReply, count_accepts}
use go_distributed_system_de.Paxos.Learner.{apply_committed_entries, apply_loop, rounds}
use go_distributed_system_de.Paxos.Learner.Replay.{
  last_index, rounds-last_index, HasApplied, apply_committed_entries-OnlyApplied,
}
use go_distributed_system_de.Paxos.Clients.{
  Reply, reply, text, rejected_value, put, put_at, delete, delete_at, get, found, read_position,
}
use go_distributed_system_de.Paxos.Clients.Replies.{
  UpToDate, after_entry, entry_of, propose-UpToDate, applied-after_entry, get-after_entry,
}

-- A request, with how the peers answer what it proposes.
pub data Request : Type 0 where
  puts : String → String → List AcceptReply → Request
  deletes : String → List AcceptReply → Request
  gets : String → Request

-- The server handles a request, and the learner has its turn before the next.
unfoldable pub serve : Request → PaxosServer → Reply × PaxosServer
serve (puts key value replies) s =
    let (r, s') = put key value replies s in (r, apply_committed_entries s')
serve (deletes key replies) s =
    let (r, s') = delete key replies s in (r, apply_committed_entries s')
serve (gets key) s = (get key s, s)

unfoldable pub serve_all : List Request → PaxosServer → List Reply
serve_all [] s = []
serve_all (q ∷ qs) s = let (r, s') = serve q s in r ∷ serve_all qs s'

-- The same requests to a map.
abbrev pub Contents : Type 0
Contents = String → Option String

abbrev pub write : String → Option String → Contents → Contents
write key value m j = if str_eq key j then value else m j

abbrev pub done : Reply
done = reply true (text "OK") none

abbrev pub refused : Reply
refused = reply false rejected_value (some simulated_rejection)

abbrev pub answer : Option String → Reply
answer none = reply false (text "") (some key_not_found)
answer (some value) = reply true (text value) none

abbrev pub ask : Request → Contents → Reply × Contents
ask (puts key value replies) m =
    if str_eq value "reject" then (refused, m) else (done, write key (some value) m)
ask (deletes key replies) m = (done, write key none m)
ask (gets key) m = (answer (m key), m)

abbrev pub ask_all : List Request → Contents → List Reply
ask_all [] m = []
ask_all (q ∷ qs) m = let (r, m') = ask q m in r ∷ ask_all qs m'

-- Every proposal is accepted by a majority of `n`.
abbrev pub AllAccepted : ℕ → List Request → Type 0
AllAccepted n [] = Unit {0}
AllAccepted n (puts key value replies ∷ qs) = (n ≤ count_accepts replies) × AllAccepted n qs
AllAccepted n (deletes key replies ∷ qs) = (n ≤ count_accepts replies) × AllAccepted n qs
AllAccepted n (gets key ∷ qs) = AllAccepted n qs

-- A leader between two requests: it has applied all of its log, and shows the contents `m`.
pub record Settled (n left : ℕ) (m : Contents) (s : PaxosServer) : Type 0 where
  pub leads : s.state ≡ leader
  pub saves : s.ps.saves ≡ []
  pub applied : HasApplied new_kv_store (length s.ps.log) s
  pub commit : s.commit_index ≡ last_index (length s.ps.log)
  pub room : length s.ps.log + left ≤ 2 ^ 63
  pub quorum : majority s ≡ n
  pub shows : (key : String) → KvStore.get s.kv_store key ≡ m key
