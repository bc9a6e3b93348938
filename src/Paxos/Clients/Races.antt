-- ===== src/Paxos/Clients/Races.antt =====
-- Two client requests whose locked parts interleave (`Put` of
-- multipaxos_kvstore/server/paxos_server.go).
use go_distributed_system_de.Base.{
  pos, ◌≤◌, suc, String, true, false, List, [], ◌∷◌, ◌++◌, none, some, length, ◌≡◌, refl, arith,
  str_eq, ap, ◌∙◌, get_elem?, get_elem?-append_end, get_elem?-append_left, length-append,
}
use go_distributed_system_de.Types.Entry.{LogEntry, op_put}
use go_distributed_system_de.Types.Role.{is_leader}
use go_distributed_system_de.Persistence.{get_log_entry}
use go_distributed_system_de.Persistence.Log.{get_log_entry-get_elem?}
use go_distributed_system_de.Paxos.State.{PaxosServer, majority}
use go_distributed_system_de.Paxos.Replication.{AcceptReply, count_accepts}
use go_distributed_system_de.Paxos.Replication.Commit.{propose_entry_succeeds}
use go_distributed_system_de.Paxos.Clients.{reply, text, put_at, read_position}
use go_distributed_system_de.Paxos.Clients.Replies.{
  UpToDate, propose-UpToDate, after_entry, entry_of,
}

last_but_one :
    (xs : List LogEntry) (a b : LogEntry)
    → get_elem? ((xs ++ a ∷ []) ++ b ∷ []) (length xs) ≡ some a
last_but_one xs a b =
    get_elem?-append_left (xs ++ a ∷ []) (b ∷ []) (length xs)
      (omega (arith, length-append xs (a ∷ [])))
    ∙ get_elem?-append_end xs a

last_of_two :
    (xs : List LogEntry) (a b : LogEntry)
    → get_elem? ((xs ++ a ∷ []) ++ b ∷ []) (suc (length xs)) ≡ some b
last_of_two xs a b =
    let e : suc (length xs) ≡ length (xs ++ a ∷ []) = omega (arith, length-append xs (a ∷ [])) in
    rw e (get_elem?-append_end (xs ++ a ∷ []) b)

-- Two Puts that read the end of the log before either proposes: both clients are told `OK`, both
-- entries carry the same index, the second stands one position behind its index, and the commit
-- index does not cover its position.
pub racing_puts :
    (s : PaxosServer) (key value other_key other_value : String) (replies : List AcceptReply)
    → UpToDate s
    → majority s ≤ count_accepts replies
    → str_eq value "reject" ≡ false
    → str_eq other_value "reject" ≡ false
    → let n = length s.ps.log in
      let first = put_at (read_position s) key value replies s in
      let second = put_at (read_position s) other_key other_value replies first.1 in
      (first.0 ≡ reply true (text "OK") none)
      × (second.0 ≡ reply true (text "OK") none)
      × (get_log_entry second.1.ps (pos n) ≡ some (entry_of op_put key value s))
      × (get_log_entry second.1.ps (pos (suc n)) ≡ some (entry_of op_put other_key other_value s))
      × (second.1.commit_index ≡ pos n)
unfolding put_at read_position
racing_puts s key value other_key other_value replies u m v w =
    let l : is_leader s.state ≡ true = ap is_leader u.leads in
    let t : PaxosServer = after_entry op_put key value s in
    rw (l, v, w, propose-UpToDate s op_put key value replies u m)
      (rw
        (propose_entry_succeeds t (entry_of op_put other_key other_value s) replies u.leads u.saves
          m)
        (
          refl,
          refl,
          get_log_entry-get_elem? _ (length s.ps.log) ∙ last_but_one s.ps.log _ _,
          get_log_entry-get_elem? _ (suc (length s.ps.log)) ∙ last_of_two s.ps.log _ _,
          ground arith,
        ))
