-- ===== src/Paxos/Tests.antt =====
-- Small runs of the Paxos server (multipaxos_kvstore/server/paxos_server.go).
mod Elections
mod Majorities
mod Chosen
mod Reigns
use go_distributed_system_de.Base.{
  ℤ, pos, negsuc, ℕ, String, Bool, true, false, List, [], ◌∷◌, Option, none, some, ◌≡◌, ◌≢◌, ◌↔◌,
  ◌⊎◌, inl, inr, refl, arith, ok, lookup, length, suc, ◌+◌, ◌≤◌, ◌<◌,
}
use go_distributed_system_de.Types.Ballot.{BallotNumber, new_ballot_number}
use go_distributed_system_de.Types.Ballot.Order.{Below, AtLeast}
use go_distributed_system_de.Types.Entry.{LogEntry, new_log_entry, op_put, op_delete}
use go_distributed_system_de.Types.KvStore
use go_distributed_system_de.Types.KvStore.{new_kv_store, apply_all}
use go_distributed_system_de.Types.Role.{follower, candidate, leader}
use go_distributed_system_de.Persistence.{
  PersistentState, get_log_entry, update_log, get_all_accepted_entries, get_log_length,
}
use go_distributed_system_de.Persistence.Covers.{Covers, AllPositioned, AllCovered}
use go_distributed_system_de.Paxos.State.{PaxosServer, make_server, not_the_leader, key_not_found}
use go_distributed_system_de.Paxos.Acceptor.{handle_prepare, handle_accept}
use go_distributed_system_de.Paxos.Acceptor.Promises.{PrepareOutcome, handle_prepare_lem}
use go_distributed_system_de.Paxos.Acceptor.Votes.{AcceptOutcome, handle_accept_lem}
use go_distributed_system_de.Paxos.Acceptor.Regress.{HasAccepted, handle_accept_lower}
use go_distributed_system_de.Paxos.Learner.{apply_committed_entries}
use go_distributed_system_de.Paxos.Learner.Replay.{HasApplied, apply_committed_entries-HasApplied}
use go_distributed_system_de.Paxos.Learner.Ends.{Stopped, apply_committed_entries-Stopped}
use go_distributed_system_de.Paxos.Learner.Skip.{apply_committed_entries_skips}
use go_distributed_system_de.Paxos.Election
use go_distributed_system_de.Paxos.Election.{
  PrepareReply, begin_election, next_ballot, adopt_accepted_entries, start_election,
  finish_election,
}
use go_distributed_system_de.Paxos.Election.Adoption.{adopt_accepted_entries_lem}
use go_distributed_system_de.Paxos.Election.Ballots.{
  BeginOutcome, begin_election_lem, promises, Decided, start_election_lem,
}
use go_distributed_system_de.Paxos.Replication.{
  AcceptReply, replied, count_accepts, propose_entry, begin_proposal,
}
use go_distributed_system_de.Paxos.Replication.Commit.{ProposalOutcome, propose_entry_lem}
use go_distributed_system_de.Paxos.Replication.Hazards.{leader_under_foreign_ballot}
use go_distributed_system_de.Paxos.Clients.{
  reply, text, not_the_leader_of, put, put_at, delete, get, read_position,
}
use go_distributed_system_de.Paxos.Clients.Replies.{
  UpToDate, entry_of, get-put, get-delete, refused_requests,
}
use go_distributed_system_de.Paxos.Clients.Races.{racing_puts}
use go_distributed_system_de.Paxos.Clients.Session.{
  Request, puts, deletes, gets, serve_all, ask_all, Settled,
}
use go_distributed_system_de.Paxos.Clients.Session.Answers.{serve_all-ask_all}

abbrev pub ballot : ℕ → BallotNumber
ballot n = new_ballot_number (pos n) (pos 1)

abbrev pub memory : List LogEntry → PersistentState
memory log = record {
  log = log;
  npromised = ballot 1;
  highest_accepted_ballot = [];
  file = none;
  saves = [];
}

abbrev pub server : List LogEntry → PaxosServer
server log = make_server (pos 1) ("a" ∷ "b" ∷ "c" ∷ []) (memory log) 0

abbrev pub leading : PaxosServer
leading = record (server []) { state = leader }

abbrev pub entry : LogEntry
entry = new_log_entry (pos 0) (ballot 1) op_put "k" "v"

abbrev yes : List AcceptReply
yes = replied true ∷ replied true ∷ []

leading-UpToDate : UpToDate leading
unfolding apply_all
leading-UpToDate = record {
  leads = refl;
  saves = refl;
  applied = record { last = refl; store = refl };
  commit = refl;
  room = omega arith;
}

abbrev session : List Request
session =
    puts "k" "v" yes
    ∷ gets "k"
    ∷ puts "k" "reject" yes
    ∷ puts "j" "w" yes
    ∷ deletes "k" yes
    ∷ gets "k"
    ∷ gets "j"
    ∷ []

leading-Settled : Settled 2 7 (λ key. none) leading
unfolding apply_all KvStore.get lookup
leading-Settled = record {
  leads = refl;
  saves = refl;
  applied = record { last = refl; store = refl };
  commit = refl;
  room = omega arith;
  quorum = refl;
  shows = λ key. refl;
}

serve_all-ask_all_example : serve_all session leading ≡ ask_all session (λ key. none)
unfolding count_accepts
serve_all-ask_all_example =
    serve_all-ask_all 2 session (λ key. none) leading leading-Settled
      (omega arith, (omega arith, (omega arith, (omega arith, tt))))

racing_puts_example :
    let first = put_at (read_position leading) "k" "v" yes leading in
    let second = put_at (read_position leading) "l" "w" yes first.1 in
    (first.0 ≡ reply true (text "OK") none)
    × (second.0 ≡ reply true (text "OK") none)
    × (get_log_entry second.1.ps (pos 0) ≡ some (entry_of op_put "k" "v" leading))
    × (get_log_entry second.1.ps (pos 1) ≡ some (entry_of op_put "l" "w" leading))
    × (second.1.commit_index ≡ pos 0)
unfolding count_accepts
racing_puts_example =
    racing_puts leading "k" "v" "l" "w" yes leading-UpToDate (omega arith) refl refl

handle_prepare_example :
    PrepareOutcome (server []) (ballot 2) (handle_prepare (ballot 2) 7 (server []))
handle_prepare_example = handle_prepare_lem (server []) (ballot 2) 7

handle_accept_example :
    AcceptOutcome
      (server [])
      (ballot 1)
      (pos 0)
      entry
      (handle_accept (ballot 1) entry 7 (server []))
handle_accept_example = handle_accept_lem (server []) (ballot 1) entry 7

handle_accept_lower_example :
    let s' = (handle_accept (ballot 3) entry 7 (server [])).1 in
    let s'' = (handle_accept (ballot 2) entry 8 s').1 in
    ((handle_accept (ballot 3) entry 7 (server [])).0 ≡ ok (true, pos 0, ballot 3))
    × HasAccepted 0 (ballot 3) entry s'
    × ((handle_accept (ballot 2) entry 8 s').0 ≡ ok (true, pos 0, ballot 2))
    × HasAccepted 0 (ballot 2) entry s''
handle_accept_lower_example =
    handle_accept_lower 0 (ballot 3) (ballot 2) entry entry 7 8 (server []) refl refl refl
      (λ h. ground arith) (inl (omega arith))

propose_entry_example :
    ProposalOutcome leading entry (count_accepts yes) (propose_entry entry yes leading)
propose_entry_example = propose_entry_lem leading entry yes

abbrev committed : PaxosServer
committed = record (server (entry ∷ [])) { commit_index = pos 0 }

apply_committed_entries_example : HasApplied new_kv_store 1 (apply_committed_entries committed)
unfolding apply_all
apply_committed_entries_example =
    apply_committed_entries-HasApplied new_kv_store 1 0 committed
      (record { last = refl; store = refl }) refl (omega arith) (omega arith)

abbrev hollow : PaxosServer
hollow = record (server []) { commit_index = pos 0 }

apply_committed_entries_skips_example :
    let s' = apply_committed_entries hollow in
    let s'' = record s' { ps = (update_log (pos 0) entry s'.ps).1 } in
    (s'.last_applied ≡ pos 0)
    × (s'.kv_store ≡ hollow.kv_store)
    × (get_log_entry s''.ps (pos 0) ≡ some entry)
    × (apply_committed_entries s'' ≡ s'')
apply_committed_entries_skips_example =
    apply_committed_entries_skips 0 hollow entry refl refl refl (omega arith)

begin_election_example : BeginOutcome (server []) (begin_election (server []))
begin_election_example = begin_election_lem (server []) (omega arith) (omega arith)

-- The commit index is ahead of the log, which holds one entry.
apply_committed_entries-Stopped_example :
    Stopped (apply_committed_entries (record (server (entry ∷ [])) { commit_index = pos 3 }))
apply_committed_entries-Stopped_example =
    apply_committed_entries-Stopped (record (server (entry ∷ [])) { commit_index = pos 3 })
      (omega arith)
