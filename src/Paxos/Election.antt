-- ===== src/Paxos/Election.antt =====
-- The proposer's phase 1 (`startElection`, `adoptAcceptedEntries`, `becomeLeader` of
-- multipaxos_kvstore/server/paxos_server.go).
pub mod Ballots
pub mod Adoption
pub mod Progress
pub mod Collecting
pub mod Meeting
pub mod Survival
pub mod Loss
use Prim.Native.Nat.{◌+◌}
use go_distributed_system_de.Base.{
  ℤ, pos, negsuc, inc64, eqb_ℤ, leb, ℕ, suc, zero, String, Bool, true, false, List, [], ◌∷◌, Option,
  none, some, length, insert, int_eq, Map, if◌then◌else◌, Outcome, ok, err, panic, ◌>>=◌, ◌>>◌,
  pure, gets, modify, continue,
}
use go_distributed_system_de.Types.Ballot.{BallotNumber, new_ballot_number, greater_than}
use go_distributed_system_de.Types.Entry.{LogEntry}
use go_distributed_system_de.Types.Role.{follower, candidate, leader}
use go_distributed_system_de.Persistence.{
  PersistentState, Persist, IoError, set_npromised, update_log, get_npromised, get_log_entry,
  get_log_length,
}
use go_distributed_system_de.Paxos.State.{PaxosServer, Serve, Error, majority}

-- How a peer answers a Prepare: no client, no reply, or a reply with the entries that it accepted.
pub data PrepareReply : Type 0 where
  no_client rpc_failed : PrepareReply
  replied : Bool → BallotNumber → List LogEntry → PrepareReply

-- The ballot of a new election.
abbrev pub next_ballot : PaxosServer → BallotNumber
next_ballot s = new_ballot_number (inc64 (get_npromised s.ps).term_number) s.server_id

unfoldable pub voted_for_self :
    PaxosServer → Outcome IoError (Unit {0}) × PersistentState → Option BallotNumber × PaxosServer
voted_for_self s (ok u, ps) = (some (next_ballot s), record s { state = candidate; ps = ps })
voted_for_self s (r, ps) = (none, record s { state = follower; ps = ps })

-- The part under the mutex: become a candidate and vote for ourselves, or give up.
unfoldable pub begin_election : PaxosServer → Option BallotNumber × PaxosServer
unfolding voted_for_self
begin_election s = voted_for_self s (set_npromised (next_ballot s) s.ps)

-- A write whose error is dropped.
unfoldable pub dropped :
    PaxosServer
    → Outcome IoError (Unit {0}) × PersistentState
    → Outcome Error (Unit {0}) × PaxosServer
dropped s (panic, ps) = (panic, record s { ps = ps })
dropped s (r, ps) = (ok tt, record s { ps = ps })

-- !exists || entry.BallotNum.GreaterThan(existing.BallotNum)
abbrev pub newer : LogEntry → Option LogEntry → Bool
newer entry none = true
newer entry (some existing) = greater_than entry.ballot_num existing.ballot_num

-- One turn of the loop of `adoptAcceptedEntries`.
unfoldable pub adopt_at : ℤ → LogEntry → Serve (Unit {0})
unfolding dropped
adopt_at index entry s =
    if newer entry (get_log_entry s.ps index)
    then dropped s (update_log index entry s.ps)
    else (ok tt, s)

unfoldable pub adopt_accepted_entries : List LogEntry → Serve (Unit {0})
unfolding adopt_at
adopt_accepted_entries [] = pure tt
adopt_accepted_entries (entry ∷ entries) = do
  adopt_at entry.index entry
  adopt_accepted_entries entries

-- The replies in the order in which they come in: each promise is a vote, and brings entries.
unfoldable pub collect_votes : List PrepareReply → ℕ → Serve ℕ
collect_votes [] votes = pure votes
collect_votes (replied true ballot entries ∷ replies) votes = do
  adopt_accepted_entries entries
  collect_votes replies (votes + 1)
collect_votes (reply ∷ replies) votes = collect_votes replies votes

-- `for i := range peers { m[i] = v }`
abbrev assign_peers : ℕ → List String → ℤ → Map ℤ ℤ → Map ℤ ℤ
assign_peers i [] v m = m
assign_peers i (peer ∷ peers) v m = assign_peers (suc i) peers v (insert (pos i) v m)

unfoldable pub become_leader : PaxosServer → PaxosServer
become_leader s = record s {
  state = leader;
  current_leader = s.server_id;
  next_index = assign_peers 0 s.peers (pos (get_log_length s.ps)) s.next_index;
  match_index = assign_peers 0 s.peers (negsuc 0) s.match_index;
}

-- The count after `wg.Wait()`. It does not look at the state or at the promise in force.
unfoldable pub finish_election : ℕ → PaxosServer → PaxosServer
finish_election votes s =
    if leb (majority s) votes then become_leader s else record s { state = follower }

elected :
    List PrepareReply → Option BallotNumber × PaxosServer → Outcome Error (Unit {0}) × PaxosServer
elected replies (none, t) = (ok tt, t)
elected replies (some ballot, t) =
    (do votes ← collect_votes replies 1; modify (finish_election votes)) t

-- The whole election, when nothing else runs meanwhile.
unfoldable pub start_election : List PrepareReply → Serve (Unit {0})
unfolding elected
start_election replies s = elected replies (begin_election s)
