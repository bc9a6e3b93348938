-- ===== src/Paxos/Election/Survival.antt =====
-- What a majority has accepted outlives an election (`HandlePrepare`, `startElection`,
-- `adoptAcceptedEntries` of multipaxos_kvstore/server/paxos_server.go).
use go_distributed_system_de.Base.{
  pos, ◌+◌, ◌≤◌, ℕ, Bool, true, false, List, [], length, map, get_elem?, lookup, int_eq, some, ok,
  err, panic, ◌≡◌, inl, inr, refl, sym, subst, arith, Bool-cases, Option, none, Outcome, eqb_ℤ,
  eqb_ℤ_iff, leb_ℤ, ◌&&◌, if◌then◌else◌,
}
use go_distributed_system_de.Types.Ballot.{BallotNumber, compare}
use go_distributed_system_de.Types.Ballot.Order.{AtLeast-iff}
use go_distributed_system_de.Types.Entry.{LogEntry}
use go_distributed_system_de.Types.Role.{leader}
use go_distributed_system_de.Persistence.Covers.{Covers}
use go_distributed_system_de.Paxos.State.{PaxosServer, Error, majority}
use go_distributed_system_de.Paxos.Acceptor.{handle_prepare}
use go_distributed_system_de.Paxos.Quorum.{count}
use go_distributed_system_de.Paxos.Election.{
  PrepareReply, rpc_failed, replied, next_ballot, collect_votes, elected, start_election,
}
use go_distributed_system_de.Paxos.Election.Ballots.{promises}
use go_distributed_system_de.Paxos.Election.Progress.{
  AllAdoptable, begin_succeeds, election_succeeds,
}
use go_distributed_system_de.Paxos.Election.Collecting.{finish-Covers}
use go_distributed_system_de.Paxos.Election.Meeting.{Reports, meet, collect-Met}

abbrev reported : ℕ → BallotNumber → Option LogEntry → Option BallotNumber → Bool
reported i low (some entry) (some accepted) =
    eqb_ℤ entry.index (pos i) && leb_ℤ (pos 0) (compare entry.ballot_num low)
reported i low _ _ = false

-- Whether an acceptor has, and would report, an entry at `i` whose ballot is at least `low`.
abbrev pub reports : ℕ → BallotNumber → PaxosServer → Bool
reports i low a =
    reported i low (get_elem? a.ps.log i) (lookup (pos i) a.ps.highest_accepted_ballot)

reported-Reports :
    (i : ℕ) (low : BallotNumber) (a : PaxosServer) (o : Option LogEntry) (p : Option BallotNumber)
    → get_elem? a.ps.log i ≡ o
    → lookup (pos i) a.ps.highest_accepted_ballot ≡ p
    → reported i low o p ≡ true
    → Reports i low a
reported-Reports i low a (some entry) (some accepted) e f h = record {
  entry = entry;
  stored = e;
  index = (eqb_ℤ_iff entry.index (pos i)).0 (ground arith);
  ballot = (AtLeast-iff entry.ballot_num low).0 (ground arith);
  accepted = accepted;
  recorded = f;
}
reported-Reports i low a (some entry) none e f h = absurd (ground arith)
reported-Reports i low a none p e f h = absurd (ground arith)

reports-Reports :
    (i : ℕ) (low : BallotNumber) (a : PaxosServer) → reports i low a ≡ true → Reports i low a
reports-Reports i low a h = reported-Reports i low a _ _ refl refl h

-- The answer of `HandlePrepare` as the candidate gets it.
abbrev pub answer_of : Outcome Error (Bool × BallotNumber × List LogEntry) → PrepareReply
answer_of (ok (granted, c, es)) = replied granted c es
answer_of _ = rpc_failed

-- `arrives` tells whether the answer of a server gets through.
abbrev pub ask : (PaxosServer → Bool) → BallotNumber → ℕ → PaxosServer → PrepareReply
ask arrives b now a = if arrives a then answer_of (handle_prepare b now a).0 else rpc_failed

answered :
    (o : Outcome Error (Bool × BallotNumber × List LogEntry)) (c : BallotNumber)
    (es : List LogEntry)
    → answer_of o ≡ replied true c es
    → o ≡ ok (true, c, es)
answered (ok (granted, d, fs)) c es h = ground arith
answered (err x) c es h = absurd (ground arith)
answered panic c es h = absurd (ground arith)

asked :
    (arrives : PaxosServer → Bool) (b : BallotNumber) (now : ℕ) (a : PaxosServer) (c : BallotNumber)
    (es : List LogEntry)
    → ask arrives b now a ≡ replied true c es
    → (handle_prepare b now a).0 ≡ ok (true, c, es)
asked arrives b now a c es h = elim (Bool-cases (arrives a)) [
  | inl e ↦ answered (handle_prepare b now a).0 c es (rw e at h)
  | inr e ↦ absurd (let k : rpc_failed ≡ replied true c es = rw e at h in ground arith)
]

-- An entry that a majority has accepted outlives the election of another leader. When, among the servers
-- other than the candidate, a majority of all servers has an entry at `i` with a ballot of at least
-- `low` and with an accepted ballot recorded, then a candidate that wins has afterwards an entry
-- at `i` whose ballot is at least `low`, whichever answers get lost. (The candidate's saves
-- succeed, and no promise carries an entry with a negative index.)
pub chosen_survives :
    (i : ℕ) (low : BallotNumber) (now : ℕ) (s : PaxosServer) (others : List PaxosServer)
    (arrives : PaxosServer → Bool)
    → s.ps.saves ≡ []
    → AllAdoptable (map (ask arrives (next_ballot s) now) others)
    → length s.peers ≡ length others + 1
    → majority s ≤ count (reports i low) others
    → majority s ≤ 1 + promises (map (ask arrives (next_ballot s) now) others)
    → let r = start_election (map (ask arrives (next_ballot s) now) others) s in
      (r.0 ≡ ok tt) × (r.1.state ≡ leader) × Covers r.1.ps i low
unfolding start_election elected
chosen_survives i low now s others arrives f p n m w =
    let b = next_ballot s in
    let replies = map (ask arrives b now) others in
    let held = reports i low in
    let sound = reports-Reports i low in
    let promised = asked arrives b now in
    let (done, leads) = election_succeeds s replies f p w in
    let (t, begun) = begin_succeeds s f in
    let met =
      meet i low b now held (ask arrives b now) sound promised others (omega (arith, n, m, w)) in
    (
      done,
      leads,
      subst (λ r. Covers (elected replies r).1.ps i low) (sym begun)
          (finish-Covers (collect_votes replies 1 t) i low
            (collect-Met i low b now held (ask arrives b now) sound promised others 1 t met p)),
    )
