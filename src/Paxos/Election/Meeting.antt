-- ===== src/Paxos/Election/Meeting.antt =====
-- A majority that accepted and a majority that promised have a server in common (`HandlePrepare`,
-- `startElection` of multipaxos_kvstore/server/paxos_server.go).
use go_distributed_system_de.Base.{
  pos, ◌+◌, ◌<◌, ℕ, Bool, true, false, List, [], ◌∷◌, length, map, get_elem?, lookup, int_eq, some,
  ok, err, panic, ◌≡◌, ◌⊎◌, inl, inr, refl, ap, ◌∙◌, arith, Bool-cases,
}
use go_distributed_system_de.Types.Ballot.{BallotNumber}
use go_distributed_system_de.Types.Ballot.Order.{AtLeast, AtLeast-trans}
use go_distributed_system_de.Types.Entry.{LogEntry}
use go_distributed_system_de.Persistence.{get_all_accepted_entries}
use go_distributed_system_de.Persistence.Accepted.{get_all_accepted_entries_iff}
use go_distributed_system_de.Persistence.Covers.{Covers, AllPositioned}
use go_distributed_system_de.Paxos.State.{PaxosServer}
use go_distributed_system_de.Paxos.Acceptor.{handle_prepare}
use go_distributed_system_de.Paxos.Acceptor.Promises.{
  PrepareResult, PrepareOutcome, handle_prepare_lem,
}
use go_distributed_system_de.Paxos.Quorum.{count}
use go_distributed_system_de.Paxos.Election.{
  PrepareReply, no_client, rpc_failed, replied, adopt_accepted_entries, collect_votes,
}
use go_distributed_system_de.Paxos.Election.Adoption.{adopt_accepted_entries_lem}
use go_distributed_system_de.Paxos.Election.Ballots.{promises}
use go_distributed_system_de.Paxos.Election.Progress.{AllAdoptable}
use go_distributed_system_de.Paxos.Election.Collecting.{
  covered_at, continue-Covers, collect-Covers, collect_step, promises_one,
}

-- An acceptor that reports, when it promises, an entry at `i` whose ballot is at least `low`.
pub record Reports (i : ℕ) (low : BallotNumber) (a : PaxosServer) : Type 0 where
  pub entry : LogEntry
  pub stored : get_elem? a.ps.log i ≡ some entry
  pub index : entry.index ≡ pos i
  pub ballot : AtLeast entry.ballot_num low
  pub accepted : BallotNumber
  pub recorded : lookup (pos i) a.ps.highest_accepted_ballot ≡ some accepted

promised_entries :
    (a : PaxosServer) (b c : BallotNumber) (es : List LogEntry) (o : PrepareResult)
    → PrepareOutcome a b o
    → o.0 ≡ ok (true, c, es)
    → es ≡ get_all_accepted_entries a.ps
promised_entries a b c es (ok (true, d, fs), t) h e = ground (arith, h.collected)
promised_entries a b c es (ok (false, d, fs), t) h e = absurd (ground arith)
promised_entries a b c es (err x, t) h e = absurd (ground arith)
promised_entries a b c es (panic, t) h e = absurd h

module _ (i : ℕ) (low b : BallotNumber) (now : ℕ) (held : PaxosServer → Bool)
    (reply_of : PaxosServer → PrepareReply)
    (reports : (a : PaxosServer) → held a ≡ true → Reports i low a)
    (promised : (a : PaxosServer) (c : BallotNumber) (es : List LogEntry)
      → reply_of a ≡ replied true c es
      → (handle_prepare b now a).0 ≡ ok (true, c, es)) where
  -- An acceptor that holds the entry and whose promise arrives.
  abbrev pub Met : List PaxosServer → Type 0
  Met [] = ⊥
  Met (a ∷ rest) =
      ((c : BallotNumber) × (es : List LogEntry) × (held a ≡ true)
        × (reply_of a ≡ replied true c es))
      ⊎ Met rest

  Met-here :
      (a : PaxosServer) (rest : List PaxosServer) (r : PrepareReply)
      → reply_of a ≡ r
      → held a ≡ true
      → length (a ∷ rest) < count held (a ∷ rest) + promises (r ∷ map reply_of rest)
      → (length rest < count held rest + promises (map reply_of rest) → Met rest)
      → Met (a ∷ rest)
  Met-here a rest (replied true c es) e h l ih = inl (c, es, h, e)
  Met-here a rest (replied false c es) e h l ih = inr (ih (ground arith))
  Met-here a rest no_client e h l ih = inr (ih (ground arith))
  Met-here a rest rpc_failed e h l ih = inr (ih (ground arith))

  pub meet :
      (rest : List PaxosServer)
      → length rest < count held rest + promises (map reply_of rest)
      → Met rest
  meet [] l = absurd (omega arith)
  meet (a ∷ rest) l = elim (Bool-cases (held a)) [
    | inl e ↦ Met-here a rest (reply_of a) refl e l (meet rest)
    | inr e ↦ inr (meet rest (ground (arith, promises_one (reply_of a) (map reply_of rest))))
  ]

  adopted :
      (a : PaxosServer) (c : BallotNumber) (es : List LogEntry) (t : PaxosServer)
      → held a ≡ true
      → reply_of a ≡ replied true c es
      → AllPositioned es
      → Covers (adopt_accepted_entries es t).1.ps i low
  adopted a c es t h e p =
      let r = reports a h in
      let (done, all, kept) = adopt_accepted_entries_lem es t p in
      let (k, found) =
        (get_all_accepted_entries_iff a.ps r.entry).1 (i, r.accepted, r.stored, r.recorded) in
      let same : es ≡ get_all_accepted_entries a.ps =
        promised_entries a b c es (handle_prepare b now a) (handle_prepare_lem a b now)
          (promised a c es e) in
      let (y, g, l) =
        covered_at es (adopt_accepted_entries es t).1.ps k i r.entry all
          (ap (λ l. get_elem? l k) same ∙ found) r.index in
      (y, g, AtLeast-trans y.ballot_num r.entry.ballot_num low l r.ballot)

  collect_promise :
      (a : PaxosServer) (c : BallotNumber) (es : List LogEntry) (r : PrepareReply)
      (replies : List PrepareReply) (v : ℕ) (t : PaxosServer)
      → held a ≡ true
      → reply_of a ≡ r
      → r ≡ replied true c es
      → AllAdoptable (r ∷ replies)
      → Covers (collect_votes (r ∷ replies) v t).1.ps i low
  unfolding collect_votes
  collect_promise a c es (replied true d fs) replies v t h e q (p, p') =
      let s = (adopt_accepted_entries fs t).1 in
      continue-Covers (adopt_accepted_entries fs t) (collect_votes replies (v + 1)) i low
        (adopt_accepted_entries_lem fs t p).0
        (collect-Covers replies (v + 1) s i low p' (adopted a d fs t h e p))
  collect_promise a c es (replied false d fs) replies v t h e q p = absurd (ground arith)
  collect_promise a c es no_client replies v t h e q p = absurd (ground arith)
  collect_promise a c es rpc_failed replies v t h e q p = absurd (ground arith)

  pub collect-Met :
      (rest : List PaxosServer) (v : ℕ) (t : PaxosServer)
      → Met rest
      → AllAdoptable (map reply_of rest)
      → Covers (collect_votes (map reply_of rest) v t).1.ps i low
  collect-Met [] v t m p = absurd m
  collect-Met (a ∷ rest) v t (inl (c, es, h, e)) p =
      collect_promise a c es (reply_of a) (map reply_of rest) v t h refl e p
  collect-Met (a ∷ rest) v t (inr m) p =
      collect_step (reply_of a) (map reply_of rest) v t i low p (λ w u q. collect-Met rest w u m q)
