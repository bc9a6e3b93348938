-- ===== src/Paxos/Quorum.antt =====
-- Majorities over several acceptors (`HandlePrepare`, `HandleAccept` of
-- multipaxos_kvstore/server/paxos_server.go, whose callers count the replies).
use go_distributed_system_de.Base.{
  ℤ, ◌+◌, ◌/◌, ◌≤◌, ◌<◌, ℕ, Bool, true, false, List, [], ◌∷◌, length, Outcome, ok, err, panic, ◌≡◌,
  ◌≢◌, map, arith, if◌then◌else◌, Bool-cases, inl, inr, subst, ap,
}
use go_distributed_system_de.Types.Ballot.{BallotNumber}
use go_distributed_system_de.Types.Ballot.Order.{Below, AtLeast, AtLeast-trans}
use go_distributed_system_de.Types.Entry.{LogEntry}
use go_distributed_system_de.Paxos.State.{
  PaxosServer, Error, not_the_leader, no_majority, failed_append, majority,
}
use go_distributed_system_de.Paxos.Acceptor.{handle_prepare, handle_accept}
use go_distributed_system_de.Paxos.Acceptor.Promises.{
  PrepareResult, PrepareOutcome, handle_prepare_lem,
}
use go_distributed_system_de.Paxos.Acceptor.Votes.{AcceptOutcome, handle_accept_lem}
use go_distributed_system_de.Paxos.Replication.{AcceptReply, replied, count_accepts, propose_entry}
use go_distributed_system_de.Paxos.Replication.Commit.{
  ProposalOutcome, ProposalFailed, under_promise, propose_entry_lem,
}
use go_distributed_system_de.Paxos.Events.Crashes.{Lives, Holds, IsDurable-Holds, Lives-Holds}

-- Whether the reply to a request says yes.
abbrev pub says_yes : {A B : Type 0} → Outcome Error (Bool × A × B) → Bool
says_yes (ok (granted, a, b)) = granted
says_yes (err e) = false
says_yes panic = false

-- An acceptor that is asked to promise `b`, goes through any steps and new starts from its file, and
-- is then asked to accept.
pub record Run (b : BallotNumber) : Type 0 where
  pub asked : PaxosServer
  pub now : ℕ
  pub reached : PaxosServer
  pub steps : Lives (handle_prepare b now asked).1 reached
  pub later : ℕ

abbrev pub grants : (b : BallotNumber) → Run b → Bool
grants b r = says_yes (handle_prepare b r.now r.asked).0

abbrev pub votes_for : (b a : BallotNumber) → LogEntry → Run b → Bool
votes_for b a entry r = says_yes (handle_accept a entry r.later r.reached).0

abbrev pub count : {A : Type 0} → (A → Bool) → List A → ℕ
count p [] = 0
count p (x ∷ xs) = (if p x then 1 else 0) + count p xs

granted-Holds :
    (s : PaxosServer) (b : BallotNumber) (o : PrepareResult)
    → PrepareOutcome s b o
    → says_yes o.0 ≡ true
    → Holds b (length o.1.ps.log) o.1.ps
granted-Holds s b (ok (true, c, es), t) h e =
    subst (λ v. Holds v (length t.ps.log) t.ps) h.promised (IsDurable-Holds t.ps h.durable)
granted-Holds s b (ok (false, c, es), t) h e = absurd (ground arith)
granted-Holds s b (err x, t) h e = absurd (ground arith)
granted-Holds s b (panic, t) h e = absurd h

voted-AtLeast :
    (s : PaxosServer) (a : BallotNumber) (at : ℤ) (entry : LogEntry)
    (o : Outcome Error (Bool × ℤ × BallotNumber) × PaxosServer)
    → AcceptOutcome s a at entry o
    → says_yes o.0 ≡ true
    → AtLeast a s.ps.npromised
voted-AtLeast s a at entry (ok (true, i, c), t) h e = h.allowed
voted-AtLeast s a at entry (ok (false, i, c), t) h e = absurd (ground arith)
voted-AtLeast s a at entry (err x, t) h e = absurd (ground arith)
voted-AtLeast s a at entry (panic, t) h e = absurd (ground arith)

-- An acceptor that has granted `b` accepts nothing lower, whatever happens to it in between: any
-- steps, and any crashes with a new start as a follower from the file.
pub granted_refuses :
    (b a : BallotNumber) (entry : LogEntry) (r : Run b)
    → Below a b
    → grants b r ≡ true
    → votes_for b a entry r ≡ false
granted_refuses b a entry r l g = elim (Bool-cases (votes_for b a entry r)) [
  | inl e ↦
      let held =
        granted-Holds r.asked b (handle_prepare b r.now r.asked)
          (handle_prepare_lem r.asked b r.now) g in
      let voted : AtLeast a r.reached.ps.npromised =
        voted-AtLeast r.reached a entry.index entry (handle_accept a entry r.later r.reached)
          (handle_accept_lem r.reached a entry r.later) e in
      absurd
        (AtLeast-trans a r.reached.ps.npromised b voted (Lives-Holds b _ r.steps held).promised l)
  | inr e ↦ e
]

disjoint_counts :
    {A : Type 0}
    → (p q : A → Bool) → ((x : A) → p x ≡ true → q x ≡ false)
    → (xs : List A) → count p xs + count q xs ≤ length xs
disjoint_counts p q h [] = omega arith
disjoint_counts p q h (x ∷ xs) = ground (arith, h x, disjoint_counts p q h xs)

-- Once a majority of the acceptors has granted the ballot `b`, a proposal of any entry under a lower
-- ballot is accepted by less than a majority of them, although each acceptor may have gone through
-- any steps in between (requests, elections, state transfers, failed saves and all others) and may
-- have crashed and started again from its file as a follower.
pub granted_majority_refuses :
    (b a : BallotNumber) (entry : LogEntry) (rs : List (Run b))
    → Below a b
    → length rs / 2 + 1 ≤ count (grants b) rs
    → count (votes_for b a entry) rs < length rs / 2 + 1
granted_majority_refuses b a entry rs l m =
    let d =
      disjoint_counts (grants b) (votes_for b a entry) (λ r. granted_refuses b a entry r l) rs in
    omega (arith, d, m)

accepts-votes :
    (b a : BallotNumber) (entry : LogEntry) (reply_of : Run b → AcceptReply)
    → ((r : Run b) → reply_of r ≡ replied true → votes_for b a entry r ≡ true)
    → (rs : List (Run b)) → count_accepts (map reply_of rs) ≤ 1 + count (votes_for b a entry) rs
unfolding count_accepts
accepts-votes b a entry reply_of h [] = omega arith
accepts-votes b a entry reply_of h (r ∷ rs) =
    ground (arith, h r, accepts-votes b a entry reply_of h rs)

failed-index :
    (s : PaxosServer) (entry : LogEntry) (accepts : ℕ) (e : Error) (t : PaxosServer)
    → ProposalFailed s entry accepts e t
    → t.commit_index ≡ s.commit_index
failed-index s entry accepts not_the_leader t h = ap (λ (u : PaxosServer). u.commit_index) h.1
failed-index s entry accepts (no_majority got size) t h = h.0.index
failed-index s entry accepts (failed_append e) t h = h.2
failed-index s entry accepts _ t h = absurd h

failed-Outcome :
    (s : PaxosServer) (entry : LogEntry) (accepts : ℕ) (o : Outcome Error (Unit {0}) × PaxosServer)
    → accepts < majority s
    → ProposalOutcome s entry accepts o
    → (o.0 ≢ ok tt) × (o.1.commit_index ≡ s.commit_index)
failed-Outcome s entry accepts (ok u, t) l h = absurd (omega (arith, h.quorum, l))
failed-Outcome s entry accepts (panic, t) l h = absurd h
failed-Outcome s entry accepts (err e, t) l h =
    ((λ q. ground arith), failed-index s entry accepts e t h)

-- Once a majority of all servers has granted the ballot `b`, a leader that still proposes under a
-- lower ballot commits nothing: whichever of its requests and replies are lost, and whatever the
-- others do in between (they may crash and start again as followers from their files), the proposal returns no success and the commit index stays. (The
-- majority is counted among the other servers; a peer replies `true` only when it has accepted.)
pub stale_proposal_fails :
    (b : BallotNumber) (s : PaxosServer) (entry : LogEntry) (rs : List (Run b))
    (reply_of : Run b → AcceptReply)
    → Below s.ps.npromised b
    → length s.peers ≡ length rs + 1
    → majority s ≤ count (grants b) rs
    → ((r : Run b)
        → reply_of r ≡ replied true
        → votes_for b s.ps.npromised (under_promise entry s) r ≡ true)
    → let o = propose_entry entry (map reply_of rs) s in
      (o.0 ≢ ok tt) × (o.1.commit_index ≡ s.commit_index)
stale_proposal_fails b s entry rs reply_of l n m h =
    let a = s.ps.npromised in
    let d =
      disjoint_counts (grants b) (votes_for b a (under_promise entry s))
        (λ r. granted_refuses b a (under_promise entry s) r l) rs in
    let v = accepts-votes b a (under_promise entry s) reply_of h rs in
    failed-Outcome s entry (count_accepts (map reply_of rs))
      (propose_entry entry (map reply_of rs) s) (omega (arith, d, v, m, n))
      (propose_entry_lem s entry (map reply_of rs))
