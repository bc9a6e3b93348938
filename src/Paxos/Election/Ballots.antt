-- ===== src/Paxos/Election/Ballots.antt =====
-- Ballots and votes of an election (`startElection`, `becomeLeader` of
-- multipaxos_kvstore/server/paxos_server.go).
use Prim.Native.Nat.{◌+◌}
use go_distributed_system_de.Base.{
  ◌⊎◌, inl, inr, ℤ, neg_part, pos_part, inc64_parts, ◌^◌, ◌-◌, ◌<◌, ◌≤◌, ℕ, true, false, List, [],
  ◌∷◌, Option, none, some, ◌≡◌, refl, ok, err, panic, Outcome, arith, inl, inr, modify, Exec,
  continue, ap, sym, subst, length, ◌/◌, String, ◌∙◌,
}
use go_distributed_system_de.Types.Ballot.{BallotNumber}
use go_distributed_system_de.Types.Ballot.Order.{Below}
use go_distributed_system_de.Types.Entry.{LogEntry}
use go_distributed_system_de.Types.Role.{ServerState, follower, candidate, leader}
use go_distributed_system_de.Persistence.{PersistentState, IoError, set_npromised}
use go_distributed_system_de.Persistence.Durability.{IsDurable, save_cases}
use go_distributed_system_de.Paxos.State.{PaxosServer, Error, majority}
use go_distributed_system_de.Paxos.Election.{
  PrepareReply, no_client, rpc_failed, replied, next_ballot, voted_for_self, begin_election,
  dropped, adopt_at, adopt_accepted_entries, collect_votes, become_leader, elected, finish_election,
  start_election,
}

-- The beginning of an election that went through: the new ballot is promised on disk.
pub record Candidacy (s : PaxosServer) (ballot : BallotNumber) (s' : PaxosServer) : Type 0 where
  pub chosen : ballot ≡ next_ballot s
  pub higher : Below s.ps.npromised ballot
  pub promised : s'.ps.npromised ≡ ballot
  pub durable : IsDurable s'.ps
  pub state : s'.state ≡ candidate
  pub log : s'.ps.log ≡ s.ps.log

abbrev pub BeginOutcome : PaxosServer → Option BallotNumber × PaxosServer → Type 0
BeginOutcome s (some ballot, s') = Candidacy s ballot s'
BeginOutcome s (none, s') =
    (s'.state ≡ follower) × (s'.ps.file ≡ s.ps.file) × (s'.ps.log ≡ s.ps.log)

pub next_ballot-Below :
    (s : PaxosServer)
    → pos_part s.ps.npromised.term_number < 2 ^ 63 - 1
    → neg_part s.ps.npromised.term_number ≤ 2 ^ 63
    → Below s.ps.npromised (next_ballot s)
next_ballot-Below s h k = inl (omega (arith, inc64_parts s.ps.npromised.term_number h k))

-- While the promised term is below the largest `int`, an election begins with a ballot above the
-- promise in force, and goes on only once that ballot is promised on disk; the server is then a
-- candidate. If the promise cannot be saved the server is a follower and the file is as before.
pub begin_election_lem :
    (s : PaxosServer)
    → pos_part s.ps.npromised.term_number < 2 ^ 63 - 1
    → neg_part s.ps.npromised.term_number ≤ 2 ^ 63
    → BeginOutcome s (begin_election s)
unfolding begin_election set_npromised
begin_election_lem s h k = elim (save_cases (record s.ps { npromised = next_ballot s })) [
  | inl (l, e) ↦
      rw (e, voted_for_self)
        (record {
          chosen = refl;
          higher = next_ballot-Below s h k;
          promised = refl;
          durable = refl;
          state = refl;
          log = refl;
        })
  | inr (l, x, e) ↦ rw (e, voted_for_self) (refl, refl, refl)
]

-- How many of the replies are promises.
abbrev pub promises : List PrepareReply → ℕ
promises [] = 0
promises (replied true ballot entries ∷ replies) = promises replies + 1
promises (reply ∷ replies) = promises replies

-- Adopting entries and counting votes changes the persistent state and nothing else.
abbrev OnlyPs : PaxosServer → PaxosServer → Type 0
OnlyPs s s' = s' ≡ record s { ps = s'.ps }

OnlyPs-trans : (s t u : PaxosServer) → OnlyPs s t → OnlyPs t u → OnlyPs s u
OnlyPs-trans s t u p q = q ∙ ap (λ (x : PaxosServer). record x { ps = u.ps }) p

adopt_at-OnlyPs :
    (index : ℤ) (entry : LogEntry) (s : PaxosServer) → OnlyPs s (adopt_at index entry s).1
unfolding adopt_at dropped
adopt_at-OnlyPs index entry s = ground arith

continue-OnlyPs :
    {A B : Type 0} (f : A → Exec PaxosServer Error B)
    → ((a : A) (s : PaxosServer) → OnlyPs s (f a s).1)
    → (s : PaxosServer) (r : Outcome Error A × PaxosServer) → OnlyPs s r.1
    → OnlyPs s (continue r.0 f r.1).1
continue-OnlyPs f h s (ok a, t) p = OnlyPs-trans s t (f a t).1 p (h a t)
continue-OnlyPs f h s (err e, t) p = p
continue-OnlyPs f h s (panic, t) p = p

adopt-OnlyPs :
    (entries : List LogEntry) (s : PaxosServer) → OnlyPs s (adopt_accepted_entries entries s).1
unfolding adopt_accepted_entries
adopt-OnlyPs [] s = refl
adopt-OnlyPs (entry ∷ entries) s =
    continue-OnlyPs (λ _. adopt_accepted_entries entries) (λ _. adopt-OnlyPs entries) s
      (adopt_at entry.index entry s) (adopt_at-OnlyPs entry.index entry s)

collect-OnlyPs :
    (replies : List PrepareReply) (v : ℕ) (s : PaxosServer) → OnlyPs s (collect_votes replies v s).1
unfolding collect_votes
collect-OnlyPs [] v s = refl
collect-OnlyPs (no_client ∷ replies) v s = collect-OnlyPs replies v s
collect-OnlyPs (rpc_failed ∷ replies) v s = collect-OnlyPs replies v s
collect-OnlyPs (replied false b es ∷ replies) v s = collect-OnlyPs replies v s
collect-OnlyPs (replied true b es ∷ replies) v s =
    continue-OnlyPs (λ _. collect_votes replies (v + 1)) (λ _. collect-OnlyPs replies (v + 1)) s
      (adopt_accepted_entries es s) (adopt-OnlyPs es s)

continue-count :
    (r : Outcome Error (Unit {0}) × PaxosServer) (f : PaxosServer → Outcome Error ℕ × PaxosServer)
    (n k : ℕ)
    → ((s : PaxosServer) → (f s).0 ≡ ok n → n ≡ k)
    → (continue r.0 (λ _. f) r.1).0 ≡ ok n
    → n ≡ k
continue-count (ok u, t) f n k h e = h t e
continue-count (err x, t) f n k h e = cc
continue-count (panic, t) f n k h e = cc

-- The votes are one for each promise.
collect-count :
    (replies : List PrepareReply) (v n : ℕ) (s : PaxosServer)
    → (collect_votes replies v s).0 ≡ ok n
    → n ≡ v + promises replies
unfolding collect_votes
collect-count [] v n s h = let e : n ≡ v = ground arith in omega arith
collect-count (no_client ∷ replies) v n s h = collect-count replies v n s h
collect-count (rpc_failed ∷ replies) v n s h = collect-count replies v n s h
collect-count (replied false b es ∷ replies) v n s h = collect-count replies v n s h
collect-count (replied true b es ∷ replies) v n s h = omega (
  arith,
  continue-count (adopt_accepted_entries es s) (collect_votes replies (v + 1)) n
      (v + 1 + promises replies) (collect-count replies (v + 1) n) h,
)

voted-peers :
    (s : PaxosServer) (r : Outcome IoError (Unit {0}) × PersistentState)
    → (voted_for_self s r).1.peers ≡ s.peers
unfolding voted_for_self
voted-peers s (ok u, ps) = refl
voted-peers s (err e, ps) = refl
voted-peers s (panic, ps) = refl

begin-peers : (s : PaxosServer) → (begin_election s).1.peers ≡ s.peers
unfolding begin_election
begin-peers s = voted-peers s (set_npromised (next_ballot s) s.ps)

-- What the count decides, on a server with the peers of `s`.
abbrev pub Decided : PaxosServer → ℕ → ServerState → Type 0
Decided s votes state =
    ((majority s ≤ votes) × (state ≡ leader)) ⊎ ((votes < majority s) × (state ≡ follower))

finish-Decided :
    (s t : PaxosServer) (n votes : ℕ)
    → t.peers ≡ s.peers
    → n ≡ votes
    → Decided s votes (finish_election n t).state
unfolding finish_election become_leader
finish-Decided s t n votes p q =
    let m : majority t ≡ majority s = ap (λ (l : List String). length l / 2 + 1) p in ground arith

continue-Decided :
    (s : PaxosServer) (r : Outcome Error ℕ × PaxosServer) (votes : ℕ)
    → r.1.peers ≡ s.peers
    → ((n : ℕ) → r.0 ≡ ok n → n ≡ votes)
    → (continue r.0 (λ n. modify (finish_election n)) r.1).0 ≡ ok tt
    → Decided s votes (continue r.0 (λ n. modify (finish_election n)) r.1).1.state
continue-Decided s (ok n, t) votes p h e = finish-Decided s t n votes p (h n refl)
continue-Decided s (err x, t) votes p h e = cc
continue-Decided s (panic, t) votes p h e = cc

-- An election that went on past its own vote, and whose replies were all taken in, makes the server
-- a leader if its own vote and the promises among the replies are a majority of the cluster, and
-- otherwise a follower.
pub start_election_lem :
    (s t : PaxosServer) (ballot : BallotNumber) (replies : List PrepareReply)
    → begin_election s ≡ (some ballot, t)
    → (start_election replies s).0 ≡ ok tt
    → Decided s (1 + promises replies) (start_election replies s).1.state
unfolding start_election elected
start_election_lem s t ballot replies b =
    subst
      (λ r.
        (elected replies r).0 ≡ ok tt
        → Decided s (1 + promises replies) (elected replies r).1.state)
      (sym b)
      (continue-Decided s (collect_votes replies 1 t) (1 + promises replies)
        (ap (λ (x : PaxosServer). x.peers) (collect-OnlyPs replies 1 t)
          ∙ sym (ap (λ (r : Option BallotNumber × PaxosServer). r.1.peers) b)
          ∙ begin-peers s)
        (λ n. collect-count replies 1 n t))
