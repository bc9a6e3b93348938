-- ===== src/Paxos/Election/Progress.antt =====
-- When an election succeeds (`startElection` of multipaxos_kvstore/server/paxos_server.go).
use go_distributed_system_de.Base.{
  ℕ, ◌+◌, ◌≤◌, true, false, List, [], ◌∷◌, Outcome, some, ok, err, panic, continue, ◌≡◌, refl, sym,
  ap, ◌∙◌, subst, arith, inl, inr, modify,
}
use go_distributed_system_de.Types.Role.{leader}
use go_distributed_system_de.Persistence.{set_npromised}
use go_distributed_system_de.Persistence.Covers.{AllPositioned}
use go_distributed_system_de.Persistence.Durability.{save_succeeds}
use go_distributed_system_de.Paxos.State.{PaxosServer, Error, majority}
use go_distributed_system_de.Paxos.Election.{
  PrepareReply, no_client, rpc_failed, replied, next_ballot, voted_for_self, begin_election,
  adopt_accepted_entries, collect_votes, finish_election, elected, start_election,
}
use go_distributed_system_de.Paxos.Election.Adoption.{adopt_accepted_entries_lem}
use go_distributed_system_de.Paxos.Election.Ballots.{promises, start_election_lem}

-- The entries of the promises have no negative index.
abbrev pub AllAdoptable : List PrepareReply → Type 0
AllAdoptable [] = Unit {0}
AllAdoptable (replied true ballot entries ∷ replies) = AllPositioned entries × AllAdoptable replies
AllAdoptable (reply ∷ replies) = AllAdoptable replies

continue_ok :
    (r : Outcome Error (Unit {0}) × PaxosServer) (f : PaxosServer → Outcome Error ℕ × PaxosServer)
    (n : ℕ)
    → r.0 ≡ ok tt
    → ((s : PaxosServer) → (f s).0 ≡ ok n)
    → (continue r.0 (λ _. f) r.1).0 ≡ ok n
continue_ok (ok u, t) f n e h = h t
continue_ok (err x, t) f n e h = cc
continue_ok (panic, t) f n e h = cc

collect_ok :
    (replies : List PrepareReply) (v : ℕ) (s : PaxosServer)
    → AllAdoptable replies
    → (collect_votes replies v s).0 ≡ ok (v + promises replies)
unfolding collect_votes
collect_ok [] v s h = let z : v ≡ v + 0 = omega arith in ap ok z
collect_ok (no_client ∷ replies) v s h = collect_ok replies v s h
collect_ok (rpc_failed ∷ replies) v s h = collect_ok replies v s h
collect_ok (replied false b es ∷ replies) v s h = collect_ok replies v s h
collect_ok (replied true b es ∷ replies) v s (p, h) =
    let z : v + 1 + promises replies ≡ v + (promises replies + 1) = omega arith in
    continue_ok (adopt_accepted_entries es s) (collect_votes replies (v + 1))
      (v + (promises replies + 1)) (adopt_accepted_entries_lem es s p).0
      (λ t. collect_ok replies (v + 1) t h ∙ ap ok z)

finish_ok :
    (r : Outcome Error ℕ × PaxosServer) (n : ℕ)
    → r.0 ≡ ok n
    → (continue r.0 (λ k. modify (finish_election k)) r.1).0 ≡ ok tt
finish_ok (ok k, t) n e = refl
finish_ok (err x, t) n e = cc
finish_ok (panic, t) n e = cc

pub begin_succeeds :
    (s : PaxosServer)
    → s.ps.saves ≡ []
    → (t : PaxosServer) × (begin_election s ≡ (some (next_ballot s), t))
unfolding begin_election set_npromised voted_for_self
begin_succeeds s h = rw (save_succeeds (record s.ps { npromised = next_ballot s }) h) (_, refl)

-- An election on a server whose saves succeed, in which the server's own vote and the promises are a
-- majority, ends without an error and with the server as leader. (No promise carries an entry with a
-- negative index.)
pub election_succeeds :
    (s : PaxosServer) (replies : List PrepareReply)
    → s.ps.saves ≡ []
    → AllAdoptable replies
    → majority s ≤ 1 + promises replies
    → ((start_election replies s).0 ≡ ok tt) × ((start_election replies s).1.state ≡ leader)
unfolding start_election elected
election_succeeds s replies h a m =
    let (t, b) = begin_succeeds s h in
    let done : (start_election replies s).0 ≡ ok tt =
      subst (λ r. (elected replies r).0 ≡ ok tt) (sym b)
        (finish_ok (collect_votes replies 1 t) (1 + promises replies) (collect_ok replies 1 t a)) in
    (
      done,
      elim (start_election_lem s t (next_ballot s) replies b done) [
        | inl (q, e) ↦ e
        | inr (q, e) ↦ absurd (omega (arith, m, q))
      ],
    )
