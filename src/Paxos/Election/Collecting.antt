-- ===== src/Paxos/Election/Collecting.antt =====
-- What the counting of votes keeps in a candidate's log (`startElection` of
-- multipaxos_kvstore/server/paxos_server.go).
use go_distributed_system_de.Base.{
  pos, ◌+◌, ◌≤◌, ℕ, suc, zero, true, false, List, [], ◌∷◌, get_elem?, int_eq, some, Outcome, ok,
  err, panic, continue, ◌≡◌, inl, inr, ap, ◌∙◌, subst, arith, Bool-cases, modify, leb,
}
use go_distributed_system_de.Types.Ballot.{BallotNumber}
use go_distributed_system_de.Types.Entry.{LogEntry}
use go_distributed_system_de.Persistence.{PersistentState}
use go_distributed_system_de.Persistence.Covers.{Covers, AllCovered}
use go_distributed_system_de.Paxos.State.{PaxosServer, Error, majority}
use go_distributed_system_de.Paxos.Election.{
  PrepareReply, no_client, rpc_failed, replied, adopt_accepted_entries, collect_votes,
  finish_election, become_leader,
}
use go_distributed_system_de.Paxos.Election.Adoption.{adopt_accepted_entries_lem}
use go_distributed_system_de.Paxos.Election.Ballots.{promises}
use go_distributed_system_de.Paxos.Election.Progress.{AllAdoptable}

pub covered_at :
    (es : List LogEntry) (ps : PersistentState) (k i : ℕ) (x : LogEntry)
    → AllCovered ps es
    → get_elem? es k ≡ some x
    → x.index ≡ pos i
    → Covers ps i x.ballot_num
covered_at [] ps k i x h e p = absurd (ground arith)
covered_at (y ∷ es) ps zero i x h e p =
    let q : y ≡ x = ground arith in
    subst (λ w. Covers ps i w.ballot_num) q (h.0 i (ap (λ w. w.index) q ∙ p))
covered_at (y ∷ es) ps (suc k) i x h e p = covered_at es ps k i x h.1 e p

pub continue-Covers :
    (r : Outcome Error (Unit {0}) × PaxosServer) (f : PaxosServer → Outcome Error ℕ × PaxosServer)
    (i : ℕ) (b : BallotNumber)
    → r.0 ≡ ok tt
    → Covers (f r.1).1.ps i b
    → Covers (continue r.0 (λ _. f) r.1).1.ps i b
continue-Covers (ok u, t) f i b e h = h
continue-Covers (err x, t) f i b e h = cc
continue-Covers (panic, t) f i b e h = cc

-- The rest of the replies keeps what is covered.
pub collect-Covers :
    (replies : List PrepareReply) (v : ℕ) (t : PaxosServer) (i : ℕ) (b : BallotNumber)
    → AllAdoptable replies
    → Covers t.ps i b
    → Covers (collect_votes replies v t).1.ps i b
unfolding collect_votes
collect-Covers [] v t i b p h = h
collect-Covers (no_client ∷ replies) v t i b p h = collect-Covers replies v t i b p h
collect-Covers (rpc_failed ∷ replies) v t i b p h = collect-Covers replies v t i b p h
collect-Covers (replied false c es ∷ replies) v t i b p h = collect-Covers replies v t i b p h
collect-Covers (replied true c es ∷ replies) v t i b (p, q) h =
    let (done, all, kept) = adopt_accepted_entries_lem es t p in
    continue-Covers (adopt_accepted_entries es t) (collect_votes replies (v + 1)) i b done
      (collect-Covers replies (v + 1) (adopt_accepted_entries es t).1 i b q (kept i b h))

-- A reply on top of replies that cover the position anyway.
pub collect_step :
    (r : PrepareReply) (replies : List PrepareReply) (v : ℕ) (t : PaxosServer) (i : ℕ)
    (b : BallotNumber)
    → AllAdoptable (r ∷ replies)
    → ((v : ℕ) (t : PaxosServer)
        → AllAdoptable replies
        → Covers (collect_votes replies v t).1.ps i b)
    → Covers (collect_votes (r ∷ replies) v t).1.ps i b
unfolding collect_votes
collect_step no_client replies v t i b p h = h v t p
collect_step rpc_failed replies v t i b p h = h v t p
collect_step (replied false c es) replies v t i b p h = h v t p
collect_step (replied true c es) replies v t i b (p, q) h =
    continue-Covers (adopt_accepted_entries es t) (collect_votes replies (v + 1)) i b
      (adopt_accepted_entries_lem es t p).0 (h (v + 1) (adopt_accepted_entries es t).1 q)

pub promises_one :
    (r : PrepareReply) (replies : List PrepareReply) → promises (r ∷ replies) ≤ promises replies + 1
promises_one no_client replies = omega arith
promises_one rpc_failed replies = omega arith
promises_one (replied false c es) replies = omega arith
promises_one (replied true c es) replies = omega arith

pub finish-Covers :
    (r : Outcome Error ℕ × PaxosServer) (i : ℕ) (b : BallotNumber)
    → Covers r.1.ps i b
    → Covers (continue r.0 (λ k. modify (finish_election k)) r.1).1.ps i b
unfolding finish_election become_leader
finish-Covers (ok k, t) i b h = elim (Bool-cases (leb (majority t) k)) [
  | inl e ↦ rw e h
  | inr e ↦ rw e h
]
finish-Covers (err x, t) i b h = h
finish-Covers (panic, t) i b h = h
