-- ===== src/Paxos/Transfer/Receiver.antt =====
-- Taking in a state transfer (`HandleStateTransfer` of multipaxos_kvstore/server/paxos_server.go).
use go_distributed_system_de.Base.{
  ℤ, pos, negsuc, ℕ, Bool, true, false, List, [], ◌∷◌, Option, none, some, ◌≡◌, refl, sym, subst,
  Outcome, ok, err, panic, Bool-cases, inl, inr, continue, int_eq,
}
use go_distributed_system_de.Types.Ballot.{BallotNumber}
use go_distributed_system_de.Types.Ballot.Order.{AtLeast, AtLeast-Below, AtLeast-iff, not_at_least}
use go_distributed_system_de.Types.Entry.{LogEntry}
use go_distributed_system_de.Persistence.{get_log_entry, set_highest_accepted_ballot}
use go_distributed_system_de.Persistence.Log.{
  updated, update_log-save, update_log_negative, save-SameMemory,
}
use go_distributed_system_de.Persistence.Covers.{
  Covers, AllCovered, updated-Covers, updated_covered,
}
use go_distributed_system_de.Persistence.Durability.{save_cases}
use go_distributed_system_de.Paxos.State.{PaxosServer, Error}
use go_distributed_system_de.Paxos.Transfer.{
  handle_state_transfer, receive_at, store_transferred, up_to_date,
}

store-log :
    (i : ℕ) (entry : LogEntry) (s : PaxosServer)
    → (store_transferred (pos i) entry s).1.ps.log ≡ updated s.ps.log i entry
unfolding store_transferred set_highest_accepted_ballot
store-log i entry s =
    rw (update_log-save i entry s.ps)
      (elim (save_cases (record s.ps { log = updated s.ps.log i entry })) [
        | inl (l, e) ↦ rw e (save-SameMemory _).log
        | inr (l, x, e) ↦ rw e refl
      ])

store_negative :
    (n : ℕ) (entry : LogEntry) (s : PaxosServer) → store_transferred (negsuc n) entry s ≡ (panic, s)
unfolding store_transferred
store_negative n entry s = rw (update_log_negative n entry s.ps)

out_of_date :
    (entry x : LogEntry) (o : Option LogEntry)
    → up_to_date entry o ≡ false
    → o ≡ some x
    → AtLeast entry.ballot_num x.ballot_num
out_of_date entry x o h q =
    let n : up_to_date entry (some x) ≡ false = subst (λ o. up_to_date entry o ≡ false) q h in
    AtLeast-Below x.ballot_num entry.ballot_num (not_at_least x.ballot_num entry.ballot_num n)

present :
    (entry : LogEntry) (o : Option LogEntry)
    → up_to_date entry o ≡ true
    → (x : LogEntry) × (o ≡ some x) × AtLeast x.ballot_num entry.ballot_num
present entry none h = cc
present entry (some x) h = (x, refl, (AtLeast-iff x.ballot_num entry.ballot_num).0 h)

receive-Covers :
    (index : ℤ) (entry : LogEntry) (s : PaxosServer) (j : ℕ) (b : BallotNumber)
    → Covers s.ps j b
    → Covers (receive_at index entry s).1.ps j b
unfolding receive_at
receive-Covers (negsuc n) entry s j b c =
    elim (Bool-cases (up_to_date entry (get_log_entry s.ps (negsuc n)))) [
      | inl e ↦ rw e c
      | inr e ↦ rw (e, store_negative n entry s) c
    ]
receive-Covers (pos i) entry s j b c =
    elim (Bool-cases (up_to_date entry (get_log_entry s.ps (pos i)))) [
      | inl e ↦ rw e c
      | inr e ↦ rw e (
          updated-Covers s.ps (store_transferred (pos i) entry s).1.ps i entry (store-log i entry s)
            (λ x q. out_of_date entry x (get_log_entry s.ps (pos i)) e q) j b c)
    ]

receive_covered :
    (i : ℕ) (entry : LogEntry) (s : PaxosServer)
    → Covers (receive_at (pos i) entry s).1.ps i entry.ballot_num
unfolding receive_at
receive_covered i entry s = elim (Bool-cases (up_to_date entry (get_log_entry s.ps (pos i)))) [
  | inl e ↦ rw e (present entry (get_log_entry s.ps (pos i)) e)
  | inr e ↦
      rw e (
        updated_covered s.ps (store_transferred (pos i) entry s).1.ps i entry (store-log i entry s))
]

-- A failed or panicking part ends the loop; a predicate of the state carries over either way.
continue-state :
    (P : PaxosServer → Type 0) (f : PaxosServer → Outcome Error Bool × PaxosServer)
    (r : Outcome Error (Unit {0}) × PaxosServer)
    → P r.1
    → ((t : PaxosServer) → P t → P (f t).1)
    → P (continue r.0 (λ _. f) r.1).1
continue-state P f (ok u, t) p h = h t p
continue-state P f (err e, t) p h = p
continue-state P f (panic, t) p h = p

-- A state transfer, whether it ends well or not, leaves an entry with a ballot at least as high
-- wherever the log held one.
pub handle_state_transfer-Covers :
    (entries : List LogEntry) (s : PaxosServer) (j : ℕ) (b : BallotNumber)
    → Covers s.ps j b
    → Covers (handle_state_transfer entries s).1.ps j b
unfolding handle_state_transfer
handle_state_transfer-Covers [] s j b c = c
handle_state_transfer-Covers (entry ∷ entries) s j b c =
    continue-state (λ (t : PaxosServer). Covers t.ps j b) (handle_state_transfer entries)
      (receive_at entry.index entry s) (receive-Covers entry.index entry s j b c)
      (λ t. handle_state_transfer-Covers entries t j b)

-- The rest of the loop after a part that went well.
continue-ok :
    (P : PaxosServer → Type 0) (f : PaxosServer → Outcome Error Bool × PaxosServer)
    (r : Outcome Error (Unit {0}) × PaxosServer)
    → ((f r.1).0 ≡ ok true → P (f r.1).1)
    → (continue r.0 (λ _. f) r.1).0 ≡ ok true
    → P (continue r.0 (λ _. f) r.1).1
continue-ok P f (ok u, t) h e = h e
continue-ok P f (err x, t) h e = cc
continue-ok P f (panic, t) h e = cc

-- A state transfer that reports success has left, at the index of each entry that it was sent, an
-- entry whose ballot is at least as high.
pub handle_state_transfer-AllCovered :
    (entries : List LogEntry) (s : PaxosServer)
    → (handle_state_transfer entries s).0 ≡ ok true
    → AllCovered (handle_state_transfer entries s).1.ps entries
unfolding handle_state_transfer
handle_state_transfer-AllCovered [] s h = tt
handle_state_transfer-AllCovered (entry ∷ entries) s h = (
  λ i q.
      continue-state (λ (t : PaxosServer). Covers t.ps i entry.ballot_num)
        (handle_state_transfer entries) (receive_at entry.index entry s)
        (subst (λ k. Covers (receive_at k entry s).1.ps i entry.ballot_num) (sym q)
          (receive_covered i entry s))
        (λ t. handle_state_transfer-Covers entries t i entry.ballot_num),
  continue-ok (λ (t : PaxosServer). AllCovered t.ps entries) (handle_state_transfer entries)
      (receive_at entry.index entry s)
      (handle_state_transfer-AllCovered entries (receive_at entry.index entry s).1) h,
)
