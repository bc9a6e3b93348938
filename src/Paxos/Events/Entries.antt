-- ===== src/Paxos/Events/Entries.antt =====
-- Taking in entries leaves the promise and the commit index alone
-- (`adoptAcceptedEntries`, `HandleStateTransfer` of multipaxos_kvstore/server/paxos_server.go).
use go_distributed_system_de.Base.{
  ℤ, pos, negsuc, List, [], ◌∷◌, continue, Outcome, ok, err, panic, ◌≡◌, refl, arith, Bool-cases,
  inl, inr, insert, int_eq,
}
use go_distributed_system_de.Types.Ballot.Order.{AtLeast-trans}
use go_distributed_system_de.Types.Entry.{LogEntry}
use go_distributed_system_de.Persistence.{
  PersistentState, set_highest_accepted_ballot, update_log, IoError, Persist, get_log_entry,
}
use go_distributed_system_de.Persistence.Log.{
  save-SameMemory, updated, update_log-save, update_log_negative,
}
use go_distributed_system_de.Paxos.State.{
  PaxosServer, Serve, on_ps, failed_accepted_ballot, failed_log_entry, Error,
}
use go_distributed_system_de.Paxos.Election.{dropped, adopt_at, newer, adopt_accepted_entries}
use go_distributed_system_de.Paxos.Transfer.{
  up_to_date, store_transferred, receive_at, handle_state_transfer,
}
use go_distributed_system_de.Paxos.Events.{Forward, kept}

pub trans-Forward : (s t u : PaxosServer) → Forward s t → Forward t u → Forward s u
trans-Forward s t u a b = record {
  promised = AtLeast-trans u.ps.npromised t.ps.npromised s.ps.npromised b.promised a.promised;
  index = omega (arith, a.index, b.index);
}

continue-Forward :
    {A B : Type 0} (s : PaxosServer) (r : Outcome Error A × PaxosServer) (rest : A → Serve B)
    → Forward s r.1
    → ((a : A) (t : PaxosServer) → Forward t (rest a t).1)
    → Forward s (continue r.0 rest r.1).1
continue-Forward s (ok a, t) rest f g = trans-Forward s t (rest a t).1 f (g a t)
continue-Forward s (err e, t) rest f g = f
continue-Forward s (panic, t) rest f g = f

update_log-promised :
    (index : ℤ) (entry : LogEntry) (ps : PersistentState)
    → (update_log index entry ps).1.npromised ≡ ps.npromised
update_log-promised (pos i) entry ps =
    rw (update_log-save i entry ps)
      (save-SameMemory (record ps { log = updated ps.log i entry })).npromised
update_log-promised (negsuc n) entry ps = rw (update_log_negative n entry ps) refl

dropped-Forward :
    (s : PaxosServer) (r : Outcome IoError (Unit {0}) × PersistentState)
    → r.1.npromised ≡ s.ps.npromised
    → Forward s (dropped s r).1
unfolding dropped
dropped-Forward s (ok u, ps) p = kept s _ p refl
dropped-Forward s (err e, ps) p = kept s _ p refl
dropped-Forward s (panic, ps) p = kept s _ p refl

adopt_at-Forward :
    (index : ℤ) (entry : LogEntry) (s : PaxosServer) → Forward s (adopt_at index entry s).1
unfolding adopt_at
adopt_at-Forward index entry s = elim (Bool-cases (newer entry (get_log_entry s.ps index))) [
  | inl e ↦
      rw e (dropped-Forward s (update_log index entry s.ps) (update_log-promised index entry s.ps))
  | inr e ↦ rw e (kept s s refl refl)
]

pub adopt_accepted_entries-Forward :
    (entries : List LogEntry) (s : PaxosServer) → Forward s (adopt_accepted_entries entries s).1
unfolding adopt_accepted_entries
adopt_accepted_entries-Forward [] s = kept s s refl refl
adopt_accepted_entries-Forward (entry ∷ entries) s =
    continue-Forward s (adopt_at entry.index entry s) (λ _. adopt_accepted_entries entries)
      (adopt_at-Forward entry.index entry s) (λ _ t. adopt_accepted_entries-Forward entries t)

on_ps-Forward :
    (wrap : IoError → Error) (m : Persist (Unit {0})) (s : PaxosServer)
    → (m s.ps).1.npromised ≡ s.ps.npromised
    → Forward s (on_ps wrap m s).1
on_ps-Forward wrap m s p = kept s _ p refl

store_transferred-Forward :
    (index : ℤ) (entry : LogEntry) (s : PaxosServer) → Forward s (store_transferred index entry s).1
unfolding store_transferred set_highest_accepted_ballot
store_transferred-Forward index entry s =
    continue-Forward s (on_ps failed_log_entry (update_log index entry) s)
      (λ _. on_ps failed_accepted_ballot (set_highest_accepted_ballot index entry.ballot_num))
      (on_ps-Forward failed_log_entry (update_log index entry) s
        (update_log-promised index entry s.ps))
      (λ _ t.
        on_ps-Forward failed_accepted_ballot (set_highest_accepted_ballot index entry.ballot_num) t
          (save-SameMemory (record t.ps {
            highest_accepted_ballot = insert index entry.ballot_num t.ps.highest_accepted_ballot;
          })).npromised)

receive_at-Forward :
    (index : ℤ) (entry : LogEntry) (s : PaxosServer) → Forward s (receive_at index entry s).1
unfolding receive_at
receive_at-Forward index entry s = elim (Bool-cases (up_to_date entry (get_log_entry s.ps index))) [
  | inl e ↦ rw e (kept s s refl refl)
  | inr e ↦ rw e (store_transferred-Forward index entry s)
]

pub handle_state_transfer-Forward :
    (entries : List LogEntry) (s : PaxosServer) → Forward s (handle_state_transfer entries s).1
unfolding handle_state_transfer
handle_state_transfer-Forward [] s = kept s s refl refl
handle_state_transfer-Forward (entry ∷ entries) s =
    continue-Forward s (receive_at entry.index entry s) (λ _. handle_state_transfer entries)
      (receive_at-Forward entry.index entry s) (λ _ t. handle_state_transfer-Forward entries t)
