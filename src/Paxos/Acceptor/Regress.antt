-- ===== src/Paxos/Acceptor/Regress.antt =====
-- `HandleAccept` does not record the ballot of what it accepts as promised
-- (multipaxos_kvstore/server/paxos_server.go), and what follows.
use go_distributed_system_de.Base.{
  pos, ℕ, true, [], ok, ◌≡◌, refl, sym, subst, some, insert, int_eq, lookup-insert_self,
}
use go_distributed_system_de.Types.Ballot.{BallotNumber}
use go_distributed_system_de.Types.Ballot.Order.{
  Below, AtLeast, AtLeast-iff, AtLeast-trans, AtLeast-Below,
}
use go_distributed_system_de.Types.Entry.{LogEntry}
use go_distributed_system_de.Persistence.{
  PersistentState, set_highest_accepted_ballot, get_log_entry, get_highest_accepted_ballot,
  snapshot,
}
use go_distributed_system_de.Persistence.Log.{updated, update_log-save}
use go_distributed_system_de.Persistence.Durability.{save_succeeds}
use go_distributed_system_de.Paxos.State.{PaxosServer}
use go_distributed_system_de.Paxos.Acceptor.{handle_accept, accept_at}
use go_distributed_system_de.Paxos.Acceptor.Votes.{stored_at}

abbrev pub voted : ℕ → BallotNumber → LogEntry → PersistentState → PersistentState
voted i ballot entry ps =
    let t = record ps {
      log = updated ps.log i entry;
      highest_accepted_ballot = insert (pos i) ballot ps.highest_accepted_ballot;
    } in
    record t { file = some (snapshot t) }

accept_at_succeeds :
    (i : ℕ) (ballot : BallotNumber) (entry : LogEntry) (now : ℕ) (s : PaxosServer)
    → s.ps.saves ≡ []
    → accept_at (pos i) ballot entry now s ≡ (
      ok (true, pos i, ballot),
      record s { last_heartbeat = now; ps = voted i ballot entry s.ps },
    )
unfolding accept_at set_highest_accepted_ballot
accept_at_succeeds i ballot entry now s h =
    rw
      (
        update_log-save i entry s.ps,
        save_succeeds (record s.ps { log = updated s.ps.log i entry }) h,
      )
      (rw (
        save_succeeds
          (record s.ps {
            log = updated s.ps.log i entry;
            file = some (snapshot (record s.ps { log = updated s.ps.log i entry }));
            highest_accepted_ballot = insert (pos i) ballot s.ps.highest_accepted_ballot;
          })
          h))

pub handle_accept_succeeds :
    (i : ℕ) (ballot : BallotNumber) (entry : LogEntry) (now : ℕ) (s : PaxosServer)
    → s.ps.saves ≡ []
    → entry.index ≡ pos i
    → AtLeast ballot s.ps.npromised
    → handle_accept ballot entry now s ≡ (
      ok (true, pos i, ballot),
      record s { last_heartbeat = now; ps = voted i ballot entry s.ps },
    )
unfolding handle_accept
handle_accept_succeeds i ballot entry now s h p q = rw ((AtLeast-iff ballot s.ps.npromised).1 q) (
    subst
      (λ k. accept_at k ballot entry now s ≡ (
        ok (true, pos i, ballot),
        record s { last_heartbeat = now; ps = voted i ballot entry s.ps },
      ))
      (sym p) (accept_at_succeeds i ballot entry now s h))

-- What the acceptor has for a position once it has accepted: the reply, the entry and the ballot.
pub record HasAccepted (i : ℕ) (ballot : BallotNumber) (entry : LogEntry) (s : PaxosServer)
    : Type 0 where
  pub stored : get_log_entry s.ps (pos i) ≡ some entry
  pub recorded : get_highest_accepted_ballot s.ps (pos i) ≡ some ballot

voted-HasAccepted :
    (i : ℕ) (ballot : BallotNumber) (entry : LogEntry) (now : ℕ) (s : PaxosServer)
    → HasAccepted i ballot entry (record s { last_heartbeat = now; ps = voted i ballot entry s.ps })
voted-HasAccepted i ballot entry now s = record {
  stored = stored_at i entry s.ps.log _ refl;
  recorded = lookup-insert_self (pos i) ballot s.ps.highest_accepted_ballot;
}

-- While the saves succeed, an acceptor that has just accepted an entry under a ballot above its
-- promise accepts another entry for the same position under a lower ballot that is not below that
-- promise: the entry of the higher ballot is overwritten, and the highest accepted ballot falls.
pub handle_accept_lower :
    (i : ℕ) (high low : BallotNumber) (first second : LogEntry) (now later : ℕ) (s : PaxosServer)
    → s.ps.saves ≡ []
    → first.index ≡ pos i
    → second.index ≡ pos i
    → AtLeast low s.ps.npromised
    → Below low high
    → let s' = (handle_accept high first now s).1 in
      let s'' = (handle_accept low second later s').1 in
      ((handle_accept high first now s).0 ≡ ok (true, pos i, high))
      × HasAccepted i high first s'
      × ((handle_accept low second later s').0 ≡ ok (true, pos i, low))
      × HasAccepted i low second s''
handle_accept_lower i high low first second now later s h p q a b =
    let t : PaxosServer = record s { last_heartbeat = now; ps = voted i high first s.ps } in
    rw
      (handle_accept_succeeds i high first now s h p
        (AtLeast-trans high low s.ps.npromised (AtLeast-Below low high b) a))
      (rw (handle_accept_succeeds i low second later t h q a)
        (refl, voted-HasAccepted i high first now s, refl, voted-HasAccepted i low second later t))
