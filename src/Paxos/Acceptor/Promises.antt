-- ===== src/Paxos/Acceptor/Promises.antt =====
-- Phase 1 at an acceptor (`HandlePrepare` of multipaxos_kvstore/server/paxos_server.go).
use go_distributed_system_de.Base.{
  ℕ, Bool, true, false, List, [], Outcome, ok, err, panic, ◌≡◌, refl, Bool-cases, inl, inr, some,
}
use go_distributed_system_de.Types.Ballot.{BallotNumber, greater_than}
use go_distributed_system_de.Types.Ballot.Order.{Below, AtLeast, tests-Below}
use go_distributed_system_de.Types.Entry.{LogEntry}
use go_distributed_system_de.Types.Role.{follower}
use go_distributed_system_de.Persistence.{set_npromised, get_all_accepted_entries, snapshot}
use go_distributed_system_de.Persistence.Durability.{IsDurable, save_cases, save_succeeds}
use go_distributed_system_de.Paxos.State.{PaxosServer, Error}
use go_distributed_system_de.Paxos.Acceptor.{handle_prepare, promise}

abbrev pub PrepareResult : Type 0
PrepareResult = Outcome Error (Bool × BallotNumber × List LogEntry) × PaxosServer

-- A granted promise: a higher ballot, on disk, with the entries accepted so far.
pub record Granted (s : PaxosServer) (ballot : BallotNumber) (b : BallotNumber)
    (entries : List LogEntry) (s' : PaxosServer) : Type 0 where
  pub higher : Below s.ps.npromised ballot
  pub reply : b ≡ ballot
  pub collected : entries ≡ get_all_accepted_entries s.ps
  pub promised : s'.ps.npromised ≡ ballot
  pub durable : IsDurable s'.ps
  pub log : s'.ps.log ≡ s.ps.log
  pub accepted : s'.ps.highest_accepted_ballot ≡ s.ps.highest_accepted_ballot
  pub state : s'.state ≡ follower

pub record Refused (s : PaxosServer) (ballot : BallotNumber) (b : BallotNumber)
    (entries : List LogEntry) (s' : PaxosServer) : Type 0 where
  pub not_higher : AtLeast s.ps.npromised ballot
  pub reply : b ≡ s.ps.npromised
  pub collected : entries ≡ []
  pub same : s' ≡ s

pub record PrepareFailed (s : PaxosServer) (ballot : BallotNumber) (s' : PaxosServer) : Type 0 where
  pub higher : Below s.ps.npromised ballot
  pub file : s'.ps.file ≡ s.ps.file
  pub log : s'.ps.log ≡ s.ps.log
  pub state : s'.state ≡ s.state

abbrev pub PrepareOutcome : PaxosServer → BallotNumber → PrepareResult → Type 0
PrepareOutcome s ballot (ok (true, b, entries), s') = Granted s ballot b entries s'
PrepareOutcome s ballot (ok (false, b, entries), s') = Refused s ballot b entries s'
PrepareOutcome s ballot (err e, s') = PrepareFailed s ballot s'
PrepareOutcome s ballot (panic, s') = ⊥

promise-Outcome :
    (s : PaxosServer) (ballot : BallotNumber) (now : ℕ)
    → Below s.ps.npromised ballot
    → PrepareOutcome s ballot (promise ballot now s)
unfolding promise set_npromised get_all_accepted_entries
promise-Outcome s ballot now h = elim (save_cases (record s.ps { npromised = ballot })) [
  | inl (l, e) ↦
      rw (e, promise)
        (record {
          higher = h;
          reply = refl;
          collected = refl;
          promised = refl;
          durable = refl;
          log = refl;
          accepted = refl;
          state = refl;
        })
  | inr (l, x, e) ↦ rw (e, promise) (record { higher = h; file = refl; log = refl; state = refl })
]

-- HandlePrepare grants a promise exactly to a ballot above the one promised before; the promise and
-- the log with its accepted ballots are then on disk, the reply carries the entries accepted
-- before, and the server is a follower. Any other ballot is refused with the promise in force and
-- nothing changes. If the promise cannot be saved, an error is returned and the file is as before.
pub handle_prepare_lem :
    (s : PaxosServer) (ballot : BallotNumber) (now : ℕ)
    → PrepareOutcome s ballot (handle_prepare ballot now s)
unfolding handle_prepare
handle_prepare_lem s ballot now = elim (Bool-cases (greater_than ballot s.ps.npromised)) [
  | inl e ↦ rw e (promise-Outcome s ballot now ((tests-Below ballot s.ps.npromised).0.0 e))
  | inr e ↦ rw e (record {
    not_higher = λ h. cc (e, (tests-Below ballot s.ps.npromised).0.1 h);
    reply = refl;
    collected = refl;
    same = refl;
  })
]

-- While the saves succeed, a higher ballot is promised.
pub handle_prepare_succeeds :
    (s : PaxosServer) (ballot : BallotNumber) (now : ℕ)
    → s.ps.saves ≡ []
    → Below s.ps.npromised ballot
    → handle_prepare ballot now s ≡ (
      ok (true, ballot, get_all_accepted_entries s.ps),
      record s {
        state = follower;
        last_heartbeat = now;
        ps = record s.ps {
          npromised = ballot;
          file = some (snapshot (record s.ps { npromised = ballot }));
        };
      },
    )
unfolding handle_prepare set_npromised get_all_accepted_entries
handle_prepare_succeeds s ballot now h b =
    let e : greater_than ballot s.ps.npromised ≡ true = (tests-Below ballot s.ps.npromised).0.1 b in
    rw (e, save_succeeds (record s.ps { npromised = ballot }) h)
