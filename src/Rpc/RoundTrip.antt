-- ===== src/Rpc/RoundTrip.antt =====
-- A call of a peer does what its handler does (multipaxos_kvstore/server/paxos_client.go,
-- multipaxos_kvstore/server/grpc_server.go).
use go_distributed_system_de.Base.{
  ℤ, pos, wrap32_id, InInt32, ℕ, Bool, List, [], ◌∷◌, Option, none, some, Outcome, ok, err, panic,
  ◌≡◌, refl,
}
use go_distributed_system_de.Types.Ballot.{BallotNumber}
use go_distributed_system_de.Types.Entry.{LogEntry}
use go_distributed_system_de.Paxos.State.{PaxosServer, Error}
use go_distributed_system_de.Paxos.Acceptor.{handle_prepare, handle_accept}
use go_distributed_system_de.Paxos.Heartbeat.{handle_heartbeat}
use go_distributed_system_de.Paxos.Transfer.{handle_state_transfer}
use go_distributed_system_de.Rpc.Wire.{
  BallotFits, EntryFits, AllFit, pb_to_ballot-ballot_to_pb, entry_round_trip, entries_round_trip,
}
use go_distributed_system_de.Rpc.Server
use go_distributed_system_de.Rpc.Server.{
  answer, prepare_response, accept_response, heartbeat_response,
}
use go_distributed_system_de.Rpc.Peer
use go_distributed_system_de.Rpc.Peer.{read_back, prepare_result, accept_result, heartbeat_result}

-- What a caller in the same process would get: the results, or no more than that there was an error.
abbrev pub result_of : {A : Type 0} → Outcome Error A × PaxosServer → Option A × PaxosServer
result_of (ok a, s) = (some a, s)
result_of (err e, s) = (none, s)
result_of (panic, s) = (none, s)

abbrev pub PromiseFits : Outcome Error (Bool × BallotNumber × List LogEntry) × PaxosServer → Type 0
PromiseFits (ok (promise, ballot, entries), s) = BallotFits ballot × AllFit entries
PromiseFits (err e, s) = Unit
PromiseFits (panic, s) = Unit

abbrev pub VoteFits : Outcome Error (Bool × ℤ × BallotNumber) × PaxosServer → Type 0
VoteFits (ok (accepted, index, ballot), s) = InInt32 index × BallotFits ballot
VoteFits (err e, s) = Unit
VoteFits (panic, s) = Unit

promise_back :
    (r : Outcome Error (Bool × BallotNumber × List LogEntry) × PaxosServer)
    → PromiseFits r
    → read_back prepare_result (answer prepare_response r) ≡ result_of r
promise_back (ok (promise, ballot, entries), s) (b, es) =
    rw (pb_to_ballot-ballot_to_pb ballot b, entries_round_trip entries es) refl
promise_back (err e, s) h = refl
promise_back (panic, s) h = refl

vote_back :
    (r : Outcome Error (Bool × ℤ × BallotNumber) × PaxosServer)
    → VoteFits r
    → read_back accept_result (answer accept_response r) ≡ result_of r
vote_back (ok (accepted, index, ballot), s) (i, b) =
    rw (pb_to_ballot-ballot_to_pb ballot b, wrap32_id index i) refl
vote_back (err e, s) h = refl
vote_back (panic, s) h = refl

success_back :
    (r : Outcome Error Bool × PaxosServer)
    → read_back (λ success. success) (answer (λ success. success) r) ≡ result_of r
success_back (ok a, s) = refl
success_back (err e, s) = refl
success_back (panic, s) = refl

-- A Prepare sent to a peer has the effect and the answer of its handler, when the ballot sent and the
-- ballot and the entries answered fit in 32 bits.
pub prepare-handle_prepare :
    (ballot : BallotNumber) (now : ℕ) (s : PaxosServer)
    → BallotFits ballot
    → PromiseFits (handle_prepare ballot now s)
    → Peer.prepare ballot now s ≡ result_of (handle_prepare ballot now s)
unfolding Peer.prepare Server.prepare
prepare-handle_prepare ballot now s b p =
    rw (pb_to_ballot-ballot_to_pb ballot b) (promise_back (handle_prepare ballot now s) p)

-- An Accept sent to a peer has the effect and the answer of its handler, when the ballot and the entry
-- sent, and the index and the ballot answered, fit in 32 bits.
pub accept-handle_accept :
    (ballot : BallotNumber) (entry : LogEntry) (now : ℕ) (s : PaxosServer)
    → BallotFits ballot
    → EntryFits entry
    → VoteFits (handle_accept ballot entry now s)
    → Peer.accept ballot entry now s ≡ result_of (handle_accept ballot entry now s)
unfolding Peer.accept Server.accept
accept-handle_accept ballot entry now s b e v =
    rw (pb_to_ballot-ballot_to_pb ballot b, entry_round_trip entry e)
      (vote_back (handle_accept ballot entry now s) v)

beat_back :
    (r : (Bool × ℕ) × PaxosServer)
    → InInt32 (pos r.0.1)
    → read_back heartbeat_result (heartbeat_response r) ≡ (some (r.0.0, pos r.0.1), r.1)
beat_back ((success, length), s) h = rw (wrap32_id (pos length) h) refl

-- A heartbeat sent to a peer has the effect and the answer of its handler, when the ballot, the commit
-- index and the length of the peer's log fit in 32 bits.
pub heartbeat-handle_heartbeat :
    (ballot : BallotNumber) (commit_index : ℤ) (now : ℕ) (s : PaxosServer)
    → BallotFits ballot
    → InInt32 commit_index
    → InInt32 (pos (handle_heartbeat ballot commit_index now s).0.1)
    → let r = handle_heartbeat ballot commit_index now s in
      Peer.heartbeat ballot commit_index now s ≡ (some (r.0.0, pos r.0.1), r.1)
unfolding Peer.heartbeat Server.heartbeat
heartbeat-handle_heartbeat ballot commit_index now s b c l =
    rw (pb_to_ballot-ballot_to_pb ballot b, wrap32_id commit_index c)
      (beat_back (handle_heartbeat ballot commit_index now s) l)

-- Entries sent to a peer that fit in 32 bits have the effect and the answer of its handler; without
-- entries the handler is not called, and the outcome is the same.
pub transfer_state-handle_state_transfer :
    (missing : List LogEntry) (s : PaxosServer)
    → AllFit missing
    → Peer.transfer_state missing s ≡ result_of (handle_state_transfer missing s)
unfolding Peer.transfer_state Server.transfer_state handle_state_transfer
transfer_state-handle_state_transfer [] s h = refl
transfer_state-handle_state_transfer (entry ∷ missing) s (e, es) =
    rw (entry_round_trip entry e, entries_round_trip missing es)
      (success_back (handle_state_transfer (entry ∷ missing) s))
