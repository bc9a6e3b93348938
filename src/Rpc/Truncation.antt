-- ===== src/Rpc/Truncation.antt =====
-- Ballots that do not fit in the 32 bits of a message (`Prepare` of
-- multipaxos_kvstore/server/paxos_client.go and of multipaxos_kvstore/server/grpc_server.go).
use go_distributed_system_de.Base.{
  pos, pos_part, neg_part, wrap32, ◌≤◌, ◌<◌, ◌≤ℤ◌, ◌^◌, ℕ, false, [], some, ◌≡◌, refl, arith,
}
use go_distributed_system_de.Types.Ballot.{BallotNumber, greater_than, compare}
use go_distributed_system_de.Paxos.State.{PaxosServer}
use go_distributed_system_de.Paxos.Acceptor.{handle_prepare}
use go_distributed_system_de.Rpc.Wire.{ballot_to_pb, pb_to_ballot}
use go_distributed_system_de.Rpc.Server
use go_distributed_system_de.Rpc.Peer

wrap32_overflows :
    (t : ℕ) → 2 ^ 31 ≤ t → t < 2 ^ 32 → pos_part (wrap32 (pos t)) < neg_part (wrap32 (pos t))
unfolding wrap32
wrap32_overflows t l h = ground arith

lower :
    (a b : BallotNumber)
    → pos_part a.term_number < neg_part a.term_number
    → pos 0 ≤ℤ b.term_number
    → greater_than a b ≡ false
unfolding greater_than compare
lower a b h k = ground arith

arrives_negative :
    (ballot : BallotNumber) (t : ℕ)
    → ballot.term_number ≡ pos t
    → 2 ^ 31 ≤ t
    → t < 2 ^ 32
    → let b = pb_to_ballot (some (ballot_to_pb ballot)) in
      pos_part b.term_number < neg_part b.term_number
unfolding pb_to_ballot ballot_to_pb
arrives_negative ballot t e l h = rw e (wrap32_overflows t l h)

-- A Prepare for a term from 2^31 to below 2^32 is refused by every peer whose promise is for a term
-- of at least 0, however much lower that promise is, and nothing changes: the term has arrived as a
-- negative one.
pub prepare_overflows :
    (ballot : BallotNumber) (t now : ℕ) (s : PaxosServer)
    → ballot.term_number ≡ pos t
    → 2 ^ 31 ≤ t
    → t < 2 ^ 32
    → pos 0 ≤ℤ s.ps.npromised.term_number
    → Peer.prepare ballot now s
      ≡ (some (false, pb_to_ballot (some (ballot_to_pb s.ps.npromised)), []), s)
unfolding Peer.prepare Server.prepare handle_prepare
prepare_overflows ballot t now s e l h k =
    let w : greater_than (pb_to_ballot (some (ballot_to_pb ballot))) s.ps.npromised ≡ false =
      lower (pb_to_ballot (some (ballot_to_pb ballot))) s.ps.npromised
        (arrives_negative ballot t e l h) k in
    rw w refl
