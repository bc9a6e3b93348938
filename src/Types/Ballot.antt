-- ===== src/Types/Ballot.antt =====
-- Ballot numbers and their order (`BallotNumber` of multipaxos_kvstore/types/types.go).
pub mod Order
use go_distributed_system_de.Base.{ℤ, pos, negsuc, ltb_ℤ, eqb_ℤ, Bool, if◌then◌else◌}

pub record BallotNumber : Type 0 where
  pub term_number : ℤ
  pub server_id : ℤ

abbrev pub new_ballot_number : ℤ → ℤ → BallotNumber
new_ballot_number term id = record { term_number = term; server_id = id }

-- The zero value, `BallotNumber{}`.
abbrev pub zero_ballot : BallotNumber
zero_ballot = record { term_number = pos 0; server_id = pos 0 }

-- -1, 0 or 1: by term, then by server.
unfoldable pub compare : BallotNumber → BallotNumber → ℤ
compare b other =
    if ltb_ℤ b.term_number other.term_number
    then negsuc 0
    else if ltb_ℤ other.term_number b.term_number
    then pos 1
    else if ltb_ℤ b.server_id other.server_id
    then negsuc 0
    else if ltb_ℤ other.server_id b.server_id
    then pos 1
    else pos 0

unfoldable pub greater_than : BallotNumber → BallotNumber → Bool
greater_than b other = ltb_ℤ (pos 0) (compare b other)

unfoldable pub less_than : BallotNumber → BallotNumber → Bool
less_than b other = ltb_ℤ (compare b other) (pos 0)

unfoldable pub equal : BallotNumber → BallotNumber → Bool
equal b other = eqb_ℤ (compare b other) (pos 0)
