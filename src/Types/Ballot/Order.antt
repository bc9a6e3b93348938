-- ===== src/Types/Ballot/Order.antt =====
-- `Compare` of ballot numbers is a total order.
use go_distributed_system_de.Base.{
  pos, leb_ℤ, ◌<ℤ◌, pos_part, neg_part, eq_of_parts, ◌≡◌, ◌↔◌, ◌⊎◌, inl, inr, Bool-cases, true,
  false, arith,
}
use go_distributed_system_de.Types.Ballot.{BallotNumber, compare, greater_than, less_than, equal}

-- The lexicographic order on (term, server).
abbrev pub Below : BallotNumber → BallotNumber → Type 0
Below a b =
    (a.term_number <ℤ b.term_number)
    ⊎ ((a.term_number ≡ b.term_number) × (a.server_id <ℤ b.server_id))

-- `b` is promised in the order of `Compare`: not below `a`.
abbrev pub AtLeast : BallotNumber → BallotNumber → Type 0
AtLeast b a = ¬ (Below b a)

ballot_eq : (a b : BallotNumber) → a.term_number ≡ b.term_number → a.server_id ≡ b.server_id → a ≡ b
ballot_eq a b p q = λ i. record { term_number = p i; server_id = q i }

-- A failed test `Compare(...) >= 0` means a lower ballot.
pub not_at_least : (a b : BallotNumber) → leb_ℤ (pos 0) (compare a b) ≡ false → Below a b
unfolding compare
not_at_least a b h = grind (arith, eq_of_parts)

at_least : (a b : BallotNumber) → AtLeast a b → leb_ℤ (pos 0) (compare a b) ≡ true
unfolding compare
at_least a b h = elim (Bool-cases (leb_ℤ (pos 0) (compare a b))) [
  | inl e ↦ e
  | inr e ↦ absurd (h (not_at_least a b e))
]

pub Below-trans : (a b c : BallotNumber) → Below a b → Below b c → Below a c
Below-trans a b c h k = ground arith

-- What `Compare(...) >= 0` tests.
pub AtLeast-iff : (a b : BallotNumber) → (leb_ℤ (pos 0) (compare a b) ≡ true) ↔ AtLeast a b
unfolding compare
AtLeast-iff a b = (λ h k. ground arith, λ h. at_least a b h)

pub AtLeast-refl : (a : BallotNumber) → AtLeast a a
AtLeast-refl a h = ground arith

pub AtLeast-trans : (a b c : BallotNumber) → AtLeast a b → AtLeast b c → AtLeast a c
AtLeast-trans a b c h k l = ground arith

pub AtLeast-Below : (a b : BallotNumber) → Below a b → AtLeast b a
AtLeast-Below a b h k = ground arith

-- The three tests agree with the lexicographic order on terms and servers: `GreaterThan` is its
-- converse, `LessThan` the order itself, and `Equal` equality.
pub tests-Below :
    (a b : BallotNumber)
    → ((greater_than a b ≡ true) ↔ Below b a)
      × ((less_than a b ≡ true) ↔ Below a b)
      × ((equal a b ≡ true) ↔ (a ≡ b))
unfolding greater_than less_than equal compare
tests-Below a b = (
  (grind (arith, eq_of_parts), λ h. ground arith),
  (grind (arith, eq_of_parts), λ h. ground arith),
  (λ h. ballot_eq a b (grind (arith, eq_of_parts)) (grind (arith, eq_of_parts)), λ h. ground arith),
)

-- `Compare` with the arguments exchanged is the same number with the other sign.
pub compare_antisym :
    (a b : BallotNumber)
    → (pos_part (compare b a) ≡ neg_part (compare a b))
      × (neg_part (compare b a) ≡ pos_part (compare a b))
unfolding compare
compare_antisym a b = ground arith

-- The order is transitive, so a chain of rising ballots rises from end to end.
pub greater_than_trans :
    (a b c : BallotNumber)
    → greater_than a b ≡ true
    → greater_than b c ≡ true
    → greater_than a c ≡ true
greater_than_trans a b c h k =
    (tests-Below a c).0.1 (Below-trans c b a ((tests-Below b c).0.0 k) ((tests-Below a b).0.0 h))
