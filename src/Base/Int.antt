-- ===== src/Base/Int.antt =====
-- Go's `int`: signed integers over the native numbers, with the two's complement wrap of a width.
-- Sums and orders go through the two parts of an integer, which are numbers that `omega` reads.
use Prim.Native.Nat.{ℕ, suc, ◌+◌, ◌-◌, ◌%◌, ◌^◌, ◌≤◌, ◌<◌}
use mathlib.Core.Path.{◌≡◌}
use mathlib.Core.Logic.{◌↔◌}
use mathlib.Core.Bool.{Bool, true}
use native.Mathlib.Omega.{arith}
use go_distributed_system_de.Base.Tests.{ltb, leb, if◌then◌else◌, ◌==◌}

-- `negsuc n` is -(n + 1).
pub data ℤ : Type 0 where
  pos : ℕ → ℤ
  negsuc : ℕ → ℤ

abbrev pub pos_part : ℤ → ℕ
pos_part (pos n) = n
pos_part (negsuc n) = 0

abbrev pub neg_part : ℤ → ℕ
neg_part (pos n) = 0
neg_part (negsuc n) = suc n

abbrev pub sub_ℕ : ℕ → ℕ → ℤ
sub_ℕ a b = if leb b a then pos (a - b) else negsuc (b - a - 1)

infixl 65 ◌+ℤ◌
infix 50 ◌≤ℤ◌ ◌<ℤ◌
unfoldable pub ◌+ℤ◌ : ℤ → ℤ → ℤ
a +ℤ b = sub_ℕ (pos_part a + pos_part b) (neg_part a + neg_part b)

abbrev pub ◌≤ℤ◌ : ℤ → ℤ → Type 0
a ≤ℤ b = pos_part a + neg_part b ≤ pos_part b + neg_part a

abbrev pub ◌<ℤ◌ : ℤ → ℤ → Type 0
a <ℤ b = pos_part a + neg_part b < pos_part b + neg_part a

abbrev pub ltb_ℤ : ℤ → ℤ → Bool
ltb_ℤ a b = ltb (pos_part a + neg_part b) (pos_part b + neg_part a)

abbrev pub leb_ℤ : ℤ → ℤ → Bool
leb_ℤ a b = leb (pos_part a + neg_part b) (pos_part b + neg_part a)

abbrev pub eqb_ℤ : ℤ → ℤ → Bool
eqb_ℤ a b = (pos_part a + neg_part b) == (pos_part b + neg_part a)

pub eqb_ℤ_iff : (a b : ℤ) → (eqb_ℤ a b ≡ true) ↔ (a ≡ b)
eqb_ℤ_iff (pos a) (pos b) = ground arith
eqb_ℤ_iff (pos a) (negsuc b) = ground arith
eqb_ℤ_iff (negsuc a) (pos b) = ground arith
eqb_ℤ_iff (negsuc a) (negsuc b) = ground arith

pub +ℤ_parts :
    (a b : ℤ)
    → pos_part (a +ℤ b) + neg_part a + neg_part b ≡ neg_part (a +ℤ b) + pos_part a + pos_part b
unfolding ◌+ℤ◌
+ℤ_parts a b = ground arith

pub eq_of_parts : (a b : ℤ) → pos_part a + neg_part b ≡ pos_part b + neg_part a → a ≡ b
eq_of_parts a b h = ground arith

-- The w low bits of a word, read as a signed number.
abbrev pub of_word : ℕ → ℕ → ℤ
of_word w m = if ltb m (2 ^ (w - 1)) then pos m else negsuc (2 ^ w - 1 - m)

abbrev pub to_word : ℕ → ℤ → ℕ
to_word w (pos n) = n % 2 ^ w
to_word w (negsuc n) = 2 ^ w - 1 - n % 2 ^ w

-- The conversions to a signed integer of 64 and of 32 bits.
unfoldable pub wrap64 : ℤ → ℤ
wrap64 z = of_word 64 (to_word 64 z)

unfoldable pub wrap32 : ℤ → ℤ
wrap32 z = of_word 32 (to_word 32 z)

abbrev pub InInt64 : ℤ → Type 0
InInt64 z = (pos_part z < 2 ^ 63) × (neg_part z ≤ 2 ^ 63)

abbrev pub InInt32 : ℤ → Type 0
InInt32 z = (pos_part z < 2 ^ 31) × (neg_part z ≤ 2 ^ 31)

pub wrap64_range : (z : ℤ) → InInt64 (wrap64 z)
unfolding wrap64
wrap64_range (pos n) = ground arith
wrap64_range (negsuc n) = ground arith

pub wrap64_id : (z : ℤ) → InInt64 z → wrap64 z ≡ z
unfolding wrap64
wrap64_id (pos n) h = ground arith
wrap64_id (negsuc n) h = ground arith

pub wrap32_range : (z : ℤ) → InInt32 (wrap32 z)
unfolding wrap32
wrap32_range (pos n) = ground arith
wrap32_range (negsuc n) = ground arith

pub wrap32_id : (z : ℤ) → InInt32 z → wrap32 z ≡ z
unfolding wrap32
wrap32_id (pos n) h = ground arith
wrap32_id (negsuc n) h = ground arith

-- `i++` on an `int`.
unfoldable pub inc64 : ℤ → ℤ
unfolding wrap64 ◌+ℤ◌
inc64 z = wrap64 (z +ℤ pos 1)

-- Below the largest value an increment adds one.
pub inc64_parts :
    (z : ℤ)
    → pos_part z < 2 ^ 63 - 1
    → neg_part z ≤ 2 ^ 63
    → pos_part (inc64 z) + neg_part z ≡ neg_part (inc64 z) + pos_part z + 1
unfolding inc64
inc64_parts (pos n) h k = ground arith
inc64_parts (negsuc n) h k = ground arith
