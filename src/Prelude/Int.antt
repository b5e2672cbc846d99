-- ===== src/Prelude/Int.antt =====
-- Signed integers over the native numbers: `negsuc n` is -(n + 1).
use Prim.Native.Nat.{ℕ, zero, suc, ◌+◌, ◌*◌, ◌/◌, ◌%◌}
use ha_hue_entertainment.Prelude.Tests.{ltb, if◌then◌else◌}

pub data ℤ : Type 0 where
  pos : ℕ → ℤ
  negsuc : ℕ → ℤ

-- max(z, 0)
abbrev pub pos_part : ℤ → ℕ
pos_part (pos n) = n
pos_part (negsuc n) = 0

abbrev pub negate : ℕ → ℤ
negate zero = pos 0
negate (suc n) = negsuc n

abbrev pub times : ℤ → ℕ → ℤ
times (pos n) k = pos (n * k)
times (negsuc n) k = negate (suc n * k)

-- Python's `round(a / b)` of two integers that are not negative: to the nearest, ties to even.
unfoldable pub round_div : ℕ → ℕ → ℕ
round_div a b =
    let q = a / b in
    let r = 2 * (a % b) in if ltb r b then q else if ltb b r then q + 1 else q + q % 2

-- `round(a / b)` of an integer and a positive number: Python rounds both signs alike.
unfoldable pub round_ratio : ℤ → ℕ → ℤ
unfolding round_div
round_ratio (pos a) b = pos (round_div a b)
round_ratio (negsuc a) b = negate (round_div (suc a) b)

-- int(a / b): towards zero
unfoldable pub trunc_ratio : ℤ → ℕ → ℤ
trunc_ratio (pos a) b = pos (a / b)
trunc_ratio (negsuc a) b = negate (suc a / b)

-- A number as a fraction, not in lowest terms.
pub record Ratio : Type 0 where
  pub num : ℤ
  pub den : ℕ

-- The fraction times p / q.
unfoldable pub scale_round : Ratio → ℕ → ℕ → ℤ
unfolding round_ratio
scale_round x p q = round_ratio (times x.num p) (x.den * q)
