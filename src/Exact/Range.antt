-- ===== src/Exact/Range.antt =====
-- Numbers that 128 bits hold, and the numbers that `i64` holds among them.
use zown.Prelude.{ℕ, ◌+◌, ◌*◌, ◌^◌, ◌≤◌, ◌<◌, ◌≡◌, true, arith}
use zown.Prelude.Int.{ℤ, pos, negsuc, pos_part, neg_part, ◌+ℤ◌, ◌-ℤ◌, ◌*ℤ◌}
use zown.BigInt.Word.{fits_i64}
use zown.Exact.{i128}

abbrev pub magnitude : ℤ → ℕ
magnitude a = pos_part a + neg_part a

-- no more than `i128` holds, but for `2 ^ 127` itself
abbrev pub IsSmall : ℤ → Type 0
IsSmall a = magnitude a ≤ 2 ^ 127

pub magnitude-mul : (a b : ℤ) → magnitude (a *ℤ b) ≡ magnitude a * magnitude b
unfolding ◌*ℤ◌
magnitude-mul (pos m) (pos n) = ground arith
magnitude-mul (pos m) (negsuc n) = ground arith
magnitude-mul (negsuc m) (pos n) = ground arith
magnitude-mul (negsuc m) (negsuc n) = ground arith

pub magnitude-add : (a b : ℤ) → magnitude (a +ℤ b) ≤ magnitude a + magnitude b
unfolding ◌+ℤ◌
magnitude-add a b = ground arith

pub magnitude-sub : (a b : ℤ) → magnitude (a -ℤ b) ≤ magnitude a + magnitude b
unfolding ◌-ℤ◌
magnitude-sub a b = ground arith

pub fits-magnitude : (a : ℤ) → fits_i64 a ≡ true → magnitude a ≤ 2 ^ 63
fits-magnitude (pos n) h = ground arith
fits-magnitude (negsuc n) h = ground arith

pub i128_small : (a : ℤ) → magnitude a < 2 ^ 127 → i128 a ≡ a
unfolding i128
i128_small (pos n) h = ground arith
i128_small (negsuc n) h = ground arith

pub fits-i128 : (a : ℤ) → IsSmall a → fits_i64 (i128 a) ≡ fits_i64 a
unfolding i128
fits-i128 (pos n) h = ground arith
fits-i128 (negsuc n) h = ground arith
