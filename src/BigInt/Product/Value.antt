-- ===== src/BigInt/Product/Value.antt =====
-- `mul` against the integers.
use zown.Prelude.{
  ℕ, zero, suc, ◌+◌, ◌*◌, ◌<◌, ◌≡◌, refl, Bool, true, false, List, [], ◌∷◌, length, arith, ap, ◌∙◌,
  some,
}
use native.Mathlib.Nat.{mul-pos}
use zown.Prelude.Int.{pos, pos_part, neg_part, ◌*ℤ◌}
use zown.BigInt.{BigInt, zero_int, normalize}
use zown.BigInt.Limbs.{mag, IsLimbs, IsMag, normalize_lem}
use zown.BigInt.Signed.{IsValid, value, with_sign}
use zown.BigInt.Product.{zeros, differ, product, mul}
use zown.BigInt.Product.Rows.{mul_rows_lem}

zeros_lem : (n : ℕ) → IsLimbs (zeros n) × (mag (zeros n) ≡ 0) × (length (zeros n) ≡ n)
unfolding mag
zeros_lem zero = (tt, refl, refl)
zeros_lem (suc n) =
    let (l, e, k) = zeros_lem n in ((omega arith, l), omega (arith, e), omega (arith, k))

below_zero_parts : (i : ℕ) → (pos_part (with_sign true i) ≡ 0) × (neg_part (with_sign true i) ≡ i)
below_zero_parts i = ground arith

pub with_sign-mul :
    (n k : Bool) (i j : ℕ) → with_sign (differ n k) (i * j) ≡ with_sign n i *ℤ with_sign k j
unfolding ◌*ℤ◌
with_sign-mul true true i j =
    let (p, q) = below_zero_parts i in
    let (r, s) = below_zero_parts j in rw (p, q, r, s) (ground arith)
with_sign-mul true false i j = let (p, q) = below_zero_parts i in rw (p, q) (ground arith)
with_sign-mul false true i j = let (r, s) = below_zero_parts j in rw (r, s) (ground arith)
with_sign-mul false false i j = ground arith

zero-with_sign : (n : Bool) (i : ℕ) → i ≡ 0 → pos 0 ≡ with_sign n i
zero-with_sign true i h = ground arith
zero-with_sign false i h = ground arith

abbrev Multiplies : BigInt → BigInt → Type 0
Multiplies a b = (c : BigInt) × (mul a b ≡ some c) × IsValid c × (value c ≡ value a *ℤ value b)

zero_int-IsValid : IsValid zero_int
zero_int-IsValid = record { magnitude = record { limbs = tt; trimmed = tt }; sign = λ e. cc }

mul_parts :
    (n k : Bool) (xs ys : List ℕ)
    → IsMag xs
    → IsMag ys
    → Multiplies (record { neg = n; d = xs }) (record { neg = k; d = ys })
unfolding mul mag
mul_parts n k [] ys u v = (
  zero_int,
  refl,
  zero_int-IsValid,
  zero-with_sign (differ n k) (0 * mag ys) (omega arith) ∙ with_sign-mul n k 0 (mag ys),
)
mul_parts n k (x ∷ xs) [] u v = (
  zero_int,
  refl,
  zero_int-IsValid,
  zero-with_sign (differ n k) (mag (x ∷ xs) * 0) (omega arith) ∙ with_sign-mul n k (mag (x ∷ xs)) 0,
)
mul_parts n k (x ∷ xs) (y ∷ ys) u v =
    let (z, e, j) = zeros_lem (length (x ∷ xs) + length (y ∷ ys)) in
    let (d, p, l, q, _) = mul_rows_lem (x ∷ xs) (y ∷ ys) _ u.limbs v.limbs z (omega (arith, j)) in
    let (w, r) = normalize_lem d l in
    let total : mag (normalize d) ≡ mag (x ∷ xs) * mag (y ∷ ys) = omega (arith, e, q, r) in
    let positive : 0 < mag (x ∷ xs) * mag (y ∷ ys) = mul-pos u.trimmed.0 v.trimmed.0 in
    (
      record { neg = differ n k; d = normalize d },
      ap (product (differ n k)) p,
      record { magnitude = w; sign = λ t. omega (arith, total, positive) },
      ap (with_sign (differ n k)) total ∙ with_sign-mul n k (mag (x ∷ xs)) (mag (y ∷ ys)),
    )

-- `mul` multiplies well-formed operands, with no index out of range and no carry left over: its result stands for the
-- product of the integers, and has the form that every operation keeps.
pub mul_lem :
    (a b : BigInt)
    → IsValid a
    → IsValid b
    → (c : BigInt) × (mul a b ≡ some c) × IsValid c × (value c ≡ value a *ℤ value b)
mul_lem a b u v = mul_parts a.neg b.neg a.d b.d u.magnitude v.magnitude
