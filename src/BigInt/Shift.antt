-- ===== src/BigInt/Shift.antt =====
-- zownc/crates/zown-vm/src/bigint.rs: `shl`, and the power of two it multiplies by.
use native.Mathlib.Nat.{mul-le-mul_right, mul-pos, mul_assoc, mul_comm, pow-le-pow_right, pow-suc}
use zown.Prelude.{
  ℕ, zero, suc, ◌+◌, ◌*◌, ◌/◌, ◌%◌, ◌^◌, ◌≤◌, ◌<◌, ◌≡◌, Bool, true, false, ◌||◌, List, [], ◌∷◌,
  ◌++◌, arith, ◌==◌, if◌then◌else◌, Bool-cases, inl, inr, ap, sym, ◌∙◌,
}
use zown.Prelude.Int.{pos, ◌*ℤ◌}
use zown.BigInt.{BigInt, u32, u64, is_zero}
use zown.BigInt.Limbs.{mag, IsMag}
use zown.BigInt.Signed.{IsValid, value, with_sign}
use zown.BigInt.Product.{zeros}
use zown.BigInt.Product.Value.{with_sign-mul}

-- The loop over the limbs, for a shift by 1 to 31 bits. `(limb << bit_shift) | carry` is written as
-- a sum: the two have no bit in common.
unfoldable pub shl_loop : ℕ → ℕ → List ℕ → List ℕ
shl_loop bit_shift carry [] = if carry == 0 then [] else carry ∷ []
shl_loop bit_shift carry (x ∷ xs) =
    let val = u64 (u64 (x * 2 ^ bit_shift) + carry) in
    u32 val ∷ shl_loop bit_shift (u32 (val / 2 ^ 32)) xs

unfoldable pub shl : BigInt → ℕ → BigInt
shl a bits =
    let shifted = if bits % 32 == 0 then a.d else shl_loop (bits % 32) 0 a.d in
    if is_zero a || bits == 0 then a else record { neg = a.neg; d = zeros (bits / 32) ++ shifted }

product_bound : (x p : ℕ) → x < 4294967296 → x * p ≤ 4294967295 * p
product_bound x p h = mul-le-mul_right p (omega arith)

shl_loop_lem :
    (s c : ℕ) (xs : List ℕ)
    → 2 ^ s ≤ 2147483648
    → c < 2 ^ s
    → IsMag xs
    → IsMag (shl_loop s c xs) × (mag (shl_loop s c xs) ≡ 2 ^ s * mag xs + c)
unfolding shl_loop mag
shl_loop_lem s c [] b h m = elim (Bool-cases (c == 0)) [
  | inl z ↦ rw z (m, ground arith)
  | inr q ↦ rw q (record { limbs = omega arith; trimmed = (ground arith, tt) }, omega arith)
]
shl_loop_lem s c (x ∷ xs) b h m =
    let le = product_bound x (2 ^ s) m.limbs.0 in
    let v = u64 (u64 (x * 2 ^ s) + c) in
    let (w, q) =
      shl_loop_lem s (u32 (v / 2 ^ 32)) xs b (omega (arith, le, b, h))
        (record { limbs = m.limbs.1; trimmed = m.trimmed.1 }) in
    let sum : u32 v + 4294967296 * mag (shl_loop s (u32 (v / 2 ^ 32)) xs)
        ≡ 2 ^ s * (x + 4294967296 * mag xs) + c =
      omega (arith, q, le, h, b) in
    let positive : 0 < 2 ^ s * (x + 4294967296 * mag xs) = mul-pos (omega (arith, h)) m.trimmed.0 in
    (
      record {
        limbs = (omega arith, w.limbs);
        trimmed = (omega (arith, sum, positive), w.trimmed);
      },
      sum,
    )

pow_add : (i j : ℕ) → 2 ^ (i + j) ≡ 2 ^ i * 2 ^ j
pow_add i zero = let same : i + 0 ≡ i = omega arith in rw same (omega arith)
pow_add i (suc j) =
    let next : i + suc j ≡ suc (i + j) = omega arith in
    ap (λ k. 2 ^ k) next ∙ pow-suc 2 (i + j) ∙ rw (pow_add i j, pow-suc 2 j) (omega arith)

-- limbs of value 0 in front
zeros-append :
    (n : ℕ) (xs : List ℕ)
    → IsMag xs
    → 0 < mag xs
    → IsMag (zeros n ++ xs)
      × (mag (zeros n ++ xs) ≡ 2 ^ (32 * n) * mag xs)
      × (0 < mag (zeros n ++ xs))
unfolding mag
zeros-append zero xs m h = (m, omega arith, h)
zeros-append (suc n) xs m h =
    let (w, e, p) = zeros-append n xs m h in
    let next : 32 * suc n ≡ 32 + 32 * n = omega arith in
    let pow : 2 ^ (32 * suc n) ≡ 4294967296 * 2 ^ (32 * n) =
      ap (λ k. 2 ^ k) next ∙ pow_add 32 (32 * n) in
    (
      record { limbs = (omega arith, w.limbs); trimmed = (omega (arith, p), w.trimmed) },
      rw pow (omega (arith, e)),
      omega (arith, p),
    )

pow_pos : (n : ℕ) → 0 < 2 ^ n
pow_pos zero = omega arith
pow_pos (suc n) = omega (arith, pow_pos n, pow-suc 2 n)

pow_split : (n : ℕ) → 2 ^ n ≡ 2 ^ (32 * (n / 32)) * 2 ^ (n % 32)
pow_split n =
    let split : n ≡ 32 * (n / 32) + n % 32 = omega arith in
    ap (λ k. 2 ^ k) split ∙ pow_add (32 * (n / 32)) (n % 32)

-- the limbs shifted by fewer than 32 bits
bits_lem :
    (s : ℕ) (xs : List ℕ)
    → s < 32
    → IsMag xs
    → let out = if s == 0 then xs else shl_loop s 0 xs in IsMag out × (mag out ≡ 2 ^ s * mag xs)
bits_lem s xs h m = elim (Bool-cases (s == 0)) [
  | inl z ↦
      let is_zero_shift : s ≡ 0 = ground arith in
      let none_moved : 2 ^ s ≡ 1 = ap (λ k. 2 ^ k) is_zero_shift in
      rw z (m, rw none_moved (omega arith))
  | inr p ↦
      let le : 2 ^ s ≤ 2 ^ 31 =
        pow-le-pow_right {n = 2} (omega arith) {i = s} {j = 31} (omega arith) in
      let (w, e) = shl_loop_lem s 0 xs le (pow_pos s) m in rw p (w, omega (arith, e))
]

with_sign-mul_pos : (n : Bool) (i j : ℕ) → with_sign n (i * j) ≡ with_sign n i *ℤ pos j
with_sign-mul_pos true i j = with_sign-mul true false i j
with_sign-mul_pos false i j = with_sign-mul false false i j

shl_parts :
    (n : Bool) (d : List ℕ) (bits : ℕ)
    → IsValid (record { neg = n; d = d })
    → IsValid (shl (record { neg = n; d = d }) bits)
      × (value (shl (record { neg = n; d = d }) bits) ≡ with_sign n (mag d * 2 ^ bits))
unfolding shl mag
shl_parts n [] bits u = (u, ap (with_sign n) (omega arith))
shl_parts n (x ∷ xs) bits u = elim (Bool-cases (bits == 0)) [
  | inl z ↦
      let zero_bits : bits ≡ 0 = ground arith in
      let none_moved : 2 ^ bits ≡ 1 = ap (λ k. 2 ^ k) zero_bits in
      rw z (u, rw none_moved (ap (with_sign n) (omega arith)))
  | inr p ↦
      let (w, e) = bits_lem (bits % 32) (x ∷ xs) (omega arith) u.magnitude in
      let positive : 0 < 2 ^ (bits % 32) * mag (x ∷ xs) =
        mul-pos (pow_pos (bits % 32)) u.magnitude.trimmed.0 in
      let (v, q, h) = zeros-append (bits / 32) _ w (omega (arith, e, positive)) in
      rw p (
        record { magnitude = v; sign = λ t. h },
        ap (with_sign n) (
            q
            ∙ ap (λ k. 2 ^ (32 * (bits / 32)) * k) e
            ∙ sym (mul_assoc (2 ^ (32 * (bits / 32))) (2 ^ (bits % 32)) (mag (x ∷ xs)))
            ∙ ap (λ k. k * mag (x ∷ xs)) (sym (pow_split bits))
            ∙ mul_comm (2 ^ bits) (mag (x ∷ xs))),
      )
]

-- `shl` multiplies a well-formed number by the power of two, and gives a well-formed one.
pub shl_lem :
    (a : BigInt) (bits : ℕ)
    → IsValid a
    → IsValid (shl a bits) × (value (shl a bits) ≡ value a *ℤ pos (2 ^ bits))
shl_lem a bits u =
    let (v, e) = shl_parts a.neg a.d bits u in (v, e ∙ with_sign-mul_pos a.neg (mag a.d) (2 ^ bits))
