-- ===== src/BigInt/Word.antt =====
-- Conversion from and to 64-bit integers.
use zown.Prelude.{
  Option, ℕ, ◌+◌, ◌-◌, ◌*◌, ◌/◌, ◌%◌, ◌^◌, ◌≤◌, ◌<◌, ◌≡◌, refl, Bool, true, false, List, [], ◌∷◌,
  arith, ◌==◌, ltb, if◌then◌else◌, Bool-cases, inl, inr, ap, ◌∙◌, some, none,
}
use zown.Prelude.Int.{ℤ, pos, negsuc, ◌-ℤ◌}
use zown.BigInt.{
  u32_of, to_u32, BigInt, negate, from_u64, from_i64, bit_len, mag_u64, i64_of_mag, i64_of, to_i64,
}
use zown.BigInt.Limbs.{mag, IsMag}
use zown.BigInt.Compare.{bit_len_lem, width-le}
use zown.BigInt.Signed.{IsValid, value, with_sign, negate_lem}

-- The range of `i64`.
abbrev pub fits_i64 : ℤ → Bool
fits_i64 (pos n) = ltb n (2 ^ 63)
fits_i64 (negsuc k) = ltb k (2 ^ 63)

pub from_u64_lem :
    (n : ℕ)
    → n < 2 ^ 64
    → IsMag (from_u64 n).d × (mag (from_u64 n).d ≡ n) × ((from_u64 n).neg ≡ false)
unfolding from_u64 mag
from_u64_lem n h = elim (Bool-cases (n == 0)) [
  | inl z ↦ rw z (record { limbs = tt; trimmed = tt }, ground arith, refl)
  | inr p ↦ rw p (elim (Bool-cases (n / 2 ^ 32 % 2 ^ 32 == 0)) [
    | inl z ↦
        rw z (record { limbs = omega arith; trimmed = (ground arith, tt) }, ground arith, refl)
    | inr q ↦ rw q (
      record { limbs = omega arith; trimmed = (ground arith, (ground arith, tt)) },
      ground arith,
      refl,
    )
  ])
]

mag_u64_lem :
    (d : List ℕ) → IsMag d → mag_u64 d ≡ (if ltb (mag d) (2 ^ 64) then some (mag d) else none)
unfolding mag_u64 mag
mag_u64_lem [] m = refl
mag_u64_lem (x ∷ []) m =
    let b : bit_len (x ∷ []) ≤ 64 = omega (arith, bit_len_lem x [], width-le 32 x) in
    ground (arith, m.limbs)
mag_u64_lem (x ∷ y ∷ []) m =
    let b : bit_len (x ∷ y ∷ []) ≤ 64 = omega (arith, bit_len_lem x (y ∷ []), width-le 32 y) in
    ground (arith, m.limbs)
mag_u64_lem (x ∷ y ∷ z ∷ zs) m =
    let p : 0 < z + 4294967296 * mag zs = m.trimmed.1.1.0 in ground arith

i64_of_mag_lem :
    (n : Bool) (m : ℕ)
    → (n ≡ true → 0 < m)
    → i64_of_mag n m ≡ (if fits_i64 (with_sign n m) then some (with_sign n m) else none)
i64_of_mag_lem true m h = let p = h refl in ground arith
i64_of_mag_lem false m h = ground arith

i64_of_lem :
    (n : Bool) (m : ℕ)
    → (n ≡ true → 0 < m)
    → i64_of n (if ltb m (2 ^ 64) then some m else none)
      ≡ (if fits_i64 (with_sign n m) then some (with_sign n m) else none)
i64_of_lem n m h = elim (Bool-cases (ltb m (2 ^ 64))) [
  | inl small ↦ rw small (i64_of_mag_lem n m h)
  | inr large ↦ rw large (wide n m (ground arith))
]
  where
    wide :
        (n : Bool) (m : ℕ)
        → 2 ^ 64 ≤ m
        → none ≡ (if fits_i64 (with_sign n m) then some (with_sign n m) else none)
    wide true m h = ground arith
    wide false m h = ground arith

-- Of a well-formed number, `to_i64` gives the integer if it is in the range of `i64`, and `None` otherwise.
pub to_i64_lem :
    (a : BigInt) → IsValid a → to_i64 a ≡ (if fits_i64 (value a) then some (value a) else none)
unfolding to_i64
to_i64_lem a u = ap (i64_of a.neg) (mag_u64_lem a.d u.magnitude) ∙ i64_of_lem a.neg (mag a.d) u.sign

abbrev pub u32_part : ℤ → Option ℕ
u32_part (pos n) = if ltb n (2 ^ 32) then some n else none
u32_part (negsuc k) = none

u32_parts :
    (n : Bool) (d : List ℕ)
    → IsMag d
    → (n ≡ true → 0 < mag d)
    → (if n then none else u32_of (mag_u64 d)) ≡ u32_part (with_sign n (mag d))
u32_parts true d m h = let p = h refl in ground arith
u32_parts false d m h = rw (mag_u64_lem d m) (ground arith)

-- Of a well-formed number, `to_u32` gives the integer if it is in the range of `u32`, and `None`
-- otherwise.
pub to_u32_lem : (a : BigInt) → IsValid a → to_u32 a ≡ u32_part (value a)
unfolding to_u32
to_u32_lem a u = u32_parts a.neg a.d u.magnitude u.sign

minus : (n : ℕ) → 0 < n → pos 0 -ℤ pos n ≡ negsuc (n - 1)
unfolding ◌-ℤ◌
minus n h = ground arith

u64_value : (n : ℕ) → n < 2 ^ 64 → IsValid (from_u64 n) × (value (from_u64 n) ≡ pos n)
u64_value n h =
    let (m, e, s) = from_u64_lem n h in (record { magnitude = m; sign = λ t. cc (s, t) }, rw (s, e))

negate_u64 :
    (n : ℕ)
    → n < 2 ^ 64
    → 0 < n
    → IsValid (negate (from_u64 n)) × (value (negate (from_u64 n)) ≡ negsuc (n - 1))
negate_u64 n h p =
    let (u, e) = u64_value n h in
    let (v, q) = negate_lem (from_u64 n) u in (v, q ∙ ap (λ j. pos 0 -ℤ j) e ∙ minus n p)

from_i64_lem : (i : ℤ) → fits_i64 i ≡ true → IsValid (from_i64 i) × (value (from_i64 i) ≡ i)
unfolding from_i64
from_i64_lem (pos n) h = u64_value n (ground arith)
from_i64_lem (negsuc k) h = elim (Bool-cases (k == 2 ^ 63 - 1)) [
  | inl least ↦
      let (v, e) = negate_u64 (2 ^ 63) (omega arith) (omega arith) in
      let same : negsuc (2 ^ 63 - 1) ≡ negsuc k = ground arith in rw least (v, e ∙ same)
  | inr other ↦
      let (v, e) = negate_u64 (k + 1) (ground arith) (omega arith) in
      let same : negsuc (k + 1 - 1) ≡ negsuc k = ground arith in rw other (v, e ∙ same)
]

-- Of an integer in the range of `i64`, `from_i64` gives a well-formed number that stands for it, and
-- `to_i64` gives the integer back.
pub to_i64-from_i64 :
    (i : ℤ)
    → fits_i64 i ≡ true
    → IsValid (from_i64 i) × (value (from_i64 i) ≡ i) × (to_i64 (from_i64 i) ≡ some i)
to_i64-from_i64 i h =
    let (u, e) = from_i64_lem i h in (u, e, to_i64_lem (from_i64 i) u ∙ rw e (rw h))
