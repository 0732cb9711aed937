-- ===== src/BigInt/Decimal/Digits.antt =====
-- Multiplication and division by a small number, and the digits of a number.
use zown.Prelude.{
  ℕ, zero, suc, ◌+◌, ◌*◌, ◌/◌, ◌^◌, ◌≤◌, ◌<◌, ◌≡◌, refl, Bool, false, List, [], ◌∷◌, All, length,
  arith, ◌==◌, Bool-cases, inl, inr, Option, some,
}
use zown.BigInt.{u32, u64, mul_u32_loop, divmod_u32_loop, divmod_u32, normalize}
use zown.BigInt.Limbs.{mag, IsLimbs, IsMag, normalize_lem}
use zown.BigInt.Decimal.{digits_loop}

pub mul_loop_lem :
    (c : ℕ) (xs : List ℕ)
    → c < 10
    → IsMag xs
    → IsMag (mul_u32_loop 10 c xs) × (mag (mul_u32_loop 10 c xs) ≡ 10 * mag xs + c)
unfolding mul_u32_loop mag
mul_loop_lem c [] h u = elim (Bool-cases (c == 0)) [
  | inl z ↦ rw z (u, ground arith)
  | inr p ↦ rw p (record { limbs = omega arith; trimmed = (ground arith, tt) }, omega arith)
]
mul_loop_lem c (x ∷ xs) h u =
    let (m, e) =
      mul_loop_lem (u64 (x * 10 + c) / 2 ^ 32) xs (omega (arith, u.limbs))
        (record { limbs = u.limbs.1; trimmed = u.trimmed.1 }) in
    (
      record {
        limbs = (omega arith, m.limbs);
        trimmed = (omega (arith, e, u.trimmed, u.limbs), m.trimmed);
      },
      omega (arith, e, u.limbs),
    )

div_loop_lem :
    (xs : List ℕ)
    → IsLimbs xs
    → IsLimbs (divmod_u32_loop 10 xs).0
      × ((divmod_u32_loop 10 xs).1 < 10)
      × (10 * mag (divmod_u32_loop 10 xs).0 + (divmod_u32_loop 10 xs).1 ≡ mag xs)
unfolding divmod_u32_loop mag
div_loop_lem [] h = (tt, omega arith, omega arith)
div_loop_lem (x ∷ xs) h =
    let (l, r, e) = div_loop_lem xs h.1 in ((omega arith, l), omega arith, omega (arith, e, h))

-- The number that digits stand for, lowest first.
unfoldable pub low_value : List ℕ → ℕ
low_value [] = 0
low_value (r ∷ ds) = r + 10 * low_value ds

abbrev pub AreDigits : List ℕ → Type 0
AreDigits = All (λ r. r < 10)

abbrev pub Written : ℕ → Option (List ℕ) → Type 0
Written m out =
    (ds : List ℕ) × (out ≡ some ds) × AreDigits ds × (low_value ds ≡ m) × (0 < m → 0 < length ds)

pub digits_loop_lem :
    (f : ℕ) (n : Bool) (d : List ℕ)
    → IsMag d
    → mag d ≤ f
    → Written (mag d) (digits_loop f (record { neg = n; d = d }))
unfolding digits_loop divmod_u32 mag low_value
digits_loop_lem zero n [] m h = ([], refl, tt, refl, λ p. absurd (omega arith))
digits_loop_lem (suc f) n [] m h = ([], refl, tt, refl, λ p. absurd (omega arith))
digits_loop_lem zero n (x ∷ xs) m h = absurd (omega (arith, m.trimmed))
digits_loop_lem (suc f) n (x ∷ xs) m h =
    let q = (divmod_u32_loop 10 (x ∷ xs)).0 in
    let r = (divmod_u32_loop 10 (x ∷ xs)).1 in
    let (l, b, e) = div_loop_lem (x ∷ xs) m.limbs in
    let (w, v) = normalize_lem q l in
    let (ds, p, a, s, _) =
      digits_loop_lem f false (normalize q) w (omega (arith, e, v, h, m.trimmed)) in
    (u32 r ∷ ds, rw p, (omega arith, a), omega (arith, e, v, s, b), λ _. omega arith)
