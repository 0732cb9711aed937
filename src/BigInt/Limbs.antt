-- ===== src/BigInt/Limbs.antt =====
-- The number that limbs stand for, and the form that every operation keeps.
use zown.Prelude.{
  ℕ, ◌+◌, ◌-◌, ◌*◌, ◌/◌, ◌%◌, ◌^◌, ◌≤◌, ◌<◌, ◌≡◌, refl, List, [], ◌∷◌, All, arith, ◌==◌, ◌&&◌, ltb,
  ltb→lt, if◌then◌else◌, Bool-cases, inl, inr,
}
use zown.BigInt.{u64, is_empty, limb, others, normalize, add_loop, sub_loop, add_mag, sub_mag}

unfoldable pub mag : List ℕ → ℕ
mag [] = 0
mag (x ∷ xs) = x + 4294967296 * mag xs

abbrev pub IsLimbs : List ℕ → Type 0
IsLimbs = All (λ x. x < 4294967296)

-- No zero at the end: each tail that has a limb stands for a number above 0.
abbrev pub IsTrimmed : List ℕ → Type 0
IsTrimmed [] = Unit
IsTrimmed (x ∷ xs) = (0 < mag (x ∷ xs)) × IsTrimmed xs

pub record IsMag (d : List ℕ) : Type 0 where
  pub limbs : IsLimbs d
  pub trimmed : IsTrimmed d

-- The sum's limbs.
pub add_loop_lem :
    (c : ℕ) (xs ys : List ℕ)
    → c ≤ 1
    → IsLimbs xs
    → IsLimbs ys
    → IsLimbs (add_loop c xs ys) × (mag (add_loop c xs ys) ≡ mag xs + mag ys + c)
unfolding add_loop mag
add_loop_lem c [] [] h u v = ground arith
add_loop_lem c [] (y ∷ ys) h u v =
    let (l, e) = add_loop_lem ((0 + y + c) % 2 ^ 64 / 2 ^ 32) [] ys (omega arith) u v.1 in
    ((omega arith, l), omega (arith, e))
add_loop_lem c (x ∷ xs) [] h u v =
    let (l, e) = add_loop_lem ((x + 0 + c) % 2 ^ 64 / 2 ^ 32) xs [] (omega arith) u.1 v in
    ((omega arith, l), omega (arith, e))
add_loop_lem c (x ∷ xs) (y ∷ ys) h u v =
    let (l, e) = add_loop_lem ((x + y + c) % 2 ^ 64 / 2 ^ 32) xs ys (omega arith) u.1 v.1 in
    ((omega arith, l), omega (arith, e))

add_loop-IsTrimmed :
    (c : ℕ) (xs ys : List ℕ) → c ≤ 1 → IsMag xs → IsMag ys → IsTrimmed (add_loop c xs ys)
unfolding add_loop mag
add_loop-IsTrimmed c [] [] h u v = ground arith
add_loop-IsTrimmed c [] (y ∷ ys) h u v =
    let (l, e) = add_loop_lem c [] (y ∷ ys) h u.limbs v.limbs in
    (
      omega (arith, e, v.trimmed),
      add_loop-IsTrimmed (u64 (0 + y + c) / 2 ^ 32) [] ys (omega (arith, v.limbs)) u
          (record { limbs = v.limbs.1; trimmed = v.trimmed.1 }),
    )
add_loop-IsTrimmed c (x ∷ xs) [] h u v =
    let (l, e) = add_loop_lem c (x ∷ xs) [] h u.limbs v.limbs in
    (
      omega (arith, e, u.trimmed),
      add_loop-IsTrimmed (u64 (x + 0 + c) / 2 ^ 32) xs [] (omega (arith, u.limbs))
          (record { limbs = u.limbs.1; trimmed = u.trimmed.1 }) v,
    )
add_loop-IsTrimmed c (x ∷ xs) (y ∷ ys) h u v =
    let (l, e) = add_loop_lem c (x ∷ xs) (y ∷ ys) h u.limbs v.limbs in
    (
      omega (arith, e, u.trimmed),
      add_loop-IsTrimmed (u64 (x + y + c) / 2 ^ 32) xs ys (omega (arith, u.limbs, v.limbs))
          (record { limbs = u.limbs.1; trimmed = u.trimmed.1 })
          (record { limbs = v.limbs.1; trimmed = v.trimmed.1 }),
    )

-- `add_mag` adds.
pub add_mag_lem :
    (xs ys : List ℕ)
    → IsMag xs
    → IsMag ys
    → IsMag (add_mag xs ys) × (mag (add_mag xs ys) ≡ mag xs + mag ys)
unfolding add_mag
add_mag_lem xs ys u v =
    let (l, e) = add_loop_lem 0 xs ys (omega arith) u.limbs v.limbs in
    (record { limbs = l; trimmed = add_loop-IsTrimmed 0 xs ys (omega arith) u v }, omega (arith, e))

normalize-IsLimbs :
    (xs : List ℕ)
    → IsLimbs xs
    → IsLimbs (normalize xs) × IsTrimmed (normalize xs) × (mag (normalize xs) ≡ mag xs)
unfolding normalize mag
normalize-IsLimbs [] h = (tt, tt, refl)
normalize-IsLimbs (x ∷ xs) h = let (l, t, e) = normalize-IsLimbs xs h.1 in go (normalize xs) l t e
  where
    go :
        (r : List ℕ)
        → IsLimbs r
        → IsTrimmed r
        → mag r ≡ mag xs
        → let out = if x == 0 && is_empty r then [] else x ∷ r in
          IsLimbs out × IsTrimmed out × (mag out ≡ x + 4294967296 * mag xs)
    go [] l t e = ground arith
    go (y ∷ r) l t e = ground arith

pub normalize_lem :
    (xs : List ℕ) → IsLimbs xs → IsMag (normalize xs) × (mag (normalize xs) ≡ mag xs)
normalize_lem xs h =
    let (l, t, e) = normalize-IsLimbs xs h in (record { limbs = l; trimmed = t }, e)

limb_lem :
    (ys : List ℕ)
    → IsLimbs ys
    → (limb ys < 4294967296)
      × IsLimbs (others ys)
      × (mag ys ≡ limb ys + 4294967296 * mag (others ys))
unfolding mag
limb_lem [] v = (omega arith, tt, omega arith)
limb_lem (y ∷ ys) v = (v.0, v.1, refl)

-- The difference's limbs, where the second is no larger.
sub_loop_lem :
    (b : ℕ) (xs ys : List ℕ)
    → b ≤ 1
    → IsLimbs xs
    → IsLimbs ys
    → mag ys + b ≤ mag xs
    → IsLimbs (sub_loop b xs ys) × (mag (sub_loop b xs ys) + mag ys + b ≡ mag xs)
unfolding sub_loop mag
sub_loop_lem b [] ys h u v le = (tt, omega arith)
sub_loop_lem b (x ∷ xs) ys h u v le =
    let (v₀, v₁, e) = limb_lem ys v in
    elim (Bool-cases (ltb x (limb ys + b))) [
      | inl less ↦
          let below = ltb→lt _ _ less in
          let (l, q) = sub_loop_lem 1 xs (others ys) (omega arith) u.1 v₁ (omega arith) in
          rw less ((omega arith, l), omega arith)
      | inr more ↦
          let above : limb ys + b ≤ x = ground arith in
          let (l, q) = sub_loop_lem 0 xs (others ys) (omega arith) u.1 v₁ (omega arith) in
          rw more ((omega arith, l), omega arith)
    ]

-- `sub_mag` subtracts a number that is no larger.
pub sub_mag_lem :
    (xs ys : List ℕ)
    → IsMag xs
    → IsMag ys
    → mag ys ≤ mag xs
    → IsMag (sub_mag xs ys) × (mag (sub_mag xs ys) ≡ mag xs - mag ys)
unfolding sub_mag
sub_mag_lem xs ys u v le =
    let (l, e) = sub_loop_lem 0 xs ys (omega arith) u.limbs v.limbs (omega arith) in
    let (n, q) = normalize_lem (sub_loop 0 xs ys) l in (n, omega arith)
