-- ===== src/BigInt/Compare.antt =====
-- `cmp_mag` compares the numbers.
use Prim.Native.Nat.{compare, lt, eq, gt}
use zown.Prelude.{
  ℕ, zero, suc, ◌+◌, ◌*◌, ◌/◌, ◌≤◌, ◌<◌, ◌≡◌, ◌⊎◌, refl, List, [], ◌∷◌, length, arith, ltb, ltb→lt,
  Bool-cases, inl, inr, ap, sym, ◌∙◌,
}
use zown.BigInt.{width, last, bit_len, cmp_limbs, cmp_mag}
use zown.BigInt.Limbs.{mag, IsLimbs, IsTrimmed, IsMag}

compare-eq : (m n : ℕ) → m ≡ n → compare m n ≡ eq
compare-eq m n h = ground arith

compare-lt : (m n : ℕ) → m < n → compare m n ≡ lt
compare-lt m n h = ground arith

compare-gt : (m n : ℕ) → n < m → compare m n ≡ gt
compare-gt m n h = ground arith

width_mono : (f x y : ℕ) → x ≤ y → width f x ≤ width f y
unfolding width
width_mono zero x y h = omega arith
width_mono (suc f) x y h = ground (arith, width_mono f (x / 2) (y / 2))

pub width-le : (f x : ℕ) → width f x ≤ f
unfolding width
width-le zero x = omega arith
width-le (suc f) x = ground (arith, width-le f (x / 2))

width_bounds : (f x : ℕ) → 0 < x → (1 ≤ width (suc f) x) × (width (suc f) x ≤ suc f)
unfolding width
width_bounds f x h = ground (arith, width-le f (x / 2))

-- Limbs that are more are a larger number.
longer : (xs ys : List ℕ) → IsLimbs xs → IsTrimmed ys → length xs < length ys → mag xs < mag ys
unfolding mag
longer [] (y ∷ ys) u v h = v.0
longer [] [] u v h = absurd (omega arith)
longer (x ∷ xs) [] u v h = absurd (omega arith)
longer (x ∷ xs) (y ∷ ys) u v h = omega (arith, longer xs ys u.1 v.1)

last_smaller :
    (x y : ℕ) (xs ys : List ℕ)
    → IsLimbs (x ∷ xs)
    → length xs ≡ length ys
    → last x xs < last y ys
    → mag (x ∷ xs) < mag (y ∷ ys)
unfolding mag
last_smaller x y [] [] u e h = omega arith
last_smaller x y [] (y' ∷ ys) u e h = absurd (omega arith)
last_smaller x y (x' ∷ xs) [] u e h = absurd (omega arith)
last_smaller x y (x' ∷ xs) (y' ∷ ys) u e h =
    omega (arith, last_smaller x' y' xs ys u.1 (omega arith) h)

last_pos : (x : ℕ) (xs : List ℕ) → IsTrimmed (x ∷ xs) → 0 < last x xs
unfolding mag
last_pos x [] h = omega arith
last_pos x (y ∷ ys) h = last_pos y ys h.1

last-lt : (x : ℕ) (xs : List ℕ) → IsLimbs (x ∷ xs) → last x xs < 4294967296
last-lt x [] h = h.0
last-lt x (y ∷ ys) h = last-lt y ys h.1

cmp_limbs_lem :
    (xs ys : List ℕ)
    → IsLimbs xs
    → IsLimbs ys
    → length xs ≡ length ys
    → cmp_limbs xs ys ≡ compare (mag xs) (mag ys)
unfolding cmp_limbs mag
cmp_limbs_lem [] [] u v e = ground arith
cmp_limbs_lem [] (y ∷ ys) u v e = absurd (omega arith)
cmp_limbs_lem (x ∷ xs) [] u v e = absurd (omega arith)
cmp_limbs_lem (x ∷ xs) (y ∷ ys) u v e = ground (arith, cmp_limbs_lem xs ys)

-- A length whose count of bits is a `u32`.
abbrev pub IsShort : List ℕ → Type 0
IsShort xs = length xs < 134217728

pub bit_len_lem :
    (x : ℕ) (xs : List ℕ)
    → IsShort (x ∷ xs)
    → bit_len (x ∷ xs) ≡ length xs * 32 + width 32 (last x xs)
unfolding bit_len
bit_len_lem x xs h = omega (arith, width-le 32 (last x xs))

abbrev size : ℕ → List ℕ → ℕ
size x xs = length xs * 32 + width 32 (last x xs)

order : (m n : ℕ) → (m < n) ⊎ ((n < m) ⊎ (m ≡ n))
order m n = omega arith

bit_len_pos : (x : ℕ) (xs : List ℕ) → IsMag (x ∷ xs) → IsShort (x ∷ xs) → 0 < bit_len (x ∷ xs)
bit_len_pos x xs u s =
    omega (arith, bit_len_lem x xs s, (width_bounds 31 (last x xs) (last_pos x xs u.trimmed)).0)

smaller :
    (x y : ℕ) (xs ys : List ℕ)
    → IsMag (x ∷ xs)
    → IsMag (y ∷ ys)
    → length xs * 32 + width 32 (last x xs) < length ys * 32 + width 32 (last y ys)
    → mag (x ∷ xs) < mag (y ∷ ys)
smaller x y xs ys u v h =
    let (low, _) = width_bounds 31 (last x xs) (last_pos x xs u.trimmed) in
    let (_, high) = width_bounds 31 (last y ys) (last_pos y ys v.trimmed) in
    elim (Bool-cases (ltb (length xs) (length ys))) [
      | inl less ↦ longer (x ∷ xs) (y ∷ ys) u.limbs v.trimmed (ground arith)
      | inr other ↦
          let same : length xs ≡ length ys = ground (arith, low, high) in
          last_smaller x y xs ys u.limbs same (elim (Bool-cases (ltb (last x xs) (last y ys))) [
            | inl less ↦ ltb→lt _ _ less
            | inr more ↦
                absurd (omega (arith, width_mono 32 (last y ys) (last x xs) (ground arith)))
          ])
    ]

cmp_mag-lt : (xs ys : List ℕ) → bit_len xs < bit_len ys → cmp_mag xs ys ≡ lt
unfolding cmp_mag
cmp_mag-lt xs ys h = ground arith

cmp_mag-gt : (xs ys : List ℕ) → bit_len ys < bit_len xs → cmp_mag xs ys ≡ gt
unfolding cmp_mag
cmp_mag-gt xs ys h = ground arith

cmp_mag-eq : (xs ys : List ℕ) → bit_len xs ≡ bit_len ys → cmp_mag xs ys ≡ cmp_limbs xs ys
unfolding cmp_mag
cmp_mag-eq xs ys h = ground arith

same_length :
    (x y : ℕ) (xs ys : List ℕ)
    → IsMag (x ∷ xs)
    → IsMag (y ∷ ys)
    → size x xs ≡ size y ys
    → length xs ≡ length ys
same_length x y xs ys u v h = omega (
  arith,
  width_bounds 31 (last x xs) (last_pos x xs u.trimmed),
  width_bounds 31 (last y ys) (last_pos y ys v.trimmed),
)

-- `cmp_mag` compares the two numbers.
pub cmp_mag_lem :
    (xs ys : List ℕ)
    → IsMag xs
    → IsMag ys
    → IsShort xs
    → IsShort ys
    → cmp_mag xs ys ≡ compare (mag xs) (mag ys)
cmp_mag_lem [] [] u v s t = unfold cmp_mag bit_len mag cmp_limbs in refl
cmp_mag_lem [] (y ∷ ys) u v s t =
    let b = bit_len_pos y ys v t in
    cmp_mag-lt [] (y ∷ ys) (unfold bit_len in b)
    ∙ sym (compare-lt (mag []) (mag (y ∷ ys)) (unfold mag in v.trimmed.0))
cmp_mag_lem (x ∷ xs) [] u v s t =
    let b = bit_len_pos x xs u s in
    cmp_mag-gt (x ∷ xs) [] (unfold bit_len in b)
    ∙ sym (compare-gt (mag (x ∷ xs)) (mag []) (unfold mag in u.trimmed.0))
cmp_mag_lem (x ∷ xs) (y ∷ ys) u v s t =
    let p = bit_len_lem x xs s in
    let q = bit_len_lem y ys t in
    elim (order (size x xs) (size y ys)) [
      | inl less ↦
          cmp_mag-lt (x ∷ xs) (y ∷ ys) (omega (arith, p, q))
          ∙ sym (compare-lt _ _ (smaller x y xs ys u v less))
      | inr (inl more) ↦
          cmp_mag-gt (x ∷ xs) (y ∷ ys) (omega (arith, p, q))
          ∙ sym (compare-gt _ _ (smaller y x ys xs v u more))
      | inr (inr same) ↦
          cmp_mag-eq (x ∷ xs) (y ∷ ys) (omega (arith, p, q))
          ∙ cmp_limbs_lem (x ∷ xs) (y ∷ ys) u.limbs v.limbs
              (ap suc (same_length x y xs ys u v same))
    ]
