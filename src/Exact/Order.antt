-- ===== src/Exact/Order.antt =====
-- The order of decimals: `dec_cmp` and `dec_eq`.
use Prim.Native.Nat.{compare, Ordering}
use native.Mathlib.Nat.{mul-lt-mul_of_pos_right, mul_assoc, pow-suc}
use zown.Prelude.{
  ℕ, zero, suc, ◌+◌, ◌-◌, ◌*◌, ◌^◌, ◌<◌, ◌≡◌, refl, ap, sym, ◌∙◌, arith, ltb, ltb→lt, Bool-cases,
  inl, inr,
}
use zown.Prelude.Int.{ℤ, pos, negsuc, pos_part, neg_part, eq_of_parts, ◌*ℤ◌}
use zown.Prelude.Outcome.{ok}
use zown.BigInt.Signed.{compare_ℤ}
use zown.Exact.{Decimal, max, is_eq, dec_eq, dec_cmp}
use zown.Exact.Checked.{IsDecimal}
use zown.Exact.Scale.{lifted, both}

compare-mul : (m n k : ℕ) → 0 < k → compare (m * k) (n * k) ≡ compare m n
compare-mul m n k h = elim (Bool-cases (ltb m n)) [
  | inl t ↦ let p : m * k < n * k = mul-lt-mul_of_pos_right (ltb→lt m n t) h in ground arith
  | inr f ↦ elim (Bool-cases (ltb n m)) [
    | inl t ↦ let p : n * k < m * k = mul-lt-mul_of_pos_right (ltb→lt n m t) h in ground arith
    | inr g ↦ let same : m ≡ n = ground arith in rw same (ground arith)
  ]
]

parts-mul :
    (i : ℤ) (k : ℕ)
    → (pos_part (i *ℤ pos k) ≡ pos_part i * k) × (neg_part (i *ℤ pos k) ≡ neg_part i * k)
unfolding ◌*ℤ◌
parts-mul (pos n) k = ground arith
parts-mul (negsuc n) k = ground arith

-- The order of the numbers that two decimals stand for.
abbrev pub order : Decimal → Decimal → Ordering
order a b = compare_ℤ (a.coeff *ℤ pos (10 ^ b.scale)) (b.coeff *ℤ pos (10 ^ a.scale))

compare_ℤ-mul : (i j : ℤ) (k : ℕ) → 0 < k → compare_ℤ (i *ℤ pos k) (j *ℤ pos k) ≡ compare_ℤ i j
compare_ℤ-mul i j k h =
    let (p, q) = parts-mul i k in
    let (r, t) = parts-mul j k in
    let left : pos_part i * k + neg_part j * k ≡ (pos_part i + neg_part j) * k = omega arith in
    let right : pos_part j * k + neg_part i * k ≡ (pos_part j + neg_part i) * k = omega arith in
    rw (p, q, r, t, left, right)
      (compare-mul (pos_part i + neg_part j) (pos_part j + neg_part i) k h)

ten_pow_add : (i j : ℕ) → 10 ^ (i + j) ≡ 10 ^ i * 10 ^ j
ten_pow_add i zero = let same : i + 0 ≡ i = omega arith in rw same (omega arith)
ten_pow_add i (suc j) =
    let next : i + suc j ≡ suc (i + j) = omega arith in
    ap (λ k. 10 ^ k) next ∙ pow-suc 10 (i + j) ∙ rw (ten_pow_add i j, pow-suc 10 j) (omega arith)

ten_pow_pos : (n : ℕ) → 0 < 10 ^ n
ten_pow_pos zero = omega arith
ten_pow_pos (suc n) = omega (arith, ten_pow_pos n, pow-suc 10 n)

times_assoc : (i : ℤ) (m n : ℕ) → i *ℤ pos m *ℤ pos n ≡ i *ℤ pos (m * n)
times_assoc i m n =
    let (p, q) = parts-mul i m in
    let (r, t) = parts-mul (i *ℤ pos m) n in
    let (x, y) = parts-mul i (m * n) in
    eq_of_parts _ _ (
      rw (r, t, x, y, p, q) (omega (arith, mul_assoc (pos_part i) m n, mul_assoc (neg_part i) m n)))

-- lifted further, to the sum of the scales less the smaller
lifted-mul :
    (a : Decimal) (s t n : ℕ)
    → (s - a.scale) + t ≡ n
    → lifted a s *ℤ pos (10 ^ t) ≡ a.coeff *ℤ pos (10 ^ n)
lifted-mul a s t n e =
    times_assoc a.coeff (10 ^ (s - a.scale)) (10 ^ t)
    ∙ ap (λ k. a.coeff *ℤ pos k) (sym (ten_pow_add (s - a.scale) t) ∙ ap (λ k. 10 ^ k) e)

lifted-order :
    (a b : Decimal) (s : ℕ)
    → IsDecimal a
    → IsDecimal b
    → s ≡ max a.scale b.scale
    → compare_ℤ (lifted a s) (lifted b s) ≡ order a b
lifted-order a b s u v e =
    let t = a.scale + b.scale - s in
    sym (compare_ℤ-mul (lifted a s) (lifted b s) (10 ^ t) (ten_pow_pos t))
    ∙ rw (lifted-mul a s t b.scale (ground arith), lifted-mul b s t a.scale (ground arith)) refl

-- Of decimals with coefficients in `i64` and scales up to 18, `dec_cmp` is the order of the numbers
-- that they stand for, with no wrap-around and no index out of range.
pub dec_cmp_lem : (a b : Decimal) → IsDecimal a → IsDecimal b → dec_cmp a b ≡ ok (order a b)
unfolding dec_cmp
dec_cmp_lem a b u v = both a b u v compare_ℤ ∙ ap ok (lifted-order a b _ u v refl)

-- Of decimals with coefficients in `i64` and scales up to 18, `dec_eq` tells whether they stand for
-- the same number.
pub dec_eq_lem : (a b : Decimal) → IsDecimal a → IsDecimal b → dec_eq a b ≡ ok (is_eq (order a b))
unfolding dec_eq
dec_eq_lem a b u v =
    both a b u v (λ x y. is_eq (compare_ℤ x y))
    ∙ ap (λ o. ok (is_eq o)) (lifted-order a b _ u v refl)
