-- ===== src/Exact/Scale.antt =====
-- Decimals of two scales: `align` and `dec_add`.
use native.Mathlib.Nat.{mul-le-mul, mul_assoc, pow-le-pow_right, pow-suc}
use mathlib.Core.Path.{subst}
use zown.Prelude.{
  ℕ, zero, suc, ◌-◌, ◌*◌, ◌^◌, ◌≤◌, ◌<◌, ◌≡◌, refl, ap, sym, ◌∙◌, Bool, true, false, ◌&&◌, List, [],
  ◌∷◌, some, get_elem?, length, arith, ltb, ◌==◌, Text, Bool-cases, inl, inr,
}
use zown.Prelude.Int.{ℤ, pos, negsuc, ◌*ℤ◌}
use zown.Prelude.Outcome.{Outcome, ok, ◌>>=◌}
use zown.BigInt.Word.{fits_i64}
use zown.Exact.{Fault, Decimal, i128, powers, indexed, pow10, max, grown, lift, align, dec_add}
use zown.Exact.Range.{magnitude, magnitude-mul, fits-magnitude, i128_small}
use zown.Exact.Checked.{
  Checked, exact, Checked-bind, Checked-map, fit-Checked, fit_exact-Checked, Checked-on, Fits,
  IsDecimal, total, total_small,
}

-- The entries are the powers of 10 from `p` on.
abbrev IsTable : ℕ → List ℕ → Type 0
IsTable p [] = Unit
IsTable p (x ∷ xs) = (x ≡ p) × IsTable (p * 10) xs

table_lem :
    (p : ℕ) (xs : List ℕ) (k : ℕ)
    → IsTable p xs
    → k < length xs
    → get_elem? xs k ≡ some (p * 10 ^ k)
table_lem p [] k t h = absurd (omega arith)
table_lem p (x ∷ xs) zero t h = ap some (omega (arith, t.0))
table_lem p (x ∷ xs) (suc k) t h =
    table_lem (p * 10) xs k t.1 (omega arith)
    ∙ ap some (mul_assoc p 10 (10 ^ k) ∙ ap (λ q. p * q) next)
  where
    next : 10 * 10 ^ k ≡ 10 ^ suc k
    next = omega (arith, pow-suc 10 k)

pow10_lem : (k : ℕ) → k ≤ 18 → pow10 k ≡ ok (pos (10 ^ k))
unfolding pow10
pow10_lem k h =
    ap indexed (table_lem 1 powers k (omega arith) (omega arith))
    ∙ ap (λ p. ok (pos p)) (omega arith)

-- The coefficient of a decimal at a scale no smaller than its own.
abbrev pub lifted : Decimal → ℕ → ℤ
lifted a s = a.coeff *ℤ pos (10 ^ (s - a.scale))

lifted_small :
    (a : Decimal) (s : ℕ)
    → IsDecimal a
    → s ≤ 18
    → magnitude (lifted a s) ≤ 9223372036854775808000000000000000000
lifted_small a s u h =
    let pow : 10 ^ (s - a.scale) ≤ 10 ^ 18 =
      pow-le-pow_right {n = 10} (omega arith) {i = s - a.scale} {j = 18} (omega arith) in
    let le : magnitude a.coeff * 10 ^ (s - a.scale) ≤ 2 ^ 63 * 10 ^ 18 =
      mul-le-mul (fits-magnitude a.coeff u.coeff) pow in
    omega (arith, le, magnitude-mul a.coeff (pos (10 ^ (s - a.scale))))

grown_lem : (a : Decimal) (s : ℕ) → IsDecimal a → s ≤ 18 → grown a s ≡ ok (lifted a s)
unfolding grown
grown_lem a s u h =
    ap (λ m. m >>= λ p. ok (i128 (a.coeff *ℤ p))) (pow10_lem (s - a.scale) (omega arith))
    ∙ ap ok (i128_small (lifted a s) (omega (arith, lifted_small a s u h)))

lifted_self : (a : Decimal) (s : ℕ) → s ≤ a.scale → lifted a s ≡ a.coeff
unfolding ◌*ℤ◌
lifted_self a s h =
    let none_more : s - a.scale ≡ 0 = omega arith in
    let one : 10 ^ (s - a.scale) ≡ 1 = ap (λ k. 10 ^ k) none_more in rw one (times_one a.coeff)
  where
    times_one : (c : ℤ) → c *ℤ pos 1 ≡ c
    times_one (pos n) = ground arith
    times_one (negsuc n) = ground arith

module _ (a b : Decimal) (u : IsDecimal a) (v : IsDecimal b) where
  abbrev top : ℕ
  top = max a.scale b.scale

  top_bounds : (a.scale ≤ top) × (b.scale ≤ top) × (top ≤ 18)
  top_bounds = let p = u.scale in let q = v.scale in ground arith

  pub both :
      {B : Type 0} (k : ℤ → ℤ → B)
      → (do x ← grown a top; y ← grown b top; ok (k x y)) ≡ ok (k (lifted a top) (lifted b top))
  both k = rw (grown_lem a top u top_bounds.2, grown_lem b top v top_bounds.2) refl

abbrev pub dec : ℤ → ℕ → Decimal
dec c s = record { coeff = c; scale = s }

lift-Checked :
    (w : Text) (a b : Decimal)
    → IsDecimal a
    → IsDecimal b
    → Checked (fits_i64 (lifted a b.scale)) (dec (lifted a b.scale) b.scale) (lift w a b)
lift-Checked w a b u v =
    rw (grown_lem a b.scale u v.scale)
      (Checked-map (λ c. dec c b.scale) (fit_exact-Checked w (lifted a b.scale)))

-- a decimal that is at the scale already
self_eq : (a : Decimal) (s : ℕ) → a.scale ≡ s → dec (lifted a s) s ≡ a
self_eq a s e = ap (λ c. dec c s) (lifted_self a s (omega arith)) ∙ ap (λ t. dec a.coeff t) (sym e)

self_Fits : (a : Decimal) (s : ℕ) → IsDecimal a → a.scale ≡ s → Fits (lifted a s)
self_Fits a s u e = ap fits_i64 (lifted_self a s (omega arith)) ∙ u.coeff

and_comm : (x y : Bool) → (x && y) ≡ (y && x)
and_comm true true = refl
and_comm true false = refl
and_comm false true = refl
and_comm false false = refl

and_true : (x y : Bool) → x ≡ true → y ≡ true → true ≡ (x && y)
and_true true true h k = refl
and_true true false h k = cc
and_true false y h k = cc

-- both decimals at the scale `s`
abbrev Aligned : Decimal → Decimal → Outcome Fault (Decimal × Decimal) → ℕ → Type 0
Aligned a b m s =
    Checked (fits_i64 (lifted a s) && fits_i64 (lifted b s))
      (dec (lifted a s) s, dec (lifted b s) s) m

align-Checked :
    (w : Text) (a b : Decimal) (s : ℕ)
    → IsDecimal a
    → IsDecimal b
    → s ≡ max a.scale b.scale
    → Checked
        (fits_i64 (lifted a s) && fits_i64 (lifted b s))
        (dec (lifted a s) s, dec (lifted b s) s)
        (align w a b)
unfolding align
align-Checked w a b s u v e = elim (Bool-cases (a.scale == b.scale)) [
  | inl t ↦
      let p : a.scale ≡ s = ground arith in
      let q : b.scale ≡ s = ground arith in
      rw t (
        Checked-on (and_true _ _ (self_Fits a s u p) (self_Fits b s v q))
          (ap (λ x. (x, b)) (sym (self_eq a s p))
            ∙ ap (λ y. (dec (lifted a s) s, y)) (sym (self_eq b s q)))
          (exact refl))
  | inr f ↦ elim (Bool-cases (ltb a.scale b.scale)) [
    | inl t ↦
        let q : b.scale ≡ s = ground arith in
        rw (f, t)
          (subst (Aligned a b (do l ← lift w a b; ok (l, b))) q (
            Checked-on refl
              (ap (λ y. (dec (lifted a b.scale) b.scale, y)) (sym (self_eq b b.scale refl)))
              (Checked-bind (λ l. ok (l, b)) (lift-Checked w a b u v)
                (exact (self_Fits b b.scale v refl)))))
    | inr n ↦
        let q : a.scale ≡ s = ground arith in
        rw (f, n)
          (subst (Aligned a b (do l ← lift w b a; ok (a, l))) q (
            Checked-on (and_comm (fits_i64 (lifted b a.scale)) (fits_i64 (lifted a a.scale)))
              (ap (λ y. (y, dec (lifted b a.scale) a.scale)) (sym (self_eq a a.scale refl)))
              (Checked-bind (λ l. ok (a, l)) (lift-Checked w b a v u)
                (exact (self_Fits a a.scale u refl)))))
  ]
]

-- Of decimals with coefficients in `i64` and scales up to 18, `dec_add` gives the exact sum or
-- difference at the larger scale if the lifted coefficients and the result fit, and a fault
-- otherwise.
pub dec_add-Checked :
    (w : Text) (a b : Decimal) (sub : Bool)
    → IsDecimal a
    → IsDecimal b
    → let s = max a.scale b.scale in
      let c = total sub (lifted a s) (lifted b s) in
      Checked
        ((fits_i64 (lifted a s) && fits_i64 (lifted b s)) && fits_i64 c)
        (dec c s)
        (dec_add w a b sub)
unfolding dec_add
dec_add-Checked w a b sub u v =
    let s = max a.scale b.scale in
    let c = total sub (lifted a s) (lifted b s) in
    let small = lifted_small a s u (top_bounds a b u v).2 in
    let small₁ = lifted_small b s v (top_bounds a b u v).2 in
    Checked-bind _ (align-Checked w a b s u v refl) (
      Checked-map (λ c. dec c s)
        (fit-Checked w c (omega (arith, total_small sub (lifted a s) (lifted b s), small, small₁))))
