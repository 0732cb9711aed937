-- ===== src/BigInt/Product/Rows.antt =====
-- The limbs that the loops of `mul` give.
use zown.Prelude.{
  ℕ, zero, suc, ◌+◌, ◌*◌, ◌/◌, ◌^◌, ◌≤◌, ◌<◌, ◌≡◌, refl, List, [], ◌∷◌, length, arith, ◌==◌,
  Bool-cases, inl, inr, ap, ◌∙◌, Option, some, none,
}
use native.Mathlib.Nat.{mul-le-mul}
use zown.BigInt.{u32}
use zown.BigInt.Limbs.{mag, IsLimbs}
use zown.BigInt.Product.{u128, behind, push_carry, carry_loop, mul_row, mul_rows}

-- Limbs for a number, at least `n` of them.
abbrev pub Makes : ℕ → ℕ → Option (List ℕ) → Type 0
Makes n m out = (ds : List ℕ) × (out ≡ some ds) × IsLimbs ds × (mag ds ≡ m) × (n ≤ length ds)

behind-Makes :
    (n m k x : ℕ) (out : Option (List ℕ))
    → x < 4294967296
    → x + 4294967296 * m ≡ k
    → Makes n m out
    → Makes (suc n) k (behind x out)
unfolding mag
behind-Makes n m k x out h q (ds, p, l, e, b) =
    (x ∷ ds, rw p refl, (h, l), omega (arith, e, q), omega (arith, b))

push_carry_zero : (f : ℕ) → push_carry f 0 ≡ some []
unfolding push_carry
push_carry_zero zero = refl
push_carry_zero (suc f) = refl

push_carry_lem : (f c : ℕ) → c < 4294967296 → Makes 0 c (push_carry (suc f) c)
unfolding push_carry mag
push_carry_lem f c h = elim (Bool-cases (c == 0)) [
  | inl z ↦ rw z ([], refl, tt, ground arith, omega arith)
  | inr p ↦
      let small : u128 (0 + c) / 2 ^ 32 ≡ 0 = omega arith in
      let done : push_carry f (u128 (0 + c) / 2 ^ 32) ≡ some [] =
        ap (push_carry f) small ∙ push_carry_zero f in
      rw (p, done) (u32 (0 + c) ∷ [], refl, (omega arith, tt), omega arith, omega arith)
]

carry_loop_lem :
    (c : ℕ) (ds : List ℕ)
    → c < 4294967296
    → IsLimbs ds
    → Makes (length ds) (mag ds + c) (carry_loop c ds)
unfolding carry_loop mag
carry_loop_lem c [] h u = let same : 0 + c ≡ c = omega arith in rw same (push_carry_lem 3 c h)
carry_loop_lem c (d ∷ ds) h u = elim (Bool-cases (c == 0)) [
  | inl z ↦ rw z (d ∷ ds, refl, u, ground arith, omega arith)
  | inr p ↦ rw p (
      behind-Makes (length ds) (mag ds + u128 (d + c) / 2 ^ 32) _ (u32 (u128 (d + c))) _
        (omega arith) (omega (arith, u.0))
        (carry_loop_lem (u128 (d + c) / 2 ^ 32) ds (omega (arith, u.0)) u.1))
]

mul_bound : (x y : ℕ) → x < 4294967296 → y < 4294967296 → x * y ≤ 18446744065119617025
mul_bound x y h k =
    let le : x * y ≤ 4294967295 * 4294967295 =
      mul-le-mul {n₂ = 4294967295} {m₂ = 4294967295} (omega arith) (omega arith) in
    le

mul_row_lem :
    (x c : ℕ) (ys ds : List ℕ)
    → x < 4294967296
    → c < 4294967296
    → IsLimbs ys
    → IsLimbs ds
    → length ys ≤ length ds
    → Makes (length ds) (mag ds + x * mag ys + c) (mul_row x c ys ds)
unfolding mul_row mag
mul_row_lem x c [] ds h k u v le =
    let same : mag ds + x * 0 + c ≡ mag ds + c = omega arith in rw same (carry_loop_lem c ds k v)
mul_row_lem x c (y ∷ ys) [] h k u v le = absurd (omega arith)
mul_row_lem x c (y ∷ ys) (d ∷ ds) h k u v le =
    let b = mul_bound x y h u.0 in
    let next = u128 (d + x * y + c) / 2 ^ 32 in
    behind-Makes (length ds) (mag ds + x * mag ys + next) _ (u32 (u128 (d + x * y + c))) _
      (omega arith) (omega (arith, b, v.0, k))
      (mul_row_lem x next ys ds h (omega (arith, b, v.0, k)) u.1 v.1 (omega arith))

pub mul_rows_lem :
    (xs ys ds : List ℕ)
    → IsLimbs xs
    → IsLimbs ys
    → IsLimbs ds
    → length xs + length ys ≤ length ds
    → Makes 0 (mag ds + mag xs * mag ys) (mul_rows xs ys ds)
unfolding mul_rows mag
mul_rows_lem [] ys ds t u v le = (ds, refl, v, omega arith, omega arith)
mul_rows_lem (x ∷ xs) ys ds t u v le =
    let (es, p, l, e, b) = mul_row_lem x 0 ys ds t.0 (omega arith) u v (omega arith) in
    rw (mul_rows, p)
      (below es l (omega (arith, e)) (omega (arith, b)) (λ fs m h. mul_rows_lem xs ys fs t.1 u m h))
  where
    below :
        (es : List ℕ)
        → IsLimbs es
        → mag es ≡ mag ds + x * mag ys
        → suc (length xs + length ys) ≤ length es
        → ((fs : List ℕ)
            → IsLimbs fs
            → length xs + length ys ≤ length fs
            → Makes 0 (mag fs + mag xs * mag ys) (mul_rows xs ys fs))
        → Makes 0 (mag ds + (x + 4294967296 * mag xs) * mag ys) (elim (some es) [
          | none ↦ none
          | some [] ↦ mul_rows xs ys []
          | some (e ∷ es) ↦ behind e (mul_rows xs ys es)
        ])
    below [] l e b next = absurd (omega (arith, b))
    below (d ∷ es) l e b next =
        let (out, p, w, q, _) =
          behind-Makes 0 (mag es + mag xs * mag ys) _ d _ l.0 (omega (arith, e))
            (next es l.1 (omega (arith, b))) in
        (out, p, w, q, omega arith)
