-- ===== src/Exact/Checked.antt =====
-- What the checked operations give: the exact result if it fits, and a fault otherwise.
use native.Mathlib.Nat.{mul-le-mul}
use mathlib.Core.Path.{subst}
use zown.Prelude.{
  ◌+◌, ◌*◌, ◌^◌, ◌≤◌, ◌≡◌, refl, ◌∙◌, Bool, true, false, not, ◌&&◌, arith, ltb, if◌then◌else◌, Text,
  Bool-cases, inl, inr,
}
use zown.Prelude.Int.{ℤ, pos, ◌+ℤ◌, ◌-ℤ◌, ◌*ℤ◌}
use zown.Prelude.Outcome.{Outcome, ok, err, ◌>>=◌}
use zown.BigInt.Word.{fits_i64}
use zown.Exact.{Fault, Decimal, scale_max, i128, fit, dec_mul, dec_neg, cx_add, cx_mul, cx_neg}
use zown.Exact.Range.{
  magnitude, IsSmall, magnitude-mul, magnitude-add, magnitude-sub, fits-magnitude, i128_small,
  fits-i128,
}

-- If `fits` the run gives the value, and otherwise a fault.
pub data Checked {ℓ} {A : Type ℓ} (fits : Bool) (a : A) : Outcome Fault A → Type ℓ where
  exact : fits ≡ true → Checked fits a (ok a)
  fault : (e : Fault) → fits ≡ false → Checked fits a (err e)

and_true : (a b : Bool) → a ≡ true → b ≡ true → (a && b) ≡ true
and_true true b h k = k
and_true false b h k = h

and_false_left : (a b : Bool) → a ≡ false → (a && b) ≡ false
and_false_left true b h = cc
and_false_left false b h = refl

and_false_right : (a b : Bool) → b ≡ false → (a && b) ≡ false
and_false_right true b h = h
and_false_right false b h = refl

exact_and {κ} :
    {B : Type κ} {f g : Bool} {b : B} {o : Outcome Fault B}
    → f ≡ true
    → Checked g b o
    → Checked (f && g) b o
exact_and {f} {g} h (exact q) = exact (and_true f g h q)
exact_and {f} {g} h (fault e q) = fault e (and_false_right f g q)

module _ {ℓ κ} {A : Type ℓ} {B : Type κ} where
  pub Checked-bind :
      {f g : Bool} {a : A} {b : B} {m : Outcome Fault A} (k : A → Outcome Fault B)
      → Checked f a m
      → Checked g b (k a)
      → Checked (f && g) b (m >>= k)
  Checked-bind k (exact h) c = exact_and h c
  Checked-bind {f} {g} k (fault e h) c = fault e (and_false_left f g h)

pub Checked-map {ℓ κ} :
    {A : Type ℓ} {B : Type κ} {f : Bool} {a : A} {m : Outcome Fault A} (k : A → B)
    → Checked f a m
    → Checked f (k a) (m >>= λ x. ok (k x))
Checked-map k (exact h) = exact h
Checked-map k (fault e h) = fault e h

-- the same of the flag and of the value
pub Checked-on {ℓ} :
    {A : Type ℓ} {f g : Bool} {a b : A} {m : Outcome Fault A}
    → f ≡ g
    → a ≡ b
    → Checked f a m
    → Checked g b m
Checked-on {f = f} {b = b} {m = m} p q c =
    subst (λ g. Checked g b m) p (subst (λ x. Checked f x m) q c)

pub fit_exact-Checked : (w : Text) (n : ℤ) → Checked (fits_i64 n) n (fit w n)
unfolding fit
fit_exact-Checked w n = elim (Bool-cases (fits_i64 n)) [
  | inl t ↦ rw t (exact refl)
  | inr f ↦ rw f (fault _ refl)
]

pub fit-Checked : (w : Text) (n : ℤ) → IsSmall n → Checked (fits_i64 n) n (fit w (i128 n))
unfolding fit
fit-Checked w n h = elim (Bool-cases (fits_i64 n)) [
  | inl t ↦
      let le = fits-magnitude n t in
      let same = i128_small n (omega (arith, le)) in rw (same, t) (exact refl)
  | inr f ↦ rw (fits-i128 n h ∙ f) (fault _ f)
]

abbrev pub Fits : ℤ → Type 0
Fits a = fits_i64 a ≡ true

product_small : (a b : ℤ) → Fits a → Fits b → magnitude (a *ℤ b) ≤ 2 ^ 126
product_small a b h k =
    let le : magnitude a * magnitude b ≤ 2 ^ 63 * 2 ^ 63 =
      mul-le-mul (fits-magnitude a h) (fits-magnitude b k) in
    omega (arith, le, magnitude-mul a b)

abbrev pub total : Bool → ℤ → ℤ → ℤ
total sub a b = if sub then a -ℤ b else a +ℤ b

pub total_small : (sub : Bool) (a b : ℤ) → magnitude (total sub a b) ≤ magnitude a + magnitude b
total_small true a b = magnitude-sub a b
total_small false a b = magnitude-add a b

total-Fits-IsSmall : (sub : Bool) (a b : ℤ) → Fits a → Fits b → IsSmall (total sub a b)
total-Fits-IsSmall sub a b h k =
    omega (arith, total_small sub a b, fits-magnitude a h, fits-magnitude b k)

-- `cx_add` adds or subtracts parts that fit: it gives the exact result if both its parts fit, and a
-- fault otherwise.
pub cx_add-Checked :
    (w : Text) (a b : ℤ × ℤ) (sub : Bool)
    → Fits a.0
    → Fits a.1
    → Fits b.0
    → Fits b.1
    → Checked
        (fits_i64 (total sub a.0 b.0) && fits_i64 (total sub a.1 b.1))
        (total sub a.0 b.0, total sub a.1 b.1)
        (cx_add w a b sub)
unfolding cx_add
cx_add-Checked w a b sub h k u v =
    Checked-bind _ (fit-Checked w (total sub a.0 b.0) (total-Fits-IsSmall sub a.0 b.0 h u)) (
      Checked-map (λ im. (total sub a.0 b.0, im))
        (fit-Checked w (total sub a.1 b.1) (total-Fits-IsSmall sub a.1 b.1 k v)))

-- `cx_mul` multiplies Gaussian integers whose parts fit: it gives the exact product if both its
-- parts fit, and a fault otherwise.
pub cx_mul-Checked :
    (w : Text) (a b : ℤ × ℤ)
    → Fits a.0
    → Fits a.1
    → Fits b.0
    → Fits b.1
    → let re = a.0 *ℤ b.0 -ℤ a.1 *ℤ b.1 in
      let im = a.0 *ℤ b.1 +ℤ a.1 *ℤ b.0 in
      Checked (fits_i64 re && fits_i64 im) (re, im) (cx_mul w a b)
unfolding cx_mul
cx_mul-Checked w a b h k u v =
    let p = product_small a.0 b.0 h u in
    let q = product_small a.1 b.1 k v in
    let r = product_small a.0 b.1 h v in
    let s = product_small a.1 b.0 k u in
    rw
      (
        i128_small (a.0 *ℤ b.0) (omega (arith, p)),
        i128_small (a.1 *ℤ b.1) (omega (arith, q)),
        i128_small (a.0 *ℤ b.1) (omega (arith, r)),
        i128_small (a.1 *ℤ b.0) (omega (arith, s)),
      )
      (Checked-bind _
        (fit-Checked w _ (omega (arith, magnitude-sub (a.0 *ℤ b.0) (a.1 *ℤ b.1), p, q)))
        (Checked-map (λ im. (a.0 *ℤ b.0 -ℤ a.1 *ℤ b.1, im))
          (fit-Checked w _ (omega (arith, magnitude-add (a.0 *ℤ b.1) (a.1 *ℤ b.0), r, s)))))

-- `cx_neg` negates parts that fit, with a fault if one is the least.
pub cx_neg-Checked :
    (w : Text) (a : ℤ × ℤ)
    → Fits a.0
    → Fits a.1
    → Checked
        (fits_i64 (pos 0 -ℤ a.0) && fits_i64 (pos 0 -ℤ a.1))
        (pos 0 -ℤ a.0, pos 0 -ℤ a.1)
        (cx_neg w a)
unfolding cx_neg
cx_neg-Checked w a h k =
    Checked-bind _ (fit-Checked w (pos 0 -ℤ a.0) (total-Fits-IsSmall true (pos 0) a.0 refl h)) (
      Checked-map (λ im. (pos 0 -ℤ a.0, im))
        (fit-Checked w (pos 0 -ℤ a.1) (total-Fits-IsSmall true (pos 0) a.1 refl k)))

-- A decimal that the virtual machine keeps.
pub record IsDecimal (a : Decimal) : Type 0 where
  pub coeff : Fits a.coeff
  pub scale : a.scale ≤ scale_max

-- Of decimals with coefficients in `i64` and scales up to 18, `dec_mul` gives the product at the sum
-- of the scales if that is no more than 18 and the coefficient fits, and a fault otherwise.
pub dec_mul-Checked :
    (w : Text) (a b : Decimal)
    → IsDecimal a
    → IsDecimal b
    → Checked
        (not (ltb scale_max (a.scale + b.scale)) && fits_i64 (a.coeff *ℤ b.coeff))
        (record { coeff = a.coeff *ℤ b.coeff; scale = a.scale + b.scale })
        (dec_mul w a b)
unfolding dec_mul
dec_mul-Checked w a b u v = elim (Bool-cases (ltb scale_max (a.scale + b.scale))) [
  | inl t ↦ rw t (fault _ refl)
  | inr f ↦ rw f (
      Checked-map (λ c. record { coeff = c; scale = a.scale + b.scale })
        (fit-Checked w (a.coeff *ℤ b.coeff)
          (omega (arith, product_small a.coeff b.coeff u.coeff v.coeff))))
]

-- Of a decimal with its coefficient in `i64` and a scale up to 18, `dec_neg` negates, with a
-- fault for the least coefficient.
pub dec_neg-Checked :
    (w : Text) (a : Decimal)
    → IsDecimal a
    → Checked
        (fits_i64 (pos 0 -ℤ a.coeff))
        (record { coeff = pos 0 -ℤ a.coeff; scale = a.scale })
        (dec_neg w a)
unfolding dec_neg
dec_neg-Checked w a u =
    Checked-map (λ c. record { coeff = c; scale = a.scale })
      (fit-Checked w (pos 0 -ℤ a.coeff) (total-Fits-IsSmall true (pos 0) a.coeff refl u.coeff))
