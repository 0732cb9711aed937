-- ===== src/Exact.antt =====
-- zownc/crates/zown-vm/src/exact.rs: checked decimals and Gaussian integers.
pub mod Range
pub mod Checked
pub mod Scale
pub mod Order
mod Tests
use Prim.Native.Nat.{Ordering}
use zown.Prelude.{
  ℕ, zero, suc, ◌+◌, ◌-◌, ◌*◌, ◌%◌, ◌^◌, Bool, true, false, not, ◌&&◌, ◌||◌, List, [], ◌∷◌, Option,
  none, some, Text, get_elem?, ltb, leb, ◌==◌, if◌then◌else◌,
}
use zown.Prelude.Int.{ℤ, pos, negsuc, ◌+ℤ◌, ◌-ℤ◌, ◌*ℤ◌}
use zown.Prelude.Outcome.{Outcome, ok, err, panic, ◌>>=◌}
use zown.BigInt.Signed.{compare_ℤ}
use zown.BigInt.Word.{fits_i64}

-- A constructor stands for a message of the source with its hint.
pub data Msg : Type 0 where
  does_not_fit : ℤ → Msg
  scale_above : ℕ → Msg

-- The fault is of code `OVERFLOW`; the virtual machine adds its position and its stack.
pub record Fault : Type 0 where
  pub msg : Msg
  pub word : Text

pub record Decimal : Type 0 where
  pub coeff : ℤ
  pub scale : ℕ

abbrev pub scale_max : ℕ
scale_max = 18

-- A number in 128 bits, which wraps in a release build.
unfoldable pub i128 : ℤ → ℤ
i128 (pos n) = let m = n % 2 ^ 128 in if ltb m (2 ^ 127) then pos m else negsuc (2 ^ 128 - 1 - m)
i128 (negsuc n) = let m = n % 2 ^ 128 in if ltb m (2 ^ 127) then negsuc m else pos (2 ^ 128 - 1 - m)

abbrev pub powers : List ℕ
powers =
    1 ∷ 10 ∷ 100 ∷ 1000 ∷ 10000 ∷ 100000 ∷ 1000000 ∷ 10000000 ∷ 100000000 ∷ 1000000000 ∷ 10000000000
    ∷ 100000000000 ∷ 1000000000000 ∷ 10000000000000 ∷ 100000000000000 ∷ 1000000000000000
    ∷ 10000000000000000 ∷ 100000000000000000 ∷ 1000000000000000000 ∷ []

-- `P[k as usize]`
abbrev pub indexed : Option ℕ → Outcome Fault ℤ
indexed none = panic
indexed (some p) = ok (pos p)

unfoldable pub pow10 : ℕ → Outcome Fault ℤ
pow10 k = indexed (get_elem? powers k)

unfoldable pub fit : Text → ℤ → Outcome Fault ℤ
fit w n = if fits_i64 n then ok n else err (record { msg = does_not_fit n; word = w })

abbrev pub max : ℕ → ℕ → ℕ
max a b = if ltb a b then b else a

-- `a.coeff as i128 * pow10(scale - a.scale)`
unfoldable pub grown : Decimal → ℕ → Outcome Fault ℤ
grown a scale = do p ← pow10 (scale - a.scale); ok (i128 (a.coeff *ℤ p))

abbrev pub is_eq : Ordering → Bool
is_eq Ordering.eq = true
is_eq _ = false

unfoldable pub dec_eq : Decimal → Decimal → Outcome Fault Bool
dec_eq a b = do
  x ← grown a (max a.scale b.scale)
  y ← grown b (max a.scale b.scale)
  ok (is_eq (compare_ℤ x y))

unfoldable pub dec_cmp : Decimal → Decimal → Outcome Fault Ordering
dec_cmp a b = do
  x ← grown a (max a.scale b.scale)
  y ← grown b (max a.scale b.scale)
  ok (compare_ℤ x y)

-- `small` at the scale of `big`
abbrev pub lift : Text → Decimal → Decimal → Outcome Fault Decimal
lift w small big = do
  n ← grown small big.scale
  c ← fit w n
  ok (record { coeff = c; scale = big.scale })

unfoldable pub align : Text → Decimal → Decimal → Outcome Fault (Decimal × Decimal)
align w a b =
    if a.scale == b.scale
    then ok (a, b)
    else if ltb a.scale b.scale
    then (do lifted ← lift w a b; ok (lifted, b))
    else (do lifted ← lift w b a; ok (a, lifted))

unfoldable pub dec_add : Text → Decimal → Decimal → Bool → Outcome Fault Decimal
dec_add w a b sub = do
  (a₁, b₁) ← align w a b
  c ← fit w (i128 (if sub then a₁.coeff -ℤ b₁.coeff else a₁.coeff +ℤ b₁.coeff))
  ok (record { coeff = c; scale = a₁.scale })

unfoldable pub dec_mul : Text → Decimal → Decimal → Outcome Fault Decimal
dec_mul w a b =
    if ltb scale_max (a.scale + b.scale)
    then err (record { msg = scale_above (a.scale + b.scale); word = w })
    else (do
      c ← fit w (i128 (a.coeff *ℤ b.coeff))
      ok (record { coeff = c; scale = a.scale + b.scale }))

unfoldable pub dec_neg : Text → Decimal → Outcome Fault Decimal
dec_neg w a = do c ← fit w (i128 (pos 0 -ℤ a.coeff)); ok (record { coeff = c; scale = a.scale })

unfoldable pub cx_add : Text → ℤ × ℤ → ℤ × ℤ → Bool → Outcome Fault (ℤ × ℤ)
cx_add w a b sub = do
  re ← fit w (i128 (if sub then a.0 -ℤ b.0 else a.0 +ℤ b.0))
  im ← fit w (i128 (if sub then a.1 -ℤ b.1 else a.1 +ℤ b.1))
  ok (re, im)

unfoldable pub cx_mul : Text → ℤ × ℤ → ℤ × ℤ → Outcome Fault (ℤ × ℤ)
cx_mul w a b = do
  re ← fit w (i128 (i128 (a.0 *ℤ b.0) -ℤ i128 (a.1 *ℤ b.1)))
  im ← fit w (i128 (i128 (a.0 *ℤ b.1) +ℤ i128 (a.1 *ℤ b.0)))
  ok (re, im)

unfoldable pub cx_neg : Text → ℤ × ℤ → Outcome Fault (ℤ × ℤ)
cx_neg w a = do re ← fit w (i128 (pos 0 -ℤ a.0)); im ← fit w (i128 (pos 0 -ℤ a.1)); ok (re, im)
