-- ===== src/BigInt/Decimal/Numeral.antt =====
-- Texts of decimal digits, and text without a space.
use mathlib.Core.List.{reverse, reverse-cons, reverse-reverse, map-append}
use zown.Prelude.{
  ℕ, ◌+◌, ◌-◌, ◌*◌, ◌≡◌, refl, true, false, List, [], ◌∷◌, ◌++◌, map, All, Text, length,
  length-append, arith, ap, ◌∙◌,
}
use zown.BigInt.Decimal.{is_whitespace, trim_start, trim, is_digit, all_digits, digit_char}
use zown.BigInt.Decimal.Digits.{low_value, AreDigits}

-- The number that a text of digits stands for, behind a number already read.
unfoldable pub horner : ℕ → Text → ℕ
horner n [] = n
horner n (c ∷ cs) = horner (10 * n + (c - b'0')) cs

horner-snoc : (n : ℕ) (cs : Text) (c : ℕ) → horner n (cs ++ c ∷ []) ≡ 10 * horner n cs + (c - b'0')
unfolding horner
horner-snoc n [] c = refl
horner-snoc n (b ∷ cs) c = horner-snoc (10 * n + (b - b'0')) cs c

-- The text of digits, highest first.
abbrev pub numeral : List ℕ → Text
numeral ds = map digit_char (reverse ds)

numeral-cons : (r : ℕ) (ds : List ℕ) → numeral (r ∷ ds) ≡ numeral ds ++ digit_char r ∷ []
numeral-cons r ds =
    ap (map digit_char) (reverse-cons r ds) ∙ map-append digit_char (reverse ds) (r ∷ [])

pub numeral-value : (ds : List ℕ) → horner 0 (numeral ds) ≡ low_value ds
unfolding horner low_value
numeral-value [] = refl
numeral-value (r ∷ ds) =
    ap (horner 0) (numeral-cons r ds)
    ∙ horner-snoc 0 (numeral ds) (digit_char r)
    ∙ omega (arith, numeral-value ds)

abbrev pub IsNumeral : Text → Type 0
IsNumeral = All (λ c. is_digit c ≡ true)

module _ {κ} (P : ℕ → Type κ) where
  All-snoc : (xs : List ℕ) (x : ℕ) → All P xs → P x → All P (xs ++ x ∷ [])
  All-snoc [] x a p = (p, tt)
  All-snoc (y ∷ ys) x a p = (a.0, All-snoc ys x a.1 p)

  All-reverse : (xs : List ℕ) → All P xs → All P (reverse xs)
  All-reverse [] a = tt
  All-reverse (x ∷ xs) a = rw (reverse-cons x xs) (All-snoc (reverse xs) x (All-reverse xs a.1) a.0)

pub numeral-IsNumeral : (ds : List ℕ) → AreDigits ds → IsNumeral (numeral ds)
numeral-IsNumeral [] a = tt
numeral-IsNumeral (r ∷ ds) a = rw (numeral-cons r ds) (
    All-snoc (λ c. is_digit c ≡ true) (numeral ds) (digit_char r) (numeral-IsNumeral ds a.1)
      (let b = a.0 in ground arith))

pub all_digits_lem : (cs : Text) → IsNumeral cs → all_digits cs ≡ true
all_digits_lem [] a = refl
all_digits_lem (c ∷ cs) a = ground (arith, a.0, all_digits_lem cs a.1)

abbrev pub IsSolid : Text → Type 0
IsSolid = All (λ c. is_whitespace c ≡ false)

digit-is_whitespace : (c : ℕ) → is_digit c ≡ true → is_whitespace c ≡ false
unfolding is_whitespace
digit-is_whitespace c h = ground arith

pub numeral-IsSolid : (cs : Text) → IsNumeral cs → IsSolid cs
numeral-IsSolid [] a = tt
numeral-IsSolid (c ∷ cs) a = (digit-is_whitespace c a.0, numeral-IsSolid cs a.1)

trim_start_lem : (s : Text) → IsSolid s → trim_start s ≡ s
unfolding trim_start
trim_start_lem [] a = refl
trim_start_lem (c ∷ cs) a = rw (a.0) refl

-- Text without a space is left alone.
pub trim_lem : (s : Text) → IsSolid s → trim s ≡ s
unfolding trim
trim_lem s a =
    rw
      (
        trim_start_lem s a,
        trim_start_lem (reverse s) (All-reverse (λ c. is_whitespace c ≡ false) s a),
      )
      (reverse-reverse s)

pub numeral-length : (ds : List ℕ) → length (numeral ds) ≡ length ds
numeral-length [] = refl
numeral-length (r ∷ ds) =
    ap length (numeral-cons r ds)
    ∙ length-append (numeral ds) (digit_char r ∷ [])
    ∙ omega (arith, numeral-length ds)
