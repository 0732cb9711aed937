-- ===== src/BigInt/Decimal/Reads.antt =====
-- What `parse_dec` gives for a text that it reads.
use zown.Prelude.{
  ℕ, ◌<◌, ◌≡◌, refl, Bool, true, false, ◌&&◌, List, [], ◌∷◌, Text, length, arith, ◌==◌,
  if◌then◌else◌, ◌⊎◌, Bool-cases, inl, inr, ap, sym, Option, some, none,
}
use zown.BigInt.{BigInt, zero_int, is_empty}
use zown.Prelude.Int.{pos}
use zown.BigInt.Limbs.{mag, IsMag}
use zown.BigInt.Signed.{IsValid, value, with_sign}
use zown.BigInt.Decimal.{all_digits, parse_loop, parse_digits, parse_signed, parse_dec, trim}
use zown.BigInt.Decimal.Numeral.{horner}
use zown.BigInt.Decimal.RoundTrip.{parts, parse_loop_lem}

-- A text of a sign, or none, and what stands behind it.
pub data SignSplit : Bool → Text → Text → Type 0 where
  empty : SignSplit false [] []
  plain :
      (c : ℕ) (cs : Text)
      → c == b'-' ≡ false
      → c == b'+' ≡ false
      → SignSplit false (c ∷ cs) (c ∷ cs)
  plus : (cs : Text) → SignSplit false (b'+' ∷ cs) cs
  minus : (cs : Text) → SignSplit true (b'-' ∷ cs) cs

abbrev pub Stands : Bool → ℕ → BigInt → Type 0
Stands n m a = IsValid a × (value a ≡ with_sign n m)

sign-Stands :
    (n k : Bool) (d : List ℕ) (m : ℕ)
    → IsMag d
    → mag d ≡ m
    → k ≡ false
    → Stands n m (if n && (if is_empty d then false else true) then parts true d else parts k d)
unfolding mag
sign-Stands true k [] m w e s = (record { magnitude = w; sign = λ t. cc }, rw (s, sym e) refl)
sign-Stands true k (x ∷ xs) m w e s =
    (record { magnitude = w; sign = λ t. w.trimmed.0 }, ap (with_sign true) e)
sign-Stands false k d m w e s = (record { magnitude = w; sign = λ t. cc }, rw s (ap pos e))

-- What digits behind a sign are read as.
pub data DigitsRead (n : Bool) (cs : Text) : Option BigInt → Type 0 where
  refused : (cs ≡ []) ⊎ (all_digits cs ≡ false) → DigitsRead n cs none
  read :
      (b : BigInt)
      → all_digits cs ≡ true
      → 0 < length cs
      → Stands n (horner 0 cs) b
      → DigitsRead n cs (some b)

parse_digits-DigitsRead : (n : Bool) (cs : Text) → DigitsRead n cs (parse_digits n cs)
unfolding parse_digits mag
parse_digits-DigitsRead n [] = refused (inl refl)
parse_digits-DigitsRead n (c ∷ cs) = elim (Bool-cases (all_digits (c ∷ cs))) [
  | inl t ↦
      let (w, q, s) =
        parse_loop_lem zero_int 0 (c ∷ cs) (record { limbs = tt; trimmed = tt }, refl, refl) t in
      let r = parse_loop zero_int (c ∷ cs) in
      rw t (read _ t (omega arith) (sign-Stands n r.neg r.d _ w q s))
  | inr f ↦ rw f (refused (inr f))
]

-- What a text is read as: a sign or none, and digits.
abbrev pub Reading : Text → Option BigInt → Type 0
Reading s out = (n : Bool) × (cs : Text) × SignSplit n s cs × DigitsRead n cs out

parse_signed-Reading : (s : Text) → Reading s (parse_signed s)
unfolding parse_signed
parse_signed-Reading [] = (false, [], empty, parse_digits-DigitsRead false [])
parse_signed-Reading (c ∷ cs) = elim (Bool-cases (c == b'-')) [
  | inl m ↦ rw m (
    true,
    cs,
    (let e : c ≡ b'-' = ground arith in rw e (minus cs)),
    parse_digits-DigitsRead true cs,
  )
  | inr p ↦ elim (Bool-cases (c == b'+')) [
    | inl m ↦
        rw (p, m)
          (
            false,
            cs,
            (let e : c ≡ b'+' = ground arith in rw e (plus cs)),
            parse_digits-DigitsRead false cs,
          )
    | inr q ↦ rw (p, q) (false, c ∷ cs, plain c cs p q, parse_digits-DigitsRead false (c ∷ cs))
  ]
]

-- `parse_dec` reads the trimmed text as a sign, or none, and digits: without a digit, or with another
-- character, it gives `None`, and otherwise the well-formed number that sign and digits stand for.
pub parse_dec-Reading : (s : Text) → Reading (trim s) (parse_dec s)
unfolding parse_dec
parse_dec-Reading s = parse_signed-Reading (trim s)
