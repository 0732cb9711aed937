-- ===== src/BigInt/Decimal/RoundTrip.antt =====
-- The text of a number is read back as that number.
use zown.Prelude.{
  ℕ, ◌+◌, ◌-◌, ◌*◌, ◌<◌, ◌≡◌, refl, Bool, true, false, ◌&&◌, List, [], ◌∷◌, Text, length, arith,
  if◌then◌else◌, ap, ◌∙◌, some,
}
use zown.BigInt.{BigInt, zero_int, is_empty, from_u64, add, mul_u32, abs}
use zown.BigInt.Limbs.{mag, IsMag, add_mag_lem}
use zown.BigInt.Signed.{IsValid}
use zown.BigInt.Word.{from_u64_lem}
use zown.BigInt.Decimal.{
  is_whitespace, is_digit, all_digits, parse_loop, parse_digits, parse_signed, parse_dec, to_text,
}
use zown.BigInt.Decimal.Numeral.{
  horner, numeral, IsNumeral, numeral-value, numeral-IsNumeral, all_digits_lem, numeral-IsSolid,
  trim_lem, numeral-length,
}
use zown.BigInt.Decimal.Digits.{mul_loop_lem, low_value, AreDigits, digits_loop_lem}

-- Limbs in the form that every operation keeps are determined by their number.
limbs_unique : (xs ys : List ℕ) → IsMag xs → IsMag ys → mag xs ≡ mag ys → xs ≡ ys
unfolding mag
limbs_unique [] [] u v e = refl
limbs_unique [] (y ∷ ys) u v e = absurd (omega (arith, e, v.trimmed))
limbs_unique (x ∷ xs) [] u v e = absurd (omega (arith, e, u.trimmed))
limbs_unique (x ∷ xs) (y ∷ ys) u v e =
    let p : x ≡ y = omega (arith, e, u.limbs, v.limbs) in
    let q : mag xs ≡ mag ys = omega (arith, e, u.limbs, v.limbs) in
    let rest =
      limbs_unique xs ys (record { limbs = u.limbs.1; trimmed = u.trimmed.1 })
        (record { limbs = v.limbs.1; trimmed = v.trimmed.1 }) q in
    cc

abbrev IsNatural : BigInt → ℕ → Type 0
IsNatural b m = IsMag b.d × (mag b.d ≡ m) × (b.neg ≡ false)

mul_ten :
    (n : Bool) (d : List ℕ) (m : ℕ)
    → IsNatural (record { neg = n; d = d }) m
    → IsNatural (mul_u32 (record { neg = n; d = d }) 10) (10 * m)
unfolding mul_u32 mag
mul_ten n [] m u = (u.0, omega (arith, u.1), refl)
mul_ten n (x ∷ xs) m u =
    let (w, e) = mul_loop_lem 0 (x ∷ xs) (omega arith) u.0 in (w, omega (arith, e, u.1), u.2)

add_naturals :
    (a b : BigInt) (m n : ℕ) → IsNatural a m → IsNatural b n → IsNatural (add a b) (m + n)
unfolding add
add_naturals a b m n u v =
    let (w, e) = add_mag_lem a.d b.d u.0 v.0 in rw (u.2, v.2) (w, omega (arith, e, u.1, v.1), refl)

from_digit : (c : ℕ) → is_digit c ≡ true → IsNatural (from_u64 (c - b'0')) (c - b'0')
from_digit c h = from_u64_lem (c - b'0') (ground arith)

-- the loop of `parse_dec` on digits
pub parse_loop_lem :
    (n : BigInt) (m : ℕ) (cs : Text)
    → IsNatural n m
    → all_digits cs ≡ true
    → IsNatural (parse_loop n cs) (horner m cs)
unfolding parse_loop horner
parse_loop_lem n m [] u h = u
parse_loop_lem n m (c ∷ cs) u h =
    let d : is_digit c ≡ true = ground arith in
    let more : all_digits cs ≡ true = ground arith in
    parse_loop_lem (add (mul_u32 n 10) (from_u64 (c - b'0'))) (10 * m + (c - b'0')) cs
      (add_naturals (mul_u32 n 10) (from_u64 (c - b'0')) (10 * m) (c - b'0') (mul_ten n.neg n.d m u)
        (from_digit c d))
      more

abbrev pub parts : Bool → List ℕ → BigInt
parts n d = record { neg = n; d = d }

sign_lem :
    (n k : Bool) (d : List ℕ)
    → IsValid (record { neg = n; d = d })
    → k ≡ false
    → (if n && (if is_empty d then false else true) then parts true d else parts k d) ≡ parts n d
unfolding mag
sign_lem true k [] u e = absurd (omega (arith, u.sign refl))
sign_lem true k (x ∷ xs) u e = refl
sign_lem false k d u e = rw e refl

-- a text of digits, at least one, read behind a sign
parse_digits_lem :
    (n : Bool) (cs : Text) (d : List ℕ)
    → IsNumeral cs
    → 0 < length cs
    → IsValid (record { neg = n; d = d })
    → horner 0 cs ≡ mag d
    → parse_digits n cs ≡ some (record { neg = n; d = d })
unfolding parse_digits mag
parse_digits_lem n [] d a p u e = absurd (omega (arith, p))
parse_digits_lem n (c ∷ cs) d a p u e =
    let (w, q, s) =
      parse_loop_lem zero_int 0 (c ∷ cs) (record { limbs = tt; trimmed = tt }, refl, refl)
        (all_digits_lem (c ∷ cs) a) in
    let same = limbs_unique (parse_loop zero_int (c ∷ cs)).d d w u.magnitude (q ∙ e) in
    rw (all_digits_lem (c ∷ cs) a, same)
      (ap some (sign_lem n (parse_loop zero_int (c ∷ cs)).neg d u s))

plain_start : (cs : Text) → IsNumeral cs → parse_signed cs ≡ parse_digits false cs
unfolding parse_signed
plain_start [] a = refl
plain_start (c ∷ cs) a = let h = a.0 in ground arith

-- the digits of a number, read behind its sign
read_back :
    (n : Bool) (d : List ℕ) (ds : List ℕ)
    → IsValid (record { neg = n; d = d })
    → AreDigits ds
    → low_value ds ≡ mag d
    → 0 < length ds
    → parse_digits n (numeral ds) ≡ some (record { neg = n; d = d })
read_back n d ds u a v p =
    parse_digits_lem n (numeral ds) d (numeral-IsNumeral ds a) (omega (arith, p, numeral-length ds))
      u (numeral-value ds ∙ v)

dash-is_whitespace : is_whitespace b'-' ≡ false
unfolding is_whitespace
dash-is_whitespace = refl

abbrev ReadBack : BigInt → Type 0
ReadBack a = (t : Text) × (to_text a ≡ some t) × (parse_dec t ≡ some a)

ReadBack-parts :
    (n : Bool) (d : List ℕ)
    → IsValid (record { neg = n; d = d })
    → ReadBack (record { neg = n; d = d })
unfolding to_text parse_dec parse_signed abs mag
ReadBack-parts true [] u = absurd (omega (arith, u.sign refl))
ReadBack-parts false [] u = (
  b'0' ∷ [],
  refl,
  ap parse_signed (trim_lem (b'0' ∷ []) (numeral-IsSolid (b'0' ∷ []) (refl, tt)))
      ∙ read_back false [] (0 ∷ []) u (omega arith, tt) (unfold low_value in refl) (omega arith),
)
ReadBack-parts true (x ∷ xs) u =
    let (ds, p, a, v, nz) =
      digits_loop_lem (mag (x ∷ xs)) false (x ∷ xs) u.magnitude (omega arith) in
    let digits = numeral-IsNumeral ds a in
    (
      b'-' ∷ numeral ds,
      rw p refl,
      ap parse_signed
            (trim_lem (b'-' ∷ numeral ds) (dash-is_whitespace, numeral-IsSolid (numeral ds) digits))
          ∙ read_back true (x ∷ xs) ds u a v (nz u.magnitude.trimmed.0),
    )
ReadBack-parts false (x ∷ xs) u =
    let (ds, p, a, v, nz) =
      digits_loop_lem (mag (x ∷ xs)) false (x ∷ xs) u.magnitude (omega arith) in
    let digits = numeral-IsNumeral ds a in
    (
      numeral ds,
      rw p refl,
      ap parse_signed (trim_lem (numeral ds) (numeral-IsSolid (numeral ds) digits))
          ∙ plain_start (numeral ds) digits
          ∙ read_back false (x ∷ xs) ds u a v (nz u.magnitude.trimmed.0),
    )

-- The text of a well-formed number is read back by `parse_dec` as that number.
pub parse_dec-to_text :
    (a : BigInt) → IsValid a → (t : Text) × (to_text a ≡ some t) × (parse_dec t ≡ some a)
parse_dec-to_text a u = ReadBack-parts a.neg a.d u
