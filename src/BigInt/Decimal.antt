-- ===== src/BigInt/Decimal.antt =====
-- zownc/crates/zown-vm/src/bigint.rs: decimal text of a number, `parse_dec` and `Display`.
pub mod Digits
pub mod Numeral
pub mod RoundTrip
pub mod Reads
use mathlib.Core.List.{reverse}
use zown.Prelude.{
  ℕ, zero, suc, ◌+◌, ◌-◌, Bool, true, false, ◌&&◌, ◌||◌, List, [], ◌∷◌, ◌++◌, map, Option, none,
  some, Text, leb, ◌==◌, if◌then◌else◌,
}
use zown.BigInt.{BigInt, is_empty, zero_int, is_zero, from_u64, add, mul_u32, divmod_u32, abs}
use zown.BigInt.Limbs.{mag}

-- `char::is_whitespace`
unfoldable pub is_whitespace : ℕ → Bool
is_whitespace c =
    (leb 9 c && leb c 13)
    || c == 32
    || c == 0x85
    || c == 0xa0
    || c == 0x1680
    || (leb 0x2000 c && leb c 0x200a)
    || c == 0x2028
    || c == 0x2029
    || c == 0x202f
    || c == 0x205f
    || c == 0x3000

unfoldable pub trim_start : Text → Text
trim_start [] = []
trim_start (c ∷ cs) = let rest = trim_start cs in if is_whitespace c then rest else c ∷ cs

unfoldable pub trim : Text → Text
trim s = reverse (trim_start (reverse (trim_start s)))

abbrev pub is_digit : ℕ → Bool
is_digit c = leb b'0' c && leb c b'9'

abbrev pub all_digits : Text → Bool
all_digits [] = true
all_digits (c ∷ cs) = is_digit c && all_digits cs

-- the loop of `parse_dec`
unfoldable pub parse_loop : BigInt → Text → BigInt
parse_loop n [] = n
parse_loop n (c ∷ cs) = parse_loop (add (mul_u32 n 10) (from_u64 (c - b'0'))) cs

-- behind the sign: the digits, and the sign put on a number that is not zero
unfoldable pub parse_digits : Bool → Text → Option BigInt
parse_digits neg [] = none
parse_digits neg (c ∷ cs) =
    let n = parse_loop zero_int (c ∷ cs) in
    if all_digits (c ∷ cs)
    then some (if neg && (if is_zero n then false else true) then record n { neg = true } else n)
    else none

unfoldable pub parse_signed : Text → Option BigInt
parse_signed [] = parse_digits false []
parse_signed (c ∷ cs) =
    if c == b'-'
    then parse_digits true cs
    else if c == b'+'
    then parse_digits false cs
    else parse_digits false (c ∷ cs)

unfoldable pub parse_dec : Text → Option BigInt
parse_dec s = parse_signed (trim s)

-- the loop of `fmt`: the digits, lowest first; `none` if the fuel ran out
unfoldable pub digits_loop : ℕ → BigInt → Option (List ℕ)
digits_loop zero n = if is_zero n then some [] else none
digits_loop (suc f) n =
    let (q, r) = divmod_u32 n 10 in
    let rest = elim (digits_loop f q) as (λ _. Option (List ℕ)) [
      | none ↦ none
      | some ds ↦ some (r ∷ ds)
    ] in
    if is_zero n then some [] else rest

abbrev pub digit_char : ℕ → ℕ
digit_char d = d + b'0'

abbrev pub written : Bool → Option (List ℕ) → Option Text
written neg none = none
written neg (some ds) =
    let chars = map digit_char (reverse ds) in some (if neg then b'-' ∷ chars else chars)

-- `Display::fmt`. A round divides by 10, so the number itself bounds the rounds.
unfoldable pub to_text : BigInt → Option Text
to_text a =
    let out = written a.neg (digits_loop (mag a.d) (abs a)) in
    if is_zero a then some (b'0' ∷ []) else out
