-- ===== src/BigInt/Tests.antt =====
-- Concrete runs of the integers, and their theorems at concrete inputs.
use zown.Prelude.{
  Text, text, some, ◌^◌, ◌-◌, if◌then◌else◌, none, refl, ◌≡◌, true, false, [], ◌∷◌, arith,
}
use zown.Prelude.Int.{pos, ◌*ℤ◌, ℤ, negsuc, ◌+ℤ◌, ◌-ℤ◌}
use zown.BigInt.{
  to_u32, abs, divmod_u32, normalize, divmod_u32_loop, to_i64, from_i64, BigInt, add, sub, cmp,
}
use zown.BigInt.Limbs.{mag}
use zown.BigInt.Word.{u32_part, to_u32_lem, fits_i64, to_i64_lem, to_i64-from_i64}
use zown.BigInt.Shift.{shl, shl_lem}
use zown.BigInt.Power.{pow_u32, powℤ, pow_u32_lem}
use zown.BigInt.Product.{mul}
use zown.BigInt.Product.Value.{mul_lem}
use zown.BigInt.Decimal.{digits_loop, parse_dec, to_text}
use zown.BigInt.Decimal.{trim}
use zown.BigInt.Decimal.Reads.{Reading, parse_dec-Reading}
use zown.BigInt.Decimal.RoundTrip.{parse_dec-to_text}
use zown.BigInt.Signed.{IsValid, value, compare_ℤ, add_lem, sub_lem, cmp_lem}

-- -(2 ^ 32)
abbrev below : BigInt
below = record { neg = true; d = 0 ∷ 1 ∷ [] }

-- 2 ^ 64 - 1
abbrev wide : BigInt
wide = record { neg = false; d = 4294967295 ∷ 4294967295 ∷ [] }

below-IsValid : IsValid below
unfolding mag
below-IsValid = omega arith

wide-IsValid : IsValid wide
unfolding mag
wide-IsValid = record { magnitude = omega arith; sign = λ e. cc }

add_lem_example : IsValid (add below wide) × (value (add below wide) ≡ value below +ℤ value wide)
add_lem_example = add_lem below wide below-IsValid wide-IsValid (omega arith) (omega arith)

sub_lem_example : IsValid (sub below wide) × (value (sub below wide) ≡ value below -ℤ value wide)
sub_lem_example = sub_lem below wide below-IsValid wide-IsValid (omega arith) (omega arith)

cmp_lem_example : cmp below wide ≡ compare_ℤ (value below) (value wide)
cmp_lem_example = cmp_lem below wide below-IsValid wide-IsValid (omega arith) (omega arith)

-- `i64::MIN`
abbrev least : ℤ
least = negsuc (2 ^ 63 - 1)

to_i64_lem_example : to_i64 below ≡ (if fits_i64 (value below) then some (value below) else none)
to_i64_lem_example = to_i64_lem below below-IsValid

to_i64-from_i64_example :
    IsValid (from_i64 least)
    × (value (from_i64 least) ≡ least)
    × (to_i64 (from_i64 least) ≡ some least)
to_i64-from_i64_example = to_i64-from_i64 least refl

parse_dec-to_text_example : (t : Text) × (to_text below ≡ some t) × (parse_dec t ≡ some below)
parse_dec-to_text_example = parse_dec-to_text below below-IsValid

below-text : to_text below ≡ some (text "-4294967296")
unfolding to_text mag digits_loop abs divmod_u32 normalize divmod_u32_loop
below-text = refl

mul_lem_example :
    (c : BigInt) × (mul below wide ≡ some c) × IsValid c × (value c ≡ value below *ℤ value wide)
mul_lem_example = mul_lem below wide below-IsValid wide-IsValid

pow_u32_lem_example :
    (c : BigInt) × (pow_u32 below 5 ≡ some c) × IsValid c × (value c ≡ powℤ (value below) 5)
pow_u32_lem_example = pow_u32_lem below 5 below-IsValid (omega arith)

to_u32_lem_example : to_u32 below ≡ u32_part (value below)
to_u32_lem_example = to_u32_lem below below-IsValid

shl_lem_example : IsValid (shl below 37) × (value (shl below 37) ≡ value below *ℤ pos (2 ^ 37))
shl_lem_example = shl_lem below 37 below-IsValid

parse_dec-Reading_example : Reading (trim (text " -42")) (parse_dec (text " -42"))
parse_dec-Reading_example = parse_dec-Reading (text " -42")
