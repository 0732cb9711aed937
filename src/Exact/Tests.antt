-- ===== src/Exact/Tests.antt =====
-- Concrete runs of decimals and Gaussian integers, and their theorems at concrete inputs.
use zown.Prelude.{◌≡◌, refl, ◌^◌, ◌-◌, ◌+◌, ◌&&◌, true, false, not, ltb, arith, Text, text}
use zown.Prelude.Int.{ℤ, pos, negsuc, ◌+ℤ◌, ◌-ℤ◌, ◌*ℤ◌}
use zown.Prelude.Outcome.{ok, err}
use zown.BigInt.Word.{fits_i64}
use zown.Exact.{
  Decimal, does_not_fit, scale_max, max, is_eq, i128, fit, dec_eq, dec_cmp, dec_add, dec_mul,
  dec_neg, cx_add, cx_mul, cx_neg,
}
use zown.Exact.Checked.{
  Checked, IsDecimal, total, cx_add-Checked, cx_mul-Checked, cx_neg-Checked, dec_mul-Checked,
  dec_neg-Checked,
}
use zown.Exact.Order.{order, dec_cmp_lem, dec_eq_lem}
use zown.Exact.Scale.{lifted, dec, dec_add-Checked}

-- -1.25 and 3.5
abbrev below : Decimal
below = record { coeff = negsuc 124; scale = 2 }

abbrev above : Decimal
above = record { coeff = pos 35; scale = 1 }

below-IsDecimal : IsDecimal below
below-IsDecimal = record { coeff = refl; scale = omega arith }

above-IsDecimal : IsDecimal above
above-IsDecimal = record { coeff = refl; scale = omega arith }

abbrev plus : Text
plus = text "+"

dec_add-Checked_example :
    let s = max below.scale above.scale in
    let c = total false (lifted below s) (lifted above s) in
    Checked
      ((fits_i64 (lifted below s) && fits_i64 (lifted above s)) && fits_i64 c)
      (dec c s)
      (dec_add plus below above false)
dec_add-Checked_example = dec_add-Checked plus below above false below-IsDecimal above-IsDecimal

dec_cmp_lem_example : dec_cmp below above ≡ ok (order below above)
dec_cmp_lem_example = dec_cmp_lem below above below-IsDecimal above-IsDecimal

dec_eq_lem_example : dec_eq below above ≡ ok (is_eq (order below above))
dec_eq_lem_example = dec_eq_lem below above below-IsDecimal above-IsDecimal

dec_mul-Checked_example :
    Checked
      (not (ltb scale_max (below.scale + above.scale)) && fits_i64 (below.coeff *ℤ above.coeff))
      (record { coeff = below.coeff *ℤ above.coeff; scale = below.scale + above.scale })
      (dec_mul plus below above)
dec_mul-Checked_example = dec_mul-Checked plus below above below-IsDecimal above-IsDecimal

dec_neg-Checked_example :
    Checked
      (fits_i64 (pos 0 -ℤ below.coeff))
      (record { coeff = pos 0 -ℤ below.coeff; scale = below.scale })
      (dec_neg plus below)
dec_neg-Checked_example = dec_neg-Checked plus below below-IsDecimal

-- `i64::MIN`
abbrev least : ℤ
least = negsuc (2 ^ 63 - 1)

cx_add-Checked_example :
    Checked
      (fits_i64 (total true least (pos 4)) && fits_i64 (total true (pos 1) least))
      (total true least (pos 4), total true (pos 1) least)
      (cx_add plus (least, pos 1) (pos 4, least) true)
cx_add-Checked_example = cx_add-Checked plus (least, pos 1) (pos 4, least) true refl refl refl refl

cx_mul-Checked_example :
    Checked
      (fits_i64 (least *ℤ least -ℤ least *ℤ least) && fits_i64 (least *ℤ least +ℤ least *ℤ least))
      (least *ℤ least -ℤ least *ℤ least, least *ℤ least +ℤ least *ℤ least)
      (cx_mul plus (least, least) (least, least))
cx_mul-Checked_example = cx_mul-Checked plus (least, least) (least, least) refl refl refl refl

-- The sum of the products is `2 ^ 127`, which 128 bits do not hold: a debug build panics, and a
-- release build reports a number below zero.
cx_mul_wraps :
    cx_mul plus (least, least) (least, least)
    ≡ err (record { msg = does_not_fit (negsuc (2 ^ 127 - 1)); word = plus })
unfolding cx_mul fit i128 ◌*ℤ◌ ◌-ℤ◌ ◌+ℤ◌
cx_mul_wraps = refl

cx_neg-Checked_example :
    Checked
      (fits_i64 (pos 0 -ℤ least) && fits_i64 (pos 0 -ℤ pos 2))
      (pos 0 -ℤ least, pos 0 -ℤ pos 2)
      (cx_neg plus (least, pos 2))
cx_neg-Checked_example = cx_neg-Checked plus (least, pos 2) refl refl
