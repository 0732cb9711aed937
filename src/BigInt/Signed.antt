-- ===== src/BigInt/Signed.antt =====
-- The operations on signed numbers against the integers.
use Prim.Native.Nat.{compare, Ordering}
use zown.Prelude.{
  ℕ, ◌+◌, ◌-◌, ◌*◌, ◌≤◌, ◌<◌, ◌≡◌, refl, Bool, true, false, not, List, [], ◌∷◌, arith, ◌==◌,
  if◌then◌else◌, Bool-cases, inl, inr, ap, ◌∙◌,
}
use zown.Prelude.Int.{ℤ, pos, negsuc, pos_part, neg_part, ◌+ℤ◌, ◌-ℤ◌, int_laws}
use zown.BigInt.{BigInt, negate, signed, is_lt, add_mag, sub_mag, cmp_mag, add, sub, cmp_by, cmp}
use zown.BigInt.Limbs.{mag, IsMag, add_mag_lem, sub_mag_lem}
use zown.BigInt.Compare.{IsShort, cmp_mag_lem}

abbrev pub with_sign : Bool → ℕ → ℤ
with_sign true m = if m == 0 then pos 0 else negsuc (m - 1)
with_sign false m = pos m

-- The integer that a `BigInt` stands for.
abbrev pub value : BigInt → ℤ
value a = with_sign a.neg (mag a.d)

-- The form that the operations keep: limbs in range, no zero at the end, and no negative zero.
pub record IsValid (a : BigInt) : Type 0 where
  pub magnitude : IsMag a.d
  pub sign : a.neg ≡ true → 0 < mag a.d

signed_lem :
    (n : Bool) (d : List ℕ)
    → IsMag d
    → IsValid (signed n d) × (value (signed n d) ≡ with_sign n (mag d))
unfolding mag
signed_lem true [] m = (record { magnitude = m; sign = λ e. cc }, refl)
signed_lem false [] m = (record { magnitude = m; sign = λ e. cc }, refl)
signed_lem true (x ∷ xs) m = (record { magnitude = m; sign = λ e. m.trimmed.0 }, refl)
signed_lem false (x ∷ xs) m = (record { magnitude = m; sign = λ e. cc }, refl)

with_sign-add : (n : Bool) (i j : ℕ) → with_sign n (i + j) ≡ with_sign n i +ℤ with_sign n j
unfolding ◌+ℤ◌
with_sign-add true i j = ground arith
with_sign-add false i j = ground arith

with_sign-sub :
    (n : Bool) (i j : ℕ) → j ≤ i → with_sign n (i - j) ≡ with_sign n i +ℤ with_sign (not n) j
unfolding ◌+ℤ◌
with_sign-sub true i j h = ground arith
with_sign-sub false i j h = ground arith

with_sign-sub_swapped :
    (n : Bool) (i j : ℕ) → i ≤ j → with_sign (not n) (j - i) ≡ with_sign n i +ℤ with_sign (not n) j
unfolding ◌+ℤ◌
with_sign-sub_swapped true i j h = ground arith
with_sign-sub_swapped false i j h = ground arith

lt_of_test : (i j : ℕ) {o : Ordering} → o ≡ compare i j → is_lt o ≡ true → i < j
lt_of_test i j e h = ground arith

le_of_test : (i j : ℕ) {o : Ordering} → o ≡ compare i j → is_lt o ≡ false → j ≤ i
le_of_test i j e h = ground arith

abbrev Stands : BigInt → ℤ → Type 0
Stands c i = IsValid c × (value c ≡ i)

signed-Stands :
    (n : Bool) (d : List ℕ) {i : ℤ} → IsMag d → with_sign n (mag d) ≡ i → Stands (signed n d) i
signed-Stands n d m e = let (v, p) = signed_lem n d m in (v, p ∙ e)

module _ (xs ys : List ℕ) (u : IsMag xs) (v : IsMag ys) (s : IsShort xs) (t : IsShort ys) where
  -- magnitudes under one sign
  add_same :
      (n : Bool) → Stands (signed n (add_mag xs ys)) (with_sign n (mag xs) +ℤ with_sign n (mag ys))
  add_same n =
      let (m, e) = add_mag_lem xs ys u v in
      signed-Stands n (add_mag xs ys) m (ap (with_sign n) e ∙ with_sign-add n (mag xs) (mag ys))

  -- magnitudes under opposite signs
  add_opposite :
      (n : Bool)
      → Stands
          (if not (is_lt (cmp_mag xs ys))
            then signed n (sub_mag xs ys)
            else signed (not n) (sub_mag ys xs))
          (with_sign n (mag xs) +ℤ with_sign (not n) (mag ys))
  add_opposite n = elim (Bool-cases (is_lt (cmp_mag xs ys))) [
    | inl less ↦
        let le : mag xs ≤ mag ys =
          omega (arith, lt_of_test (mag xs) (mag ys) (cmp_mag_lem xs ys u v s t) less) in
        let (m, e) = sub_mag_lem ys xs v u le in
        rw less (
          signed-Stands (not n) (sub_mag ys xs) m
            (ap (with_sign (not n)) e ∙ with_sign-sub_swapped n (mag xs) (mag ys) le))
    | inr more ↦
        let le = le_of_test (mag xs) (mag ys) (cmp_mag_lem xs ys u v s t) more in
        let (m, e) = sub_mag_lem xs ys u v le in
        rw more (
          signed-Stands n (sub_mag xs ys) m
            (ap (with_sign n) e ∙ with_sign-sub n (mag xs) (mag ys) le))
  ]

  add_parts :
      (n k : Bool)
      → Stands
          (add (record { neg = n; d = xs }) (record { neg = k; d = ys }))
          (with_sign n (mag xs) +ℤ with_sign k (mag ys))
  unfolding add
  add_parts true true = add_same true
  add_parts false false = add_same false
  add_parts true false = add_opposite true
  add_parts false true = add_opposite false

-- `add` adds well-formed operands with magnitudes whose count of bits is a `u32`: its result stands
-- for the sum, and has the form that every operation keeps.
pub add_lem :
    (a b : BigInt)
    → IsValid a
    → IsValid b
    → IsShort a.d
    → IsShort b.d
    → IsValid (add a b) × (value (add a b) ≡ value a +ℤ value b)
add_lem a b u v s t = add_parts a.d b.d u.magnitude v.magnitude s t a.neg b.neg

with_sign-not : (n : Bool) (i : ℕ) → with_sign (not n) i ≡ pos 0 -ℤ with_sign n i
unfolding ◌-ℤ◌
with_sign-not true i = ground arith
with_sign-not false i = ground arith

negate_parts :
    (n : Bool) (d : List ℕ)
    → IsValid (record { neg = n; d = d })
    → Stands (negate (record { neg = n; d = d })) (pos 0 -ℤ with_sign n (mag d))
unfolding negate mag
negate_parts true [] u = (record { magnitude = u.magnitude; sign = λ e. cc }, with_sign-not true 0)
negate_parts false [] u =
    (record { magnitude = u.magnitude; sign = λ e. cc }, with_sign-not false 0)
negate_parts n (x ∷ xs) u = (
  record { magnitude = u.magnitude; sign = λ e. u.magnitude.trimmed.0 },
  with_sign-not n (x + 4294967296 * mag xs),
)

pub negate_lem :
    (a : BigInt) → IsValid a → IsValid (negate a) × (value (negate a) ≡ pos 0 -ℤ value a)
negate_lem a u = negate_parts a.neg a.d u

negate-IsShort :
    (n : Bool) (d : List ℕ) → IsShort d → IsShort (negate (record { neg = n; d = d })).d
unfolding negate
negate-IsShort n [] s = omega arith
negate-IsShort n (x ∷ xs) s = s

-- `sub` subtracts, as `add` adds, under the same conditions: its result stands for the difference.
pub sub_lem :
    (a b : BigInt)
    → IsValid a
    → IsValid b
    → IsShort a.d
    → IsShort b.d
    → IsValid (sub a b) × (value (sub a b) ≡ value a -ℤ value b)
unfolding sub
sub_lem a b u v s t =
    let (w, e) = negate_lem b v in
    let (r, p) = add_lem a (negate b) u w s (negate-IsShort b.neg b.d t) in
    (r, p ∙ ap (λ j. value a +ℤ j) e ∙ omega (int_laws))

-- The order of two integers.
abbrev pub compare_ℤ : ℤ → ℤ → Ordering
compare_ℤ i j = compare (pos_part i + neg_part j) (pos_part j + neg_part i)

cmp_parts :
    (n k : Bool) (xs ys : List ℕ)
    → IsValid (record { neg = n; d = xs })
    → IsValid (record { neg = k; d = ys })
    → IsShort xs
    → IsShort ys
    → cmp_by n k xs ys ≡ compare_ℤ (with_sign n (mag xs)) (with_sign k (mag ys))
cmp_parts true true xs ys u v s t =
    ground (arith, cmp_mag_lem ys xs v.magnitude u.magnitude t s, u.sign refl, v.sign refl)
cmp_parts false false xs ys u v s t = ground (arith, cmp_mag_lem xs ys u.magnitude v.magnitude s t)
cmp_parts true false xs ys u v s t = ground (arith, u.sign refl)
cmp_parts false true xs ys u v s t = ground (arith, v.sign refl)

-- `cmp` is the order of the integers, of well-formed operands with magnitudes whose count of bits is
-- a `u32`.
pub cmp_lem :
    (a b : BigInt)
    → IsValid a
    → IsValid b
    → IsShort a.d
    → IsShort b.d
    → cmp a b ≡ compare_ℤ (value a) (value b)
unfolding cmp
cmp_lem a b u v s t = cmp_parts a.neg b.neg a.d b.d u v s t
