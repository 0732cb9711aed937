-- ===== src/BigInt/Product.antt =====
-- zownc/crates/zown-vm/src/bigint.rs: `mul`.
pub mod Rows
pub mod Value
use zown.Prelude.{
  ℕ, zero, suc, ◌+◌, ◌-◌, ◌*◌, ◌/◌, ◌%◌, ◌^◌, ◌≤◌, ◌<◌, ◌≡◌, refl, Bool, true, false, not, ◌&&◌,
  ◌||◌, List, [], ◌∷◌, All, length, arith, ◌==◌, if◌then◌else◌, Bool-cases, inl, inr, ap, sym, ◌∙◌,
  Option, some, none,
}
use native.Mathlib.Nat.{mul-le-mul, mul-pos}
use zown.Prelude.Int.{ℤ, pos, negsuc, pos_part, neg_part, ◌*ℤ◌}
use zown.BigInt.{BigInt, u32, zero_int, is_zero, normalize}
use zown.BigInt.Limbs.{mag, IsLimbs, IsTrimmed, IsMag, normalize_lem}
use zown.BigInt.Signed.{IsValid, value, with_sign}

abbrev pub u128 : ℕ → ℕ
u128 n = n % 2 ^ 128

-- A limb in front of a result. `none` is an index out of range, or the fuel run out.
abbrev pub behind : ℕ → Option (List ℕ) → Option (List ℕ)
behind x none = none
behind x (some xs) = some (x ∷ xs)

-- the `while` loop past the end of `d`: each round pushes a limb
unfoldable pub push_carry : ℕ → ℕ → Option (List ℕ)
push_carry zero carry = if carry == 0 then some [] else none
push_carry (suc f) carry =
    let rest = push_carry f (u128 (0 + carry) / 2 ^ 32) in
    if carry == 0 then some [] else behind (u32 (0 + carry)) rest

-- the `while` loop; the carry is a `u128`, of four limbs
unfoldable pub carry_loop : ℕ → List ℕ → Option (List ℕ)
carry_loop carry [] = push_carry 4 carry
carry_loop carry (d ∷ ds) =
    let t = u128 (d + carry) in
    let rest = carry_loop (t / 2 ^ 32) ds in
    if carry == 0 then some (d ∷ ds) else behind (u32 t) rest

-- the loop over `j`, and the `while` loop behind it, on `d[i + j..]`
unfoldable pub mul_row : ℕ → ℕ → List ℕ → List ℕ → Option (List ℕ)
mul_row x carry [] d = carry_loop carry d
mul_row x carry (y ∷ ys) [] = none
mul_row x carry (y ∷ ys) (d ∷ ds) =
    let t = u128 (d + x * y + carry) in behind (u32 t) (mul_row x (t / 2 ^ 32) ys ds)

-- the loop over `i`, on `d[i..]`
unfoldable pub mul_rows : List ℕ → List ℕ → List ℕ → Option (List ℕ)
mul_rows [] ys d = some d
mul_rows (x ∷ xs) ys d = elim (mul_row x 0 ys d) [
  | none ↦ none
  | some [] ↦ mul_rows xs ys []
  | some (e ∷ es) ↦ behind e (mul_rows xs ys es)
]

-- `vec![0; n]`
abbrev pub zeros : ℕ → List ℕ
zeros zero = []
zeros (suc n) = 0 ∷ zeros n

abbrev pub differ : Bool → Bool → Bool
differ true b = not b
differ false b = b

abbrev pub product : Bool → Option (List ℕ) → Option BigInt
product neg none = none
product neg (some d) = some (record { neg = neg; d = normalize d })

unfoldable pub mul : BigInt → BigInt → Option BigInt
mul a b =
    if is_zero a || is_zero b
    then some zero_int
    else product (differ a.neg b.neg) (mul_rows a.d b.d (zeros (length a.d + length b.d)))
