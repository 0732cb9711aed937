-- ===== src/BigInt.antt =====
-- zownc/crates/zown-vm/src/bigint.rs: integers of any size, as a sign and little-endian limbs.
-- A limb is a `u32`; sums and products of limbs are `u64`s.
pub mod Limbs
pub mod Compare
pub mod Signed
pub mod Word
pub mod Product
pub mod Shift
mod Power
pub mod Decimal
mod Tests
use Prim.Native.Nat.{compare, Ordering, lt, eq, gt}
use zown.Prelude.{
  ℕ, zero, suc, ◌+◌, ◌-◌, ◌*◌, ◌/◌, ◌%◌, ◌^◌, Bool, true, false, not, ◌&&◌, ◌||◌, List, [], ◌∷◌,
  ◌++◌, Option, none, some, Text, length, ltb, leb, ◌==◌, if◌then◌else◌,
}
use zown.Prelude.Int.{ℤ, pos, negsuc}

-- `neg` only for a value below zero; no limb of value zero at the end of `d`.
pub record BigInt : Type 0 where
  pub neg : Bool
  pub d : List ℕ

abbrev pub u32 : ℕ → ℕ
u32 n = n % 2 ^ 32

abbrev pub u64 : ℕ → ℕ
u64 n = n % 2 ^ 64

abbrev pub is_empty : List ℕ → Bool
is_empty [] = true
is_empty (x ∷ xs) = false

abbrev pub zero_int : BigInt
zero_int = record { neg = false; d = [] }

unfoldable pub from_u64 : ℕ → BigInt
from_u64 n =
    let lo = u32 n in
    let hi = u32 (n / 2 ^ 32) in
    if n == 0
    then zero_int
    else record { neg = false; d = if hi == 0 then lo ∷ [] else lo ∷ hi ∷ [] }

abbrev pub is_zero : BigInt → Bool
is_zero a = is_empty a.d

unfoldable pub negate : BigInt → BigInt
negate a = if is_zero a then zero_int else record { neg = not a.neg; d = a.d }

unfoldable pub abs : BigInt → BigInt
abs a = record { neg = false; d = a.d }

-- `negsuc k` is `-(k + 1)`, and `i64::MIN` is `negsuc (2 ^ 63 - 1)`.
unfoldable pub from_i64 : ℤ → BigInt
from_i64 (pos n) = from_u64 n
from_i64 (negsuc k) =
    if k == 2 ^ 63 - 1 then negate (from_u64 (2 ^ 63)) else negate (from_u64 (k + 1))

-- `32 - x.leading_zeros()`: the binary digits of `x`, `f` at most
unfoldable pub width : ℕ → ℕ → ℕ
width zero x = 0
width (suc f) x = let more = width f (x / 2) in if x == 0 then 0 else suc more

abbrev pub last : ℕ → List ℕ → ℕ
last x [] = x
last x (y ∷ ys) = last y ys

unfoldable pub bit_len : List ℕ → ℕ
bit_len [] = 0
bit_len (x ∷ xs) = u32 (u32 (u32 (length (x ∷ xs)) - 1) * 32 + width 32 (last x xs))

-- `lo | hi << 32` is written as a sum: the two have no bit in common.
unfoldable pub mag_u64 : List ℕ → Option ℕ
mag_u64 [] = some 0
mag_u64 (lo ∷ []) = if ltb 64 (bit_len (lo ∷ [])) then none else some lo
mag_u64 (lo ∷ hi ∷ []) = if ltb 64 (bit_len (lo ∷ hi ∷ [])) then none else some (lo + hi * 2 ^ 32)
mag_u64 _ = none

abbrev pub i64_of_mag : Bool → ℕ → Option ℤ
i64_of_mag true m =
    if m == 2 ^ 63
    then some (negsuc (2 ^ 63 - 1))
    else if ltb m (2 ^ 63)
    then some (if m == 0 then pos 0 else negsuc (m - 1))
    else none
i64_of_mag false m = if ltb m (2 ^ 63) then some (pos m) else none

abbrev pub i64_of : Bool → Option ℕ → Option ℤ
i64_of n none = none
i64_of n (some m) = i64_of_mag n m

unfoldable pub to_i64 : BigInt → Option ℤ
to_i64 a = i64_of a.neg (mag_u64 a.d)

abbrev pub u32_of : Option ℕ → Option ℕ
u32_of none = none
u32_of (some m) = if ltb (2 ^ 32 - 1) m then none else some (u32 m)

unfoldable pub to_u32 : BigInt → Option ℕ
to_u32 a = if a.neg then none else u32_of (mag_u64 a.d)

-- `d.get(0)`, or 0, and what stands behind it
abbrev pub limb : List ℕ → ℕ
limb [] = 0
limb (x ∷ xs) = x

abbrev pub others : List ℕ → List ℕ
others [] = []
others (x ∷ xs) = xs

-- `while d.last() == Some(&0) { d.pop() }`
unfoldable pub normalize : List ℕ → List ℕ
normalize [] = []
normalize (x ∷ xs) = let rest = normalize xs in if x == 0 && is_empty rest then [] else x ∷ rest

-- the limbs from the highest of `xs` down, the first that differ decide
unfoldable pub cmp_limbs : List ℕ → List ℕ → Ordering
cmp_limbs [] ys = eq
cmp_limbs (x ∷ xs) ys = elim (cmp_limbs xs (others ys)) [ eq ↦ compare x (limb ys) | o ↦ o ]

unfoldable pub cmp_mag : List ℕ → List ℕ → Ordering
cmp_mag xs ys = elim (compare (bit_len xs) (bit_len ys)) [ eq ↦ cmp_limbs xs ys | o ↦ o ]

-- the loop of `add_mag`, and the limb of a last carry
unfoldable pub add_loop : ℕ → List ℕ → List ℕ → List ℕ
add_loop carry [] [] = if carry == 0 then [] else u32 carry ∷ []
add_loop carry [] (y ∷ ys) = let s = u64 (0 + y + carry) in u32 s ∷ add_loop (s / 2 ^ 32) [] ys
add_loop carry (x ∷ xs) [] = let s = u64 (x + 0 + carry) in u32 s ∷ add_loop (s / 2 ^ 32) xs []
add_loop carry (x ∷ xs) (y ∷ ys) =
    let s = u64 (x + y + carry) in u32 s ∷ add_loop (s / 2 ^ 32) xs ys

unfoldable pub add_mag : List ℕ → List ℕ → List ℕ
add_mag xs ys = add_loop 0 xs ys

-- the loop of `sub_mag`; `diff < 0` is `x < y + borrow`
unfoldable pub sub_loop : ℕ → List ℕ → List ℕ → List ℕ
sub_loop borrow [] ys = []
sub_loop borrow (x ∷ xs) ys =
    let y = limb ys in
    let less = ltb x (y + borrow) in
    (if less then x + 2 ^ 32 - (y + borrow) else x - (y + borrow))
    ∷ sub_loop (if less then 1 else 0) xs (others ys)

unfoldable pub sub_mag : List ℕ → List ℕ → List ℕ
sub_mag xs ys = normalize (sub_loop 0 xs ys)

-- `r.neg = neg && !r.is_zero()`
abbrev pub signed : Bool → List ℕ → BigInt
signed neg d = record { neg = neg && not (is_empty d); d = d }

abbrev pub same_sign : Bool → Bool → Bool
same_sign true b = b
same_sign false b = not b

abbrev pub is_lt : Ordering → Bool
is_lt lt = true
is_lt _ = false

unfoldable pub add : BigInt → BigInt → BigInt
add a b =
    if same_sign a.neg b.neg
    then signed a.neg (add_mag a.d b.d)
    else if not (is_lt (cmp_mag a.d b.d))
    then signed a.neg (sub_mag a.d b.d)
    else signed b.neg (sub_mag b.d a.d)

unfoldable pub sub : BigInt → BigInt → BigInt
sub a b = add a (negate b)

-- `Ord::cmp`
abbrev pub cmp_by : Bool → Bool → List ℕ → List ℕ → Ordering
cmp_by true false xs ys = lt
cmp_by false true xs ys = gt
cmp_by false false xs ys = cmp_mag xs ys
cmp_by true true xs ys = cmp_mag ys xs

unfoldable pub cmp : BigInt → BigInt → Ordering
cmp a b = cmp_by a.neg b.neg a.d b.d

-- the loop of `mul_u32`
unfoldable pub mul_u32_loop : ℕ → ℕ → List ℕ → List ℕ
mul_u32_loop m carry [] = if carry == 0 then [] else u32 carry ∷ []
mul_u32_loop m carry (x ∷ xs) =
    let t = u64 (x * m + carry) in u32 t ∷ mul_u32_loop m (t / 2 ^ 32) xs

unfoldable pub mul_u32 : BigInt → ℕ → BigInt
mul_u32 a m =
    if is_zero a || m == 0 then zero_int else record { neg = a.neg; d = mul_u32_loop m 0 a.d }

-- the loop of `divmod_u32`, from the highest limb down: the quotient's limbs and the remainder
unfoldable pub divmod_u32_loop : ℕ → List ℕ → List ℕ × ℕ
divmod_u32_loop m [] = ([], 0)
divmod_u32_loop m (x ∷ xs) =
    let (q, rem) = divmod_u32_loop m xs in
    let cur = u64 (rem * 2 ^ 32 + x) in (u32 (cur / m) ∷ q, cur % m)

unfoldable pub divmod_u32 : BigInt → ℕ → BigInt × ℕ
divmod_u32 a m =
    let (q, rem) = divmod_u32_loop m a.d in (record { neg = false; d = normalize q }, u32 rem)
