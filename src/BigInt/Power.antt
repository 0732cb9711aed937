-- ===== src/BigInt/Power.antt =====
-- zownc/crates/zown-vm/src/bigint.rs: `pow_u32`.
use zown.Prelude.{
  ℕ, zero, suc, ◌+◌, ◌*◌, ◌/◌, ◌%◌, ◌^◌, ◌<◌, ◌≡◌, refl, Bool, true, false, arith, ap, sym, ◌∙◌,
  Option, some, none, ltb, ◌==◌, if◌then◌else◌, Bool-cases, inl, inr,
}
use native.Mathlib.Nat.{mul_assoc}
use zown.Prelude.Int.{ℤ, pos, negsuc, ◌*ℤ◌}
use zown.BigInt.{BigInt, from_u64}
use zown.BigInt.Limbs.{mag}
use zown.BigInt.Signed.{IsValid, value, with_sign}
use zown.BigInt.Product.{mul, differ}
use zown.BigInt.Product.Value.{mul_lem, with_sign-mul}

unfoldable pub one : BigInt
one = from_u64 1

abbrev pub both : Option BigInt → Option BigInt → (BigInt → BigInt → Option BigInt) → Option BigInt
both none b k = none
both (some a) none k = none
both (some a) (some b) k = k a b

-- the `while` loop; `none` is a panic of `mul`, or the fuel run out
unfoldable pub pow_loop : ℕ → ℕ → BigInt → BigInt → Option BigInt
pow_loop zero exp result base = if exp == 0 then some result else none
pow_loop (suc f) exp result base =
    let half = exp / 2 in
    let rest =
      both (if exp % 2 == 1 then mul result base else some result)
        (if ltb 0 half then mul base base else some base) (λ r b. pow_loop f half r b) in
    if exp == 0 then some result else rest

-- A `u32` is halved 32 times at most.
unfoldable pub pow_u32 : BigInt → ℕ → Option BigInt
pow_u32 a exp = if exp == 0 then some one else pow_loop 32 exp one a

unfoldable pub powℤ : ℤ → ℕ → ℤ
powℤ x zero = pos 1
powℤ x (suc n) = x *ℤ powℤ x n

sign_of : (x : ℤ) → (s : Bool) × (i : ℕ) × (x ≡ with_sign s i)
sign_of (pos n) = (false, n, refl)
sign_of (negsuc n) = (true, suc n, ground arith)

differ_assoc : (s t u : Bool) → differ (differ s t) u ≡ differ s (differ t u)
differ_assoc true true true = refl
differ_assoc true true false = refl
differ_assoc true false u = refl
differ_assoc false t u = refl

*ℤ_assoc : (x y z : ℤ) → x *ℤ y *ℤ z ≡ x *ℤ (y *ℤ z)
*ℤ_assoc x y z =
    let (s, i, p) = sign_of x in
    let (t, j, q) = sign_of y in
    let (u, k, r) = sign_of z in
    rw (p, q, r)
      (ap (λ v. v *ℤ with_sign u k) (sym (with_sign-mul s t i j))
        ∙ sym (with_sign-mul (differ s t) u (i * j) k)
        ∙ ap (λ v. with_sign v (i * j * k)) (differ_assoc s t u)
        ∙ ap (λ v. with_sign (differ s (differ t u)) v) (mul_assoc i j k)
        ∙ with_sign-mul s (differ t u) i (j * k)
        ∙ ap (λ v. with_sign s i *ℤ v) (with_sign-mul t u j k))

*ℤ_one : (x : ℤ) → x *ℤ pos 1 ≡ x
unfolding ◌*ℤ◌
*ℤ_one x = ground arith

one-*ℤ : (x : ℤ) → pos 1 *ℤ x ≡ x
unfolding ◌*ℤ◌
one-*ℤ x = ground arith

powℤ_add : (x : ℤ) (m n : ℕ) → powℤ x (m + n) ≡ powℤ x m *ℤ powℤ x n
unfolding powℤ
powℤ_add x zero n = ap (powℤ x) zero_add ∙ sym (one-*ℤ (powℤ x n))
  where
    zero_add : 0 + n ≡ n
    zero_add = omega arith
powℤ_add x (suc m) n =
    ap (powℤ x) suc_add ∙ ap (λ v. x *ℤ v) (powℤ_add x m n) ∙ sym (*ℤ_assoc x (powℤ x m) (powℤ x n))
  where
    suc_add : suc m + n ≡ suc (m + n)
    suc_add = omega arith

powℤ-square : (x : ℤ) (k : ℕ) → powℤ (x *ℤ x) k ≡ powℤ x (k + k)
unfolding powℤ
powℤ-square x zero = refl
powℤ-square x (suc k) =
    ap (λ v. x *ℤ x *ℤ v) (powℤ-square x k) ∙ *ℤ_assoc x x (powℤ x (k + k)) ∙ ap (powℤ x) twice
  where
    twice : suc (suc (k + k)) ≡ suc k + suc k
    twice = omega arith

one-IsValid : IsValid one
unfolding one from_u64 mag
one-IsValid = record {
  magnitude = record { limbs = (omega arith, tt); trimmed = (omega arith, tt) };
  sign = λ e. cc;
}

one_lem : value one ≡ pos 1
unfolding one from_u64 mag
one_lem = refl

-- the two products of a round
result_lem :
    (r b : BigInt) (bit : ℕ)
    → bit < 2
    → IsValid r
    → IsValid b
    → (c : BigInt) × ((if bit == 1 then mul r b else some r) ≡ some c)
      × IsValid c
      × (value c ≡ value r *ℤ powℤ (value b) bit)
unfolding powℤ
result_lem r b zero h u v = (r, refl, u, sym (*ℤ_one (value r)))
result_lem r b (suc zero) h u v =
    let (c, e, w, p) = mul_lem r b u v in
    (c, e, w, p ∙ ap (λ x. value r *ℤ x) (sym (*ℤ_one (value b))))
result_lem r b (suc (suc n)) h u v = absurd (omega (arith, h))

positive : (n : ℕ) → ltb 0 (suc n) ≡ true
positive n = ground arith

base_lem :
    (b : BigInt) (half : ℕ)
    → IsValid b
    → (c : BigInt) × ((if ltb 0 half then mul b b else some b) ≡ some c)
      × IsValid c
      × (powℤ (value c) half ≡ powℤ (value b) (half + half))
base_lem b zero v = (b, refl, v, refl)
base_lem b (suc n) v =
    let (c, e, w, p) = mul_lem b b v v in
    (c, rw (positive n) e, w, ap (λ x. powℤ x (suc n)) p ∙ powℤ-square (value b) (suc n))

-- a round multiplies by the last bit's power and squares for the others
round_value :
    (r r' b b' : ℤ) (exp : ℕ)
    → r' ≡ r *ℤ powℤ b (exp % 2)
    → powℤ b' (exp / 2) ≡ powℤ b (exp / 2 + exp / 2)
    → r' *ℤ powℤ b' (exp / 2) ≡ r *ℤ powℤ b exp
round_value r r' b b' exp p q =
    let bits : exp % 2 + (exp / 2 + exp / 2) ≡ exp = omega arith in
    ap (λ x. x *ℤ powℤ b' (exp / 2)) p
    ∙ ap (λ x. r *ℤ powℤ b (exp % 2) *ℤ x) q
    ∙ *ℤ_assoc r (powℤ b (exp % 2)) (powℤ b (exp / 2 + exp / 2))
    ∙ ap (λ x. r *ℤ x) (sym (powℤ_add b (exp % 2) (exp / 2 + exp / 2)) ∙ ap (powℤ b) bits)

pow_loop_lem :
    (f exp : ℕ) (r b : BigInt)
    → exp < 2 ^ f
    → IsValid r
    → IsValid b
    → (c : BigInt) × (pow_loop f exp r b ≡ some c)
      × IsValid c
      × (value c ≡ value r *ℤ powℤ (value b) exp)
unfolding pow_loop powℤ
pow_loop_lem zero exp r b h u v =
    let none_left : exp ≡ 0 = omega (arith, h) in
    (r, rw none_left refl, u, rw none_left (sym (*ℤ_one (value r))))
pow_loop_lem (suc f) exp r b h u v = elim (Bool-cases (exp == 0)) [
  | inl t ↦
      let none_left : exp ≡ 0 = ground arith in
      (r, rw t refl, u, rw none_left (sym (*ℤ_one (value r))))
  | inr n ↦
      let (r', e, u', p) = result_lem r b (exp % 2) (omega arith) u v in
      let (b', d, v', q) = base_lem b (exp / 2) v in
      let (c, k, w, s) = pow_loop_lem f (exp / 2) r' b' (omega (arith, h)) u' v' in
      (c, rw (n, e, d) k, w, s ∙ round_value (value r) (value r') (value b) (value b') exp p q)
]

-- Of a well-formed base and an exponent in u32, `pow_u32` gives the power within the fuel, as a
-- well-formed number that stands for the repeated product.
pub pow_u32_lem :
    (a : BigInt) (exp : ℕ)
    → IsValid a
    → exp < 2 ^ 32
    → (c : BigInt) × (pow_u32 a exp ≡ some c) × IsValid c × (value c ≡ powℤ (value a) exp)
unfolding pow_u32 powℤ
pow_u32_lem a exp v h = elim (Bool-cases (exp == 0)) [
  | inl t ↦
      let none_left : exp ≡ 0 = ground arith in
      (one, rw t refl, one-IsValid, one_lem ∙ ap (powℤ (value a)) (sym none_left))
  | inr n ↦
      let (c, e, w, p) = pow_loop_lem 32 exp one a h one-IsValid v in
      (c, rw n e, w, p ∙ ap (λ x. x *ℤ powℤ (value a) exp) one_lem ∙ one-*ℤ (powℤ (value a) exp))
]
