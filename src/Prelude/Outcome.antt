-- ===== src/Prelude/Outcome.antt =====
-- What a run of a fallible routine gives.
use mathlib.Core.Path.{◌≡◌, subst}

-- `err` is an `Err` of the program. `panic` is an index out of range. `out_of_fuel` is no outcome of
-- the program: a loop of the model was cut off.
pub data Outcome {ℓ} (E : Type 0) (A : Type ℓ) : Type ℓ where
  ok : A → Outcome E A
  err : E → Outcome E A
  panic out_of_fuel : Outcome E A

module _ {ℓ κ} {E : Type 0} {A : Type ℓ} {B : Type κ} where
  infixl 5 ◌>>=◌
  abbrev pub ◌>>=◌ : Outcome E A → (A → Outcome E B) → Outcome E B
  panic >>= next = panic
  out_of_fuel >>= next = out_of_fuel
  err why >>= next = err why
  ok got >>= next = next got

  infixl 5 ◌>>◌
  abbrev pub ◌>>◌ : Outcome E A → Outcome E B → Outcome E B
  panic >> next = panic
  out_of_fuel >> next = out_of_fuel
  err why >> next = err why
  ok got >> next = next

-- The run ended, and `P` holds of its value if it gave one.
pub data Ends {ℓ κ} {E : Type 0} {A : Type ℓ} (P : A → Type κ) : Outcome E A → Type (ℓ ⊔ κ) where
  value : {a : A} → P a → Ends P (ok a)
  error : {e : E} → Ends P (err e)

module _ {ℓ κ} {E : Type 0} {A : Type ℓ} {P : A → Type κ} where
  pub Ends-map {μ} :
      {Q : A → Type μ} {m : Outcome E A} → ((a : A) → P a → Q a) → Ends P m → Ends Q m
  Ends-map k (value {a} h) = value (k a h)
  Ends-map k error = error

  pub Ends-ok : {m : Outcome E A} {a : A} → Ends P m → m ≡ ok a → P a
  Ends-ok (value h) e = subst P (cc) h
  Ends-ok error e = cc

  pub Ends-bind {ℓ' κ'} :
      {B : Type ℓ'} {Q : B → Type κ'} {m : Outcome E A} {f : A → Outcome E B}
      → Ends P m
      → ((a : A) → P a → Ends Q (f a))
      → Ends Q (m >>= f)
  Ends-bind (value {a} h) k = k a h
  Ends-bind error k = error

  pub Ends-seq {ℓ' κ'} :
      {B : Type ℓ'} {Q : B → Type κ'} {m : Outcome E A} {n : Outcome E B}
      → Ends P m
      → ((a : A) → P a → Ends Q n)
      → Ends Q (m >> n)
  Ends-seq (value {a} h) k = k a h
  Ends-seq error k = error
