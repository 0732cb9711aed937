-- ===== src/Coll/Arrays.antt =====
-- Coll: vectors that are read and written by index. `at` and `put` are total, for the proofs.
use mathlib.Core.List.{Perm}
use mathlib.Core.List.Perm
use zown.Prelude.{
  ℕ, zero, suc, ◌<◌, ◌≡◌, refl, ap, ◌∙◌, List, [], ◌∷◌, ◌++◌, Option, some, arith, length,
  get_elem?, ◌==◌, if◌then◌else◌, ◌>>=◌,
}
use zown.Buf.{set_elem?}

abbrev pub at {ℓ} : {A : Type ℓ} → A → List A → ℕ → A
at d [] i = d
at d (x ∷ xs) zero = x
at d (x ∷ xs) (suc i) = at d xs i

abbrev pub put {ℓ} : {A : Type ℓ} → List A → ℕ → A → List A
put [] i y = []
put (x ∷ xs) zero y = y ∷ xs
put (x ∷ xs) (suc i) y = x ∷ put xs i y

-- `xs.swap(i, j)`; `none` past the end
unfoldable pub swap {ℓ} : {A : Type ℓ} → List A → ℕ → ℕ → Option (List A)
swap xs i j = do x ← get_elem? xs i; y ← get_elem? xs j; ys ← set_elem? xs i y; set_elem? ys j x

unfoldable pub swapped {ℓ} : {A : Type ℓ} → A → List A → ℕ → ℕ → List A
swapped d xs i j = put (put xs i (at d xs j)) j (at d xs i)

pub get_elem?-at {ℓ} :
    {A : Type ℓ} (d : A) (xs : List A) (i : ℕ) → i < length xs → get_elem? xs i ≡ some (at d xs i)
get_elem?-at d [] i h = absurd (omega arith)
get_elem?-at d (x ∷ xs) zero h = refl
get_elem?-at d (x ∷ xs) (suc i) h = get_elem?-at d xs i (omega arith)

pub set_elem?-put {ℓ} :
    {A : Type ℓ} (xs : List A) (i : ℕ) (y : A)
    → i < length xs
    → set_elem? xs i y ≡ some (put xs i y)
unfolding set_elem?
set_elem?-put [] i y h = absurd (omega arith)
set_elem?-put (x ∷ xs) zero y h = refl
set_elem?-put (x ∷ xs) (suc i) y h = rw (set_elem?-put xs i y (omega arith)) refl

pub length-put {ℓ} : {A : Type ℓ} (xs : List A) (i : ℕ) (y : A) → length (put xs i y) ≡ length xs
length-put [] i y = refl
length-put (x ∷ xs) zero y = refl
length-put (x ∷ xs) (suc i) y = ap suc (length-put xs i y)

pub at-put {ℓ} :
    {A : Type ℓ} (d : A) (xs : List A) (i j : ℕ) (y : A)
    → i < length xs
    → at d (put xs i y) j ≡ (if i == j then y else at d xs j)
at-put d [] i j y h = absurd (omega arith)
at-put d (x ∷ xs) zero zero y h = refl
at-put d (x ∷ xs) zero (suc j) y h = ground arith
at-put d (x ∷ xs) (suc i) zero y h = ground arith
at-put d (x ∷ xs) (suc i) (suc j) y h = ground (arith, at-put d xs i j y)

-- the element that is written takes the place of the one that was there
put-Perm {ℓ} :
    {A : Type ℓ} (d : A) (xs : List A) (i : ℕ) (y : A)
    → i < length xs
    → Perm (at d xs i ∷ put xs i y) (y ∷ xs)
put-Perm d [] i y h = absurd (omega arith)
put-Perm d (x ∷ xs) zero y h = Perm.swap y x xs
put-Perm d (x ∷ xs) (suc i) y h =
    Perm.trans (Perm.swap x _ _)
      (Perm.trans (Perm.cons x (put-Perm d xs i y (omega arith))) (Perm.swap y x xs))

pub length-swapped {ℓ} :
    {A : Type ℓ} (d : A) (xs : List A) (i j : ℕ) → length (swapped d xs i j) ≡ length xs
unfolding swapped
length-swapped d xs i j = length-put _ j _ ∙ length-put xs i _

module _ {ℓ} {A : Type ℓ} (d : A) (xs : List A) (i j : ℕ) (hi : i < length xs)
    (hj : j < length xs) where
  pub swap-swapped : swap xs i j ≡ some (swapped d xs i j)
  unfolding swap swapped
  swap-swapped =
      rw (get_elem?-at d xs i hi, get_elem?-at d xs j hj, set_elem?-put xs i (at d xs j) hi)
        (set_elem?-put _ j _ (omega (arith, hj, length-put xs i (at d xs j))))

  pub at-swapped :
      (c : ℕ)
      → at d (swapped d xs i j) c
        ≡ (if j == c then at d xs i else if i == c then at d xs j else at d xs c)
  unfolding swapped
  at-swapped c =
      rw
        (
          at-put d (put xs i (at d xs j)) j c (at d xs i)
              (omega (arith, hj, length-put xs i (at d xs j))),
          at-put d xs i c (at d xs j) hi,
        )
        refl

  pub swapped-Perm : Perm (swapped d xs i j) xs
  unfolding swapped
  swapped-Perm =
      let ys = put xs i (at d xs j) in
      let same : at d ys j ≡ at d xs j = ground (arith, at-put d xs i j (at d xs j) hi) in
      let back =
        rw same at (put-Perm d ys j (at d xs i) (omega (arith, hj, length-put xs i (at d xs j)))) in
      Perm.cons_inv (Perm.trans back (put-Perm d xs i (at d xs j) hi))

pub at-append {ℓ} :
    {A : Type ℓ} (d : A) (xs ys : List A) (i : ℕ) → i < length xs → at d (xs ++ ys) i ≡ at d xs i
at-append d [] ys i h = absurd (omega arith)
at-append d (x ∷ xs) ys zero h = refl
at-append d (x ∷ xs) ys (suc i) h = at-append d xs ys i (omega arith)

pub at-append_length {ℓ} :
    {A : Type ℓ} (d : A) (xs : List A) (y : A) → at d (xs ++ y ∷ []) (length xs) ≡ y
at-append_length d [] y = refl
at-append_length d (x ∷ xs) y = at-append_length d xs y
