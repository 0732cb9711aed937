-- ===== src/Buf/Lists.antt =====
-- Buf: lists written at an index, and predicates on all their elements.
use zown.Prelude.{
  none, ◌⊎◌, inl, inr, ℕ, zero, suc, ◌<◌, ◌≡◌, ◌≢◌, refl, ap, List, [], ◌∷◌, ◌++◌, some, length,
  get_elem?, All, arith,
}
use zown.Buf.{zeroed, set_elem?}

pub length-zeroed : (n : ℕ) → length (zeroed n) ≡ n
length-zeroed zero = refl
length-zeroed (suc n) = omega (arith, length-zeroed n)

pub zeroed-bytes : (n : ℕ) → All (λ b. b < 256) (zeroed n)
zeroed-bytes zero = tt
zeroed-bytes (suc n) = (omega arith, zeroed-bytes n)

pub All-snoc {ℓ κ} :
    {A : Type ℓ} (P : A → Type κ) (xs : List A) (x : A) → All P xs → P x → All P (xs ++ x ∷ [])
All-snoc P [] x a p = (p, tt)
All-snoc P (y ∷ ys) x a p = (a.0, All-snoc P ys x a.1 p)

-- An index of a list with one more element is its last, or is as before.
pub get-snoc {ℓ} :
    {A : Type ℓ} (xs : List A) (x : A) (i : ℕ)
    → ((i ≡ length xs) × (get_elem? xs i ≡ none) × (get_elem? (xs ++ x ∷ []) i ≡ some x))
      ⊎ ((i ≢ length xs) × (get_elem? (xs ++ x ∷ []) i ≡ get_elem? xs i))
get-snoc [] x zero = inl (refl, refl, refl)
get-snoc [] x (suc i) = inr (λ e. omega (arith, e), refl)
get-snoc (y ∷ xs) x zero = inr (λ e. omega (arith, e), refl)
get-snoc (y ∷ xs) x (suc i) = elim (get-snoc xs x i) [
  | inl h ↦ inl (ap suc h.0, h.1, h.2)
  | inr h ↦ inr (λ e. h.0 (omega (arith, e)), h.1)
]

pub get-All {ℓ κ} :
    {A : Type ℓ} (P : A → Type κ) (xs : List A) (i : ℕ)
    → All P xs
    → i < length xs
    → (x : A) × (get_elem? xs i ≡ some x) × P x
get-All P [] i a h = absurd (omega arith)
get-All P (x ∷ xs) zero a h = (x, refl, a.0)
get-All P (x ∷ xs) (suc i) a h = get-All P xs i a.1 (omega arith)

-- `set_elem?` in range: the list is written at the index alone.
pub set_elem?_lem {ℓ} :
    {A : Type ℓ} (xs : List A) (i : ℕ) (y : A)
    → i < length xs
    → (ys : List A) × (set_elem? xs i y ≡ some ys)
      × (length ys ≡ length xs)
      × (get_elem? ys i ≡ some y)
      × ((j : ℕ) → j ≢ i → get_elem? ys j ≡ get_elem? xs j)
      × ((P : A → Type 0) → P y → All P xs → All P ys)
unfolding set_elem?
set_elem?_lem [] i y h = absurd (omega arith)
set_elem?_lem (x ∷ xs) zero y h = (y ∷ xs, refl, refl, refl, others, λ P p a. (p, a.1))
  where
    others : (j : ℕ) → j ≢ 0 → get_elem? (y ∷ xs) j ≡ get_elem? (x ∷ xs) j
    others zero n = absurd (n refl)
    others (suc j) n = refl
set_elem?_lem (x ∷ xs) (suc i) y h =
    let (ys, e, l, g, o, a) = set_elem?_lem xs i y (omega arith) in
    (x ∷ ys, rw e refl, omega (arith, l), g, others ys o, λ P p q. (q.0, a P p q.1))
  where
    others :
        (ys : List _)
        → ((j : ℕ) → j ≢ i → get_elem? ys j ≡ get_elem? xs j)
        → (j : ℕ) → j ≢ suc i
        → get_elem? (x ∷ ys) j ≡ get_elem? (x ∷ xs) j
    others ys o zero n = refl
    others ys o (suc j) n = o j (λ e. n (ap suc e))
