-- ===== src/Coll/Trie/Branches.antt =====
-- The sorted branches of a walk, and what is in them.
use zown.Prelude.{◌≡◌, List, [], ◌∷◌, ◌++◌, Text, ltb, Bool-cases, ◌⊎◌, inl, inr, All}
use zown.Coll.Rows.{All-append}
use zown.Coll.Trie.{Branch, sort_in, sort_branches, gather}

abbrev pub In : {A : Type 0} → A → List A → Type 0
In s [] = ⊥
In s (x ∷ xs) = (x ≡ s) ⊎ In s xs

module _ {A : Type 0} where
  pub In-left : (s : A) (xs ys : List A) → In s xs → In s (xs ++ ys)
  In-left s [] ys h = absurd h
  In-left s (x ∷ xs) ys (inl e) = inl e
  In-left s (x ∷ xs) ys (inr h) = inr (In-left s xs ys h)

  pub In-right : (s : A) (xs ys : List A) → In s ys → In s (xs ++ ys)
  In-right s [] ys h = h
  In-right s (x ∷ xs) ys h = inr (In-right s xs ys h)

module _ {ℓ} (P : Branch → Type ℓ) where
  pub All-sort_in : (b : Branch) (bs : List Branch) → P b → All P bs → All P (sort_in b bs)
  All-sort_in b [] p h = (p, h)
  All-sort_in b (c ∷ cs) p h = elim (Bool-cases (ltb c.0 b.0)) [
    | inl t ↦ rw t (h.0, All-sort_in b cs p h.1)
    | inr f ↦ rw f (p, h)
  ]

  pub All-sort : (bs : List Branch) → All P bs → All P (sort_branches bs)
  All-sort [] h = tt
  All-sort (b ∷ bs) h = All-sort_in b (sort_branches bs) h.0 (All-sort bs h.1)

pub In-swap :
    (x b c : Branch) (rest cs : List Branch)
    → (In x (b ∷ cs) → In x rest)
    → In x (b ∷ c ∷ cs)
    → In x (c ∷ rest)
In-swap x b c rest cs next (inl e) = inr (next (inl e))
In-swap x b c rest cs next (inr (inl e)) = inl e
In-swap x b c rest cs next (inr (inr i)) = inr (next (inr i))

pub In-sort_in : (x b : Branch) (bs : List Branch) → In x (b ∷ bs) → In x (sort_in b bs)
In-sort_in x b [] h = h
In-sort_in x b (c ∷ cs) h = elim (Bool-cases (ltb c.0 b.0)) [
  | inl t ↦ rw t (In-swap x b c (sort_in b cs) cs (In-sort_in x b cs) h)
  | inr f ↦ rw f h
]

pub In-sort : (x : Branch) (bs : List Branch) → In x bs → In x (sort_branches bs)
In-sort x [] h = h
In-sort x (b ∷ bs) (inl e) = In-sort_in x b (sort_branches bs) (inl e)
In-sort x (b ∷ bs) (inr i) = In-sort_in x b (sort_branches bs) (inr (In-sort x bs i))

pub All-gather {ℓ} :
    (P : Text → Type ℓ) (bs : List Branch) → All (λ b. All P b.1) bs → All P (gather bs)
All-gather P [] h = tt
All-gather P (b ∷ bs) h = All-append P b.1 (gather bs) h.0 (All-gather P bs h.1)

pub In-gather : (s : Text) (b : Branch) (bs : List Branch) → In b bs → In s b.1 → In s (gather bs)
In-gather s b [] i h = absurd i
In-gather s b (c ∷ bs) (inl e) h = In-left s c.1 (gather bs) (rw e h)
In-gather s b (c ∷ bs) (inr i) h = In-right s c.1 (gather bs) (In-gather s b bs i h)
