-- ===== src/Coll/Trie/Walk.antt =====
-- The walk of a trie: the texts that it has.
use mathlib.Core.Path.{subst}
use zown.Prelude.{
  ℕ, ◌≡◌, refl, ap, sym, ◌∙◌, Bool, true, false, List, [], ◌∷◌, ◌++◌, Text, none, arith, ◌==◌,
  if◌then◌else◌, inl, inr, All, eq-or-ne, append-nil,
}
use zown.Coll.Store.{TNode, tnode, TNodes, no_kids, kid}
use zown.Coll.Trie.{kid_of, or_false, trie_has, Branch, sort_branches, gather, trie_walk, walk_kids}
use zown.Coll.Trie.Form.{IsTrie, AreTries}
use zown.Coll.Trie.Branches.{In, All-sort, In-sort, All-gather, In-gather}

-- a text that the trie has below the prefix
abbrev pub Walked : TNode → Text → Text → Type 0
Walked t prefix s = (j : Text) × (s ≡ prefix ++ j) × (trie_has j t ≡ true)

-- the same with the first character
abbrev Below : TNodes → Text → Text → Type 0
Below kids prefix s =
    (c : ℕ) × (j : Text) × (s ≡ prefix ++ c ∷ j) × (or_false (kid_of kids c) (trie_has j) ≡ true)

append-one : (s : Text) (c : ℕ) (j : Text) → (s ++ c ∷ []) ++ j ≡ s ++ c ∷ j
append-one [] c j = refl
append-one (d ∷ s) c j = ap (λ t. d ∷ t) (append-one s c j)

All-map {ℓ κ μ} :
    {A : Type ℓ} {P : A → Type κ} {Q : A → Type μ} (xs : List A)
    → ((x : A) → P x → Q x)
    → All P xs
    → All Q xs
All-map [] f h = tt
All-map (x ∷ xs) f h = (f x h.0, All-map xs f h.1)

-- what is below a child is below the node
first-Below :
    (c : ℕ) (t : TNode) (ts : TNodes) (prefix s : Text)
    → Walked t (prefix ++ c ∷ []) s
    → Below (kid c t ts) prefix s
first-Below c t ts prefix s (j, e, h) =
    let same : (c == c) ≡ true = ground arith in (c, j, e ∙ append-one prefix c j, rw same h)

later-Below :
    (c : ℕ) (t : TNode) (ts : TNodes) (prefix s : Text)
    → kid_of ts c ≡ none
    → Below ts prefix s
    → Below (kid c t ts) prefix s
later-Below c t ts prefix s fresh (d, j, e, h) = elim (eq-or-ne c d) [
  | inl same ↦ let no : false ≡ true = rw (sym same, fresh) at h in absurd (cc)
  | inr n ↦ let other : (c == d) ≡ false = ground arith in (d, j, e, rw other h)
]

with_end-Walked :
    (kids : TNodes) (end : Bool) (prefix : Text) (below : List Text)
    → All (Below kids prefix) below
    → All (Walked (tnode kids end) prefix) (if end then prefix ∷ below else below)
unfolding trie_has
with_end-Walked kids true prefix below h =
    (([], sym (append-nil prefix), refl), All-map below (λ s w. (w.0 ∷ w.1, w.2, w.3)) h)
with_end-Walked kids false prefix below h = All-map below (λ s w. (w.0 ∷ w.1, w.2, w.3)) h

mutual
  unfolding trie_walk IsTrie trie_has

  trie_walk-Walked :
      (t : TNode) (prefix : Text) → IsTrie t → All (Walked t prefix) (trie_walk t prefix)
  trie_walk-Walked (tnode kids end) prefix h =
      with_end-Walked kids end prefix (gather (sort_branches (walk_kids kids prefix))) (
        All-gather (Below kids prefix) (sort_branches (walk_kids kids prefix)) (
          All-sort (λ b. All (Below kids prefix) b.1) (walk_kids kids prefix)
            (walk_kids-Below kids prefix h)))

  walk_kids-Below :
      (kids : TNodes) (prefix : Text)
      → AreTries kids
      → All (λ b. All (Below kids prefix) b.1) (walk_kids kids prefix)
  walk_kids-Below no_kids prefix h = tt
  walk_kids-Below (kid c t ts) prefix h = (
    All-map (trie_walk t (prefix ++ c ∷ [])) (λ s. first-Below c t ts prefix s)
        (trie_walk-Walked t (prefix ++ c ∷ []) h.1),
    All-map (walk_kids ts prefix) (λ b. All-map b.1 (λ s. later-Below c t ts prefix s h.0))
        (walk_kids-Below ts prefix h.2),
  )

with_end-In :
    (end : Bool) (s prefix : Text) (below : List Text)
    → In s below
    → In s (if end then prefix ∷ below else below)
with_end-In true s prefix below i = inr i
with_end-In false s prefix below i = i

mutual
  unfolding trie_walk trie_has

  trie_walk-In :
      (t : TNode) (prefix j : Text) → trie_has j t ≡ true → In (prefix ++ j) (trie_walk t prefix)
  trie_walk-In (tnode kids end) prefix [] h = rw h (inl (sym (append-nil prefix)))
  trie_walk-In (tnode kids end) prefix (c ∷ j) h =
      let (b, i, inside) = walk_kids-In kids prefix c j h in
      with_end-In end (prefix ++ c ∷ j) prefix (gather (sort_branches (walk_kids kids prefix))) (
        In-gather (prefix ++ c ∷ j) b (sort_branches (walk_kids kids prefix))
          (In-sort b (walk_kids kids prefix) i) inside)

  walk_kids-In :
      (kids : TNodes) (prefix : Text) (c : ℕ) (j : Text)
      → or_false (kid_of kids c) (trie_has j) ≡ true
      → (b : Branch) × In b (walk_kids kids prefix) × In (prefix ++ c ∷ j) b.1
  walk_kids-In no_kids prefix c j h = absurd (cc)
  walk_kids-In (kid d t ts) prefix c j h = elim (eq-or-ne d c) [
    | inl same ↦
        let refl_c : (c == c) ≡ true = ground arith in
        let here : trie_has j t ≡ true = rw (same, refl_c) at h in
        (
          (d, trie_walk t (prefix ++ d ∷ [])),
          inl refl,
          subst (λ s. In s (trie_walk t (prefix ++ d ∷ [])))
              (append-one prefix d j ∙ ap (λ e. prefix ++ e ∷ j) same)
              (trie_walk-In t (prefix ++ d ∷ []) j here),
        )
    | inr n ↦
        let other : (d == c) ≡ false = ground arith in
        let (b, i, inside) = walk_kids-In ts prefix c j (rw other at h) in (b, inr i, inside)
  ]

-- Of a trie in which no node has a character twice, `trie_walk` gives, with the prefix in front, the
-- texts that `trie_has` finds, and no others.
pub trie_walk-trie_has :
    (t : TNode) (prefix : Text)
    → IsTrie t
    → All (Walked t prefix) (trie_walk t prefix)
      × ((j : Text) → trie_has j t ≡ true → In (prefix ++ j) (trie_walk t prefix))
trie_walk-trie_has t prefix h = (trie_walk-Walked t prefix h, trie_walk-In t prefix)
