-- ===== src/Coll/Trie/Form.antt =====
-- Tries in which no node has a character twice.
use zown.Prelude.{ℕ, ◌≡◌, refl, false, [], ◌∷◌, Text, none, some, arith, ◌==◌, Bool-cases, inl, inr}
use zown.Coll.Store.{TNode, tnode, TNodes, no_kids, kid}
use zown.Coll.Trie.{kid_of, new_node, entry, trie_put}

-- No node has a character twice.
unfoldable mutual
  pub IsTrie : TNode → Type 0
  IsTrie (tnode kids end) = AreTries kids

  pub AreTries : TNodes → Type 0
  AreTries no_kids = Unit
  AreTries (kid c t ts) = (kid_of ts c ≡ none) × IsTrie t × AreTries ts

-- no node has a character twice after `trie_put`
kid_of-entry_new :
    (kids : TNodes) (ch d : ℕ) (change : TNode → TNode)
    → (d == ch) ≡ false
    → kid_of kids d ≡ none
    → kid_of (entry kids ch change) d ≡ none
kid_of-entry_new no_kids ch d change n h =
    let other : (ch == d) ≡ false = ground arith in rw other refl
kid_of-entry_new (kid c t ts) ch d change n h = elim (Bool-cases (c == d)) [
  | inl e ↦ let no : some t ≡ none = rw e at h in absurd (cc)
  | inr e ↦ elim (Bool-cases (c == ch)) [
    | inl g ↦ rw (g, e) (rw e at h)
    | inr g ↦ rw (g, e) (kid_of-entry_new ts ch d change n (rw e at h))
  ]
]

pub new_node-IsTrie : IsTrie new_node
unfolding IsTrie
new_node-IsTrie = tt

entry-AreTries :
    (kids : TNodes) (ch : ℕ) (change : TNode → TNode)
    → ((t : TNode) → IsTrie t → IsTrie (change t))
    → AreTries kids
    → AreTries (entry kids ch change)
unfolding IsTrie
entry-AreTries no_kids ch change keep h = (refl, keep new_node new_node-IsTrie, tt)
entry-AreTries (kid c t ts) ch change keep h = elim (Bool-cases (c == ch)) [
  | inl e ↦ rw e (h.0, keep t h.1, h.2)
  | inr e ↦ rw e (kid_of-entry_new ts ch c change e h.0, h.1, entry-AreTries ts ch change keep h.2)
]

pub trie_put-IsTrie : (key : Text) (t : TNode) → IsTrie t → IsTrie (trie_put key t)
unfolding IsTrie trie_put
trie_put-IsTrie [] (tnode kids end) h = h
trie_put-IsTrie (ch ∷ key) (tnode kids end) h =
    entry-AreTries kids ch (trie_put key) (λ t. trie_put-IsTrie key t) h
