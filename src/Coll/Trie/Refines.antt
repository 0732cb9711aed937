-- ===== src/Coll/Trie/Refines.antt =====
-- The trie as a set of texts.
use zown.Prelude.{
  eq-or-ne, ℕ, ◌≡◌, refl, ap, ◌∙◌, Bool, true, false, ◌||◌, [], ◌∷◌, ◌++◌, Text, text_eq, Option,
  none, some, arith, ◌==◌, if◌then◌else◌, Bool-cases, inl, inr,
}
use zown.Coll.Store.{TNode, tnode, TNodes, no_kids, kid}
use zown.Coll.Trie.{kid_of, new_node, entry, trie_put, or_false, trie_has, descend, onward}

-- a new node has no key
has-new_node : (j : Text) → trie_has j new_node ≡ false
unfolding trie_has
has-new_node [] = refl
has-new_node (c ∷ j) = refl

has-entry_self :
    (kids : TNodes) (ch : ℕ) (change : TNode → TNode) (f : TNode → Bool) (b : Bool)
    → ((t : TNode) → f (change t) ≡ (b || f t))
    → f new_node ≡ false
    → or_false (kid_of (entry kids ch change) ch) f ≡ (b || or_false (kid_of kids ch) f)
has-entry_self no_kids ch change f b h n =
    let same : (ch == ch) ≡ true = ground arith in rw same (h new_node ∙ ap (λ x. b || x) n)
has-entry_self (kid c t ts) ch change f b h n = elim (Bool-cases (c == ch)) [
  | inl e ↦ rw (e, e) (h t)
  | inr e ↦ rw (e, e) (has-entry_self ts ch change f b h n)
]

kid_of-entry_other :
    (kids : TNodes) (ch d : ℕ) (change : TNode → TNode)
    → (d == ch) ≡ false
    → kid_of (entry kids ch change) d ≡ kid_of kids d
kid_of-entry_other no_kids ch d change h =
    let other : (ch == d) ≡ false = ground arith in rw other refl
kid_of-entry_other (kid c t ts) ch d change h = elim (Bool-cases (c == ch)) [
  | inl e ↦ let other : (c == d) ≡ false = ground arith in rw (e, other) refl
  | inr e ↦ rw e (ap (λ o. if c == d then some t else o) (kid_of-entry_other ts ch d change h))
]

-- After `trie_put` of a key, `trie_has` finds it, and of the others those that it found before.
pub trie_has-trie_put :
    (t : TNode) (key j : Text) → trie_has j (trie_put key t) ≡ (text_eq j key || trie_has j t)
unfolding trie_has trie_put
trie_has-trie_put (tnode kids end) [] [] = refl
trie_has-trie_put (tnode kids end) [] (d ∷ j) = refl
trie_has-trie_put (tnode kids end) (ch ∷ key) [] = refl
trie_has-trie_put (tnode kids end) (ch ∷ key) (d ∷ j) = elim (eq-or-ne d ch) [
  | inl e ↦
      let same : (ch == ch) ≡ true = ground arith in
      rw (e, same)
        (has-entry_self kids ch (trie_put key) (trie_has j) (text_eq j key)
          (λ t. trie_has-trie_put t key j) (has-new_node j))
  | inr n ↦
      let other : (d == ch) ≡ false = ground arith in
      rw (other, kid_of-entry_other kids ch d (trie_put key) other) refl
]

-- Below a prefix the trie has the texts that it has with the prefix in front.
pub trie_has-descend :
    (t : TNode) (prefix j : Text)
    → or_false (descend prefix t) (trie_has j) ≡ trie_has (prefix ++ j) t
unfolding trie_has descend
trie_has-descend t [] j = refl
trie_has-descend (tnode kids end) (ch ∷ prefix) j =
    go (kid_of kids ch) (λ u. trie_has-descend u prefix j)
  where
    go :
        (o : Option TNode)
        → ((u : TNode) → or_false (descend prefix u) (trie_has j) ≡ trie_has (prefix ++ j) u)
        → or_false (onward o (descend prefix)) (trie_has j) ≡ or_false o (trie_has (prefix ++ j))
    go none h = refl
    go (some u) h = h u
