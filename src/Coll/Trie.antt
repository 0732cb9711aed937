-- ===== src/Coll/Trie.antt =====
-- zownc/crates/zown-vm/src/coll.rs: the tree of characters of a `ti` collection.
pub mod Refines
pub mod Form
pub mod Branches
pub mod Walk
use zown.Prelude.{
  ℕ, zero, suc, Bool, true, false, List, [], ◌∷◌, ◌++◌, Text, Option, none, some, ltb, ◌==◌,
  if◌then◌else◌,
}
use zown.Coll.Store.{TNode, tnode, TNodes, no_kids, kid}

-- `node.kids.get(&ch)`
abbrev pub kid_of : TNodes → ℕ → Option TNode
kid_of no_kids ch = none
kid_of (kid c t ts) ch = if c == ch then some t else kid_of ts ch

-- `TNode::new()`
abbrev pub new_node : TNode
new_node = tnode no_kids false

-- the change to `node.kids.entry(ch).or_insert_with(TNode::new)`
abbrev pub entry : TNodes → ℕ → (TNode → TNode) → TNodes
entry no_kids ch change = kid ch (change new_node) no_kids
entry (kid c t ts) ch change = if c == ch then kid c (change t) ts else kid c t (entry ts ch change)

unfoldable pub trie_put : Text → TNode → TNode
trie_put [] (tnode kids end) = tnode kids true
trie_put (ch ∷ key) (tnode kids end) = tnode (entry kids ch (trie_put key)) end

abbrev pub or_false : Option TNode → (TNode → Bool) → Bool
or_false none f = false
or_false (some t) f = f t

unfoldable pub trie_has : Text → TNode → Bool
trie_has [] (tnode kids end) = end
trie_has (ch ∷ key) (tnode kids end) = or_false (kid_of kids ch) (trie_has key)

-- the texts below a child, with its character
abbrev pub Branch : Type 0
Branch = ℕ × List Text

-- `keys.sort()`
abbrev pub sort_in : Branch → List Branch → List Branch
sort_in b [] = b ∷ []
sort_in b (c ∷ cs) = if ltb c.0 b.0 then c ∷ sort_in b cs else b ∷ c ∷ cs

abbrev pub sort_branches : List Branch → List Branch
sort_branches [] = []
sort_branches (b ∷ bs) = sort_in b (sort_branches bs)

abbrev pub gather : List Branch → List Text
gather [] = []
gather (b ∷ bs) = b.1 ++ gather bs

-- `trie_walk`, as the texts that it pushes: the walk of each child, in the order of the characters
unfoldable mutual
  pub trie_walk : TNode → Text → List Text
  trie_walk (tnode kids end) prefix =
      let below = gather (sort_branches (walk_kids kids prefix)) in
      if end then prefix ∷ below else below

  pub walk_kids : TNodes → Text → List Branch
  walk_kids no_kids prefix = []
  walk_kids (kid c t ts) prefix = (c, trie_walk t (prefix ++ c ∷ [])) ∷ walk_kids ts prefix

-- the loop of `b_px`: the node below a prefix
abbrev pub onward : Option TNode → (TNode → Option TNode) → Option TNode
onward none f = none
onward (some t) f = f t

unfoldable pub descend : Text → TNode → Option TNode
descend [] node = some node
descend (ch ∷ key) (tnode kids end) = onward (kid_of kids ch) (descend key)
