-- ===== src/Coll/Tree/Shape.antt =====
-- A tree in order: every branch has the same height, and a node has three keys at most.
use zown.Prelude.{ℕ, suc, ◌≤◌, ◌≡◌, Bool, true, false, List, [], ◌∷◌, ◌++◌, length}
use zown.Coll.Store.{BNode, bnode, BNodes, none_left, more}
use zown.Coll.Rows.{Row}
use zown.Coll.Tree.{count}

-- the rows of a tree, from the left to the right
unfoldable mutual
  pub entries : BNode → List Row
  entries (bnode leaf keys kids) = woven keys kids

  pub woven : List Row → BNodes → List Row
  woven keys none_left = keys
  woven [] (more t ts) = entries t ++ woven [] ts
  woven (r ∷ rows) (more t ts) = entries t ++ r ∷ woven rows ts

-- `low` keys at least, and three at most; a node that is no leaf has a child on each side of a key
unfoldable mutual
  pub Shape : ℕ → ℕ → BNode → Type 0
  Shape low h (bnode leaf keys kids) =
      (low ≤ length keys) × (length keys ≤ 3) × KidsShape h leaf (length keys) kids

  pub KidsShape : ℕ → Bool → ℕ → BNodes → Type 0
  KidsShape h leaf n none_left = (h ≡ 0) × (leaf ≡ true)
  KidsShape h leaf n (more t ts) =
      (leaf ≡ false) × (count ts ≡ n) × ((g : ℕ) × (h ≡ suc g) × Shape 1 g t × Shapes g ts)

  pub Shapes : ℕ → BNodes → Type 0
  Shapes h none_left = Unit
  Shapes h (more t ts) = Shape 1 h t × Shapes h ts
