-- ===== src/Coll/Tree/Refines.antt =====
-- The tree as a map from keys to values, and as rows in ascending order.
use Prim.Native.Nat.{Ordering, lt, eq, gt}
use mathlib.Core.Path.{subst}
use zown.Prelude.{ℕ, ◌≡◌, refl, ap, sym, ◌∙◌, true, List, [], Text, Option, some, length, arith}
use zown.Coll.Store.{Elem, BNode, bnode, none_left}
use zown.Coll.TextOrder.{compare_text, by_order}
use zown.Coll.Rows.{Row, Ascending, lookup, put_row-Ascending, lookup-put_row}
use zown.Coll.Tree.{tree_count, tree_get, tree_put, tree_walk}
use zown.Coll.Tree.Shape.{entries, Shape}
use zown.Coll.Tree.Get.{tree_count_lem, tree_get_lem, tree_walk_lem}
use zown.Coll.Tree.Put.{tree_put_lem}

-- A tree in order: all leaves are at the same height, a node has three keys at most, a node but the
-- root has one at least, and the keys ascend from the left to the right.
pub record IsTree (t : BNode) : Type 0 where
  pub height : ℕ
  pub shape : Shape 0 height t
  pub ordered : Ascending (entries t)

-- the tree of a fresh collection
pub empty-IsTree : IsTree (bnode true [] none_left)
unfolding Shape entries
empty-IsTree = record { height = 0; shape = (omega arith, omega arith, (refl, refl)); ordered = tt }

inner :
    (o : Ordering) (x : Option Elem) (y : Elem)
    → some (by_order o x (some y) x) ≡ by_order o (some x) (some (some y)) (some x)
inner lt x y = refl
inner eq x y = refl
inner gt x y = refl

-- From a tree in order, `tree_put` ends, with no index out of range, in a tree in order, in which
-- `tree_get` finds the new value at the key, and at another key what it found before.
pub tree_put-Refines :
    (t : BNode) (key : Text) (val : Elem) (j : Text)
    → IsTree t
    → (u : BNode) × (tree_put t key val ≡ some u)
      × IsTree u
      × (tree_get u j
          ≡ by_order (compare_text j key) (tree_get t j) (some (some val)) (tree_get t j))
tree_put-Refines t key val j v =
    let (u, g, done, shape, put) = tree_put_lem v.height t key val v.shape v.ordered in
    let ordered : Ascending (entries u) =
      subst Ascending (sym put) (put_row-Ascending key val (entries t) v.ordered) in
    let before = tree_get_lem 0 v.height t j v.shape v.ordered in
    let after = tree_get_lem 0 g u j shape ordered in
    (
      u,
      done,
      record { height = g; shape = shape; ordered = ordered },
      after
          ∙ ap (λ rows. some (lookup j rows)) put
          ∙ ap some (lookup-put_row key val (entries t) j v.ordered)
          ∙ rw before (inner (compare_text j key) (lookup j (entries t)) val),
    )

-- Of a tree in order, `tree_walk` gives rows in strictly ascending order of their keys, of which
-- `tree_count` is the count, and `tree_get` is the lookup in them.
pub tree_walk-Refines :
    (t : BNode) (j : Text)
    → IsTree t
    → (rows : List Row) × (tree_walk t ≡ some rows)
      × Ascending rows
      × (tree_count t ≡ length rows)
      × (tree_get t j ≡ some (lookup j rows))
tree_walk-Refines t j v = (
  entries t,
  tree_walk_lem 0 v.height t v.shape,
  v.ordered,
  tree_count_lem t,
  tree_get_lem 0 v.height t j v.shape v.ordered,
)
