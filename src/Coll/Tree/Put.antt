-- ===== src/Coll/Tree/Put.antt =====
-- `tree_put` against the rows of the tree.
use mathlib.Core.Path.{subst}
use zown.Prelude.{
  ℕ, zero, suc, ◌+◌, ◌≤◌, ◌<◌, ◌≡◌, refl, ap, sym, ◌∙◌, true, false, List, [], ◌∷◌, append-nil,
  Text, Option, some, length, arith, ◌==◌, inl, inr, Bool-cases,
}
use zown.Coll.Store.{Elem, BNode, bnode, BNodes, none_left, more}
use zown.Coll.TextOrder.{compare_text, Ordering-cases}
use zown.Coll.Rows.{Row, Ascending, put_row}
use zown.Coll.Tree.{
  keys_of, count, kid_at, scan_back, split_child, after_split, descend, insert_nonfull, height,
  tree_put,
}
use zown.Coll.Tree.Shape.{entries, woven, Shape, Shapes}
use zown.Coll.Tree.Place.{Fits, Fits-le, kid_at_lem}
use zown.Coll.Tree.Scan.{scan_back_lem, or_sorted_lem}
use zown.Coll.Tree.Split.{Halves, Spliced, split_node_lem, splice_lem}
use zown.Coll.Tree.Into.{
  Puts, KidsShape-of, into_lem, write_lem, write_at-lt, write_at-gt, keys-Ascending,
}

length-put_row :
    (key : Text) (val : Elem) (rows : List Row)
    → (length rows ≤ length (put_row key val rows))
      × (length (put_row key val rows) ≤ suc (length rows))
length-put_row key val [] = (omega arith, omega arith)
length-put_row key val (r ∷ rows) = elim (Ordering-cases (compare_text key r.0)) [
  | inl e ↦ rw e (omega arith, omega arith)
  | inr (inl e) ↦ rw e (omega arith, omega arith)
  | inr (inr e) ↦
      let (p, q) = length-put_row key val rows in rw e (omega (arith, p), omega (arith, q))
]

-- `split_child` of a node with a full child
split_child_lem :
    (keys : List Row) (kids : BNodes) (i g : ℕ) (y : BNode)
    → kid_at kids i ≡ some y
    → Shape 1 g y
    → length (keys_of y) ≡ 3
    → count kids ≡ suc (length keys)
    → Shapes g kids
    → (halves : Halves g y) × (s : Spliced keys kids i g halves.left halves.right halves.median)
      × (split_child (bnode false keys kids) i ≡ some (bnode false s.keys' s.kids'))
unfolding split_child
split_child_lem keys kids i g y here shape full c s =
    let halves = split_node_lem g y shape full in
    let spliced =
      splice_lem keys kids i g y halves.left halves.right halves.median here halves.whole c s
        halves.left_shape halves.right_shape in
    (halves, spliced, rw (here, halves.split, spliced.put, spliced.put_kid, spliced.put_key) refl)

-- What the recursive call does with a node that is not full.
abbrev Calls : Text → Elem → (BNode → Option BNode) → ℕ → Type 0
Calls key val call g =
    (t : BNode)
    → Shape 1 g t
    → length (keys_of t) < 3
    → Ascending (entries t)
    → Puts key val call 1 g t

-- the rest of `insert_nonfull`, once a child is split
after_split_lem :
    (call : BNode → Option BNode) (key : Text) (val : Elem) (keys : List Row) (kids : BNodes)
    (i g : ℕ) (y : BNode)
    → (halves : Halves g y) → (s : Spliced keys kids i g halves.left halves.right halves.median)
    → Fits key keys i
    → count kids ≡ suc (length keys)
    → Ascending (woven keys kids)
    → Calls key val call g
    → (keys' : List Row) × (kids' : BNodes) × (after_split call key val
          (bnode false s.keys' s.kids')
          i
        ≡ some (bnode false keys' kids'))
      × (length keys' ≡ suc (length keys))
      × (count kids' ≡ suc (length keys'))
      × Shapes g kids'
      × (woven keys' kids' ≡ put_row key val (woven keys kids))
after_split_lem call key val keys kids i g y halves s f c a ih =
    let rows : Ascending (woven s.keys' s.kids') = subst Ascending (sym s.whole) a in
    let size : count s.kids' ≡ suc (length s.keys') = omega (arith, s.keys_size, s.kids_size, c) in
    elim (Ordering-cases (compare_text key halves.median.0)) [
      | inl e ↦
          let (kids', called, count', shapes, put) =
            into_lem call key val s.keys' s.kids' i g halves.left (s.place_lt key f e) size s.shapes
              s.at_left rows (ih halves.left halves.left_shape (omega (arith, halves.left_size))) in
          (
            s.keys',
            kids',
            rw (write_at-lt key val s.keys' i halves.median s.at_median e, s.at_median, e) called,
            s.keys_size,
            count' ∙ size,
            shapes,
            put ∙ ap (put_row key val) s.whole,
          )
      | inr (inl e) ↦
          let (keys', wrote, same, put) =
            write_lem key val s.keys' s.kids' i (s.place_eq key f e) rows in
          (
            keys',
            s.kids',
            rw wrote refl,
            same ∙ s.keys_size,
            omega (arith, size, same),
            s.shapes,
            put ∙ ap (put_row key val) s.whole,
          )
      | inr (inr e) ↦
          let (kids', called, count', shapes, put) =
            into_lem call key val s.keys' s.kids' (suc i) g halves.right (s.place_gt key f e) size
              s.shapes s.at_right rows
              (ih halves.right halves.right_shape (omega (arith, halves.right_size))) in
          (
            s.keys',
            kids',
            rw (write_at-gt key val s.keys' i halves.median s.at_median e, s.at_median, e) called,
            s.keys_size,
            count' ∙ size,
            shapes,
            put ∙ ap (put_row key val) s.whole,
          )
    ]

Shape-size :
    (low h : ℕ) (t : BNode) → Shape low h t → (low ≤ length (keys_of t)) × (length (keys_of t) ≤ 3)
unfolding Shape
Shape-size low h (bnode leaf keys kids) s = (s.0, s.1)

full-Shape : (h : ℕ) (t : BNode) → Shape 0 h t → length (keys_of t) ≡ 3 → Shape 1 h t
unfolding Shape
full-Shape h (bnode leaf keys kids) s full = (omega (arith, full), s.1, s.2)

-- a node that is not a leaf, where the key is none of its own
descend_lem :
    (call : BNode → Option BNode) (key : Text) (val : Elem) (low g : ℕ) (keys : List Row)
    (kids : BNodes) (i : ℕ)
    → Fits key keys i
    → low ≤ length keys
    → length keys < 3
    → count kids ≡ suc (length keys)
    → Shapes g kids
    → Ascending (woven keys kids)
    → Calls key val call g
    → (u : BNode) × (descend call key val (bnode false keys kids) i ≡ some u)
      × Shape low (suc g) u
      × (entries u ≡ put_row key val (woven keys kids))
unfolding Shape entries
descend_lem call key val low g keys kids i f atleast room c s a ih =
    let (t, here, shape) = kid_at_lem g kids i s (omega (arith, c, Fits-le key keys i f)) in
    elim (Bool-cases (length (keys_of t) == 3)) [
      | inl full ↦
          let (halves, spliced, split) =
            split_child_lem keys kids i g t here shape (ground arith) c s in
          let (keys', kids', done, size, count', shapes, put) =
            after_split_lem call key val keys kids i g t halves spliced f c a ih in
          (
            bnode false keys' kids',
            rw (here, full, split) done,
            (
              omega (arith, size, atleast),
              omega (arith, size, room),
              KidsShape-of g (length keys') kids' count' shapes,
            ),
            put,
          )
      | inr part ↦
          let small : length (keys_of t) < 3 = ground (arith, Shape-size 1 g t shape) in
          let (kids', called, size, shapes, put) =
            into_lem call key val keys kids i g t f c s here a (ih t shape small) in
          (
            bnode false keys kids',
            rw (here, part) (rw here at called),
            (atleast, omega (arith, room), KidsShape-of g (length keys) kids' (size ∙ c) shapes),
            put,
          )
    ]

insert_nonfull_lem :
    (f h low : ℕ) (t : BNode) (key : Text) (val : Elem)
    → Shape low h t
    → length (keys_of t) < 3
    → h < f
    → Ascending (entries t)
    → Puts key val (insert_nonfull f key val) low h t
unfolding insert_nonfull Shape entries
insert_nonfull_lem zero h low t key val s room fuel a = absurd (omega (arith, fuel))
insert_nonfull_lem (suc f) h low (bnode true keys (more t ts)) key val s room fuel a = cc
insert_nonfull_lem (suc f) h low (bnode false keys none_left) key val s room fuel a = cc
insert_nonfull_lem (suc f) h low (bnode true keys none_left) key val s room fuel a =
    let put = or_sorted_lem key val keys a in
    let (p, q) = length-put_row key val keys in
    (
      bnode true (put_row key val keys) none_left,
      ap (λ x. some (bnode true x none_left)) put,
      (omega (arith, p, s.0), omega (arith, q, room), s.2),
      refl,
    )
insert_nonfull_lem (suc f) h low (bnode false keys (more t ts)) key val s room fuel a =
    let (g, up, first, others) = s.2.2 in
    let count' : count (more t ts) ≡ suc (length keys) = ap suc s.2.1 in
    let ih : Calls key val (insert_nonfull f key val) g = λ u shape small rows.
      insert_nonfull_lem f g 1 u key val shape small (omega (arith, up, fuel)) rows in
    elim (scan_back_lem key val keys (keys-Ascending keys (more t ts) a)) [
      | inl (fits, n) ↦
          let (u, done, shape, put) =
            descend_lem (insert_nonfull f key val) key val low g keys (more t ts)
              (scan_back key keys) fits s.0 room count' (first, others) a ih in
          (u, rw n done, subst (λ x. Shape low x u) (sym up) shape, put)
      | inr (i, n, found) ↦
          let (keys', wrote, size, put) = write_lem key val keys (more t ts) i found a in
          (
            bnode false keys' (more t ts),
            rw (n, wrote) refl,
            (
              omega (arith, size, s.0),
              omega (arith, size, room),
              (refl, s.2.1 ∙ sym size, (g, up, first, others)),
            ),
            put,
          )
    ]

mutual
  unfolding height Shape

  height_lem : (low h : ℕ) (t : BNode) → Shape low h t → height t ≡ h
  height_lem low h (bnode leaf keys none_left) s = sym s.2.0
  height_lem low h (bnode leaf keys (more t ts)) s =
      let (g, up, first, others) = s.2.2 in ap suc (height_lem 1 g t first) ∙ sym up

-- Of a tree in order, `tree_put` gives a tree in order, with the row in place of the one of the
-- same key, or in its place in the order.
pub tree_put_lem :
    (h : ℕ) (t : BNode) (key : Text) (val : Elem)
    → Shape 0 h t
    → Ascending (entries t)
    → (u : BNode) × (g : ℕ) × (tree_put t key val ≡ some u)
      × Shape 0 g u
      × (entries u ≡ put_row key val (entries t))
unfolding tree_put Shape entries
tree_put_lem h t key val s a =
    let high = height_lem 0 h t s in
    elim (Bool-cases (length (keys_of t) == 3)) [
      | inr part ↦
          let small : length (keys_of t) < 3 = ground (arith, Shape-size 0 h t s) in
          let (u, done, shape, put) =
            insert_nonfull_lem (height t + 1) h 0 t key val s small (omega (arith, high)) a in
          (u, h, rw part done, shape, put)
      | inl full ↦
          let three : length (keys_of t) ≡ 3 = ground arith in
          let shape = full-Shape h t s three in
          let (halves, spliced, split) =
            split_child_lem [] (more t none_left) 0 h t refl shape three refl (shape, tt) in
          let whole : entries (bnode false spliced.keys' spliced.kids') ≡ entries t =
            spliced.whole ∙ append-nil (entries t) in
          let (u, done, shape', put) =
            insert_nonfull_lem (height t + 2) (suc h) 0 (bnode false spliced.keys' spliced.kids')
              key val
              (
                omega arith,
                omega (arith, spliced.keys_size),
                KidsShape-of h (length spliced.keys') spliced.kids'
                    (omega (arith, spliced.keys_size, spliced.kids_size)) spliced.shapes,
              )
              (omega (arith, spliced.keys_size)) (omega (arith, high))
              (subst Ascending (sym whole) a) in
          (u, suc h, rw (full, split) done, shape', put ∙ ap (put_row key val) whole)
    ]
