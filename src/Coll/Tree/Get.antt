-- ===== src/Coll/Tree/Get.antt =====
-- `tree_get`, `tree_count` and `tree_walk` against the rows of the tree.
use zown.Prelude.{
  ℕ, zero, suc, ◌+◌, ◌≡◌, inl, inr, refl, ap, sym, ◌∙◌, true, false, List, [], ◌∷◌, ◌++◌,
  append_assoc, append-nil, Text, none, some, length, length-append, get_elem?, arith,
}
use mathlib.Core.Path.{subst}
use zown.Coll.Store.{Elem, BNode, bnode, BNodes, none_left, more}
use zown.Coll.TextOrder.{eq_of_text}
use zown.Coll.Rows.{
  Row, Ascending, Ascending-left, Ascending-right, lookup, lookup-inside, lookup-Below, Below,
}
use zown.Coll.Tree.{
  count, kid_at, scan, found_at, tree_count, kids_count, tree_get, kid_get, tree_walk, walk_keys,
  walk_last,
}
use zown.Coll.Tree.Shape.{entries, woven, Shape, Shapes}
use zown.Coll.Tree.Place.{Fits, FoundAt, Fits-le, Fits-Inside, FoundAt-At, kid_at_lem}
use zown.Coll.Tree.Scan.{scan_lem}

-- The count of a tree is that of its rows.
mutual
  unfolding entries tree_count

  pub tree_count_lem : (t : BNode) → tree_count t ≡ length (entries t)
  tree_count_lem (bnode leaf keys kids) = kids_count_lem keys kids

  kids_count_lem :
      (keys : List Row) (kids : BNodes) → length keys + kids_count kids ≡ length (woven keys kids)
  kids_count_lem keys none_left = omega arith
  kids_count_lem [] (more t ts) =
      omega (arith, tree_count_lem t, kids_count_lem [] ts, length-append (entries t) (woven [] ts))
  kids_count_lem (r ∷ rows) (more t ts) = omega (
    arith,
    tree_count_lem t,
    kids_count_lem rows ts,
    length-append (entries t) (r ∷ woven rows ts),
  )

-- The walk of a tree in order gives its rows.
mutual
  unfolding entries tree_walk Shape

  pub tree_walk_lem : (low h : ℕ) (t : BNode) → Shape low h t → tree_walk t ≡ some (entries t)
  tree_walk_lem low h (bnode true keys none_left) s = refl
  tree_walk_lem low h (bnode false keys none_left) s = cc
  tree_walk_lem low h (bnode true keys (more t ts)) s = cc
  tree_walk_lem low h (bnode false keys (more t ts)) s =
      let (g, e, first, others) = s.2.2 in
      let (as₁, bs, a, b, whole) =
        walk_kids_lem g keys (more t ts) (ap suc s.2.1) (first, others) in
      rw (a, b) (ap some whole)

  walk_kids_lem :
      (g : ℕ) (keys : List Row) (kids : BNodes)
      → count kids ≡ suc (length keys)
      → Shapes g kids
      → (as₁ : List Row) × (bs : List Row) × (walk_keys keys kids ≡ some as₁)
        × (walk_last kids ≡ some bs)
        × (as₁ ++ bs ≡ woven keys kids)
  walk_kids_lem g keys none_left c s = absurd (omega (arith, c))
  walk_kids_lem g [] (more t none_left) c s =
      ([], entries t, refl, tree_walk_lem 1 g t s.0, sym (append-nil (entries t)))
  walk_kids_lem g [] (more t (more u us)) c s = absurd (omega (arith, c))
  walk_kids_lem g (r ∷ rows) (more t none_left) c s = absurd (omega (arith, c))
  walk_kids_lem g (r ∷ rows) (more t (more u us)) c s =
      let (as₁, bs, a, b, whole) = walk_kids_lem g rows (more u us) (omega (arith, c)) s.1 in
      (
        entries t ++ r ∷ as₁,
        bs,
        rw (tree_walk_lem 1 g t s.0, a) refl,
        b,
        append_assoc (entries t) (r ∷ as₁) bs ∙ ap (λ w. entries t ++ r ∷ w) whole,
      )

lookup-Fits : (key : Text) (keys : List Row) (i : ℕ) → Fits key keys i → lookup key keys ≡ none
lookup-Fits key [] i f = refl
lookup-Fits key (r ∷ rows) zero f = rw f refl
lookup-Fits key (r ∷ rows) (suc i) f = rw f.0 (lookup-Fits key rows i f.1)

-- a key that the node has
read_lem :
    (key : Text) (keys : List Row) (kids : BNodes) (i : ℕ)
    → FoundAt key keys i
    → Ascending (woven keys kids)
    → (e : Elem) × (found_at key (get_elem? keys i) ≡ some e)
      × (lookup key (woven keys kids) ≡ some e)
read_lem key keys kids i f a =
    let here = FoundAt-At key keys kids i f a in
    let name : key ≡ here.name = eq_of_text key here.name here.same in
    let below : Below key here.before = rw name here.below in
    let rest = (here.name, here.val) ∷ here.behind in
    (
      here.val,
      rw (here.read, here.same) refl,
      ap (lookup key) here.whole ∙ lookup-Below key here.before rest below ∙ rw here.same refl,
    )

-- `tree_get` of a tree in order is the lookup in its rows.
mutual
  unfolding entries tree_get Shape

  pub tree_get_lem :
      (low h : ℕ) (t : BNode) (key : Text)
      → Shape low h t
      → Ascending (entries t)
      → tree_get t key ≡ some (lookup key (entries t))
  tree_get_lem low h (bnode true keys (more t ts)) key s a = cc
  tree_get_lem low h (bnode false keys none_left) key s a = cc
  tree_get_lem low h (bnode true keys none_left) key s a = elim (scan_lem key keys) [
    | inl f ↦
        let (e, p, q) = read_lem key keys none_left (scan key keys) f a in rw p (ap some (sym q))
    | inr (f, n) ↦ rw (n, lookup-Fits key keys (scan key keys) f) refl
  ]
  tree_get_lem low h (bnode false keys (more t ts)) key s a = elim (scan_lem key keys) [
    | inl f ↦
        let (e, p, q) = read_lem key keys (more t ts) (scan key keys) f a in rw p (ap some (sym q))
    | inr (f, n) ↦
        let (g, e, first, others) = s.2.2 in
        let (u, here, shape) =
          kid_at_lem g (more t ts) (scan key keys) (first, others)
            (omega (arith, Fits-le key keys (scan key keys) f, s.2.1)) in
        let inside = Fits-Inside key keys (more t ts) (scan key keys) u f (ap suc s.2.1) here a in
        let rows : Ascending (entries u) = Ascending-left (entries u) inside.behind (
          Ascending-right inside.before (entries u ++ inside.behind)
            (subst Ascending inside.whole a)) in
        let same : lookup key (woven keys (more t ts)) ≡ lookup key (entries u) =
          ap (lookup key) inside.whole
          ∙ lookup-inside key inside.before (entries u) inside.behind inside.below inside.ahead in
        rw n (
          kid_get_lem g (more t ts) (scan key keys) key u here (first, others) rows
          ∙ ap some (sym same))
  ]

  kid_get_lem :
      (g : ℕ) (kids : BNodes) (i : ℕ) (key : Text) (t : BNode)
      → kid_at kids i ≡ some t
      → Shapes g kids
      → Ascending (entries t)
      → kid_get kids i key ≡ some (lookup key (entries t))
  kid_get_lem g none_left i key t e s a = cc
  kid_get_lem g (more u us) zero key t e s a =
      let same : u ≡ t = cc in
      tree_get_lem 1 g u key s.0 (subst (λ x. Ascending (entries x)) (sym same) a)
      ∙ ap (λ x. some (lookup key (entries x))) same
  kid_get_lem g (more u us) (suc i) key t e s a = kid_get_lem g us i key t e s.1 a
