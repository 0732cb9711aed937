-- ===== src/Coll/Tree/Into.antt =====
-- A change to a child of a node, and to one of its rows, as a change to the rows of the tree.
use Prim.Native.Nat.{lt, gt}
use mathlib.Core.Path.{subst}
use zown.Prelude.{
  ℕ, zero, suc, ◌≡◌, refl, ap, sym, ◌∙◌, false, List, [], ◌∷◌, ◌++◌, Text, Option, none, some,
  length, get_elem?, arith,
}
use zown.Coll.Store.{Elem, BNode, bnode, BNodes, none_left, more}
use zown.Coll.TextOrder.{compare_text}
use zown.Coll.Rows.{
  Row, Ascending, Ascending-left, Ascending-right, Above, put_row, put_row-inside, put_row-at,
  All-append_right,
}
use zown.Coll.Tree.{count, kid_at, into, write_at}
use zown.Coll.Tree.Shape.{entries, woven, Shape, KidsShape, Shapes}
use zown.Coll.Tree.Place.{Fits, FoundAt, Fits-Inside, FoundAt-At}

-- A call puts the row into the tree.
abbrev pub Puts : Text → Elem → (BNode → Option BNode) → ℕ → ℕ → BNode → Type 0
Puts key val call low h t =
    (u : BNode) × (call t ≡ some u) × Shape low h u × (entries u ≡ put_row key val (entries t))

pub KidsShape-of :
    (g n : ℕ) (kids : BNodes) → count kids ≡ suc n → Shapes g kids → KidsShape (suc g) false n kids
unfolding Shape
KidsShape-of g n none_left c s = absurd (omega (arith, c))
KidsShape-of g n (more t ts) c s = (refl, omega (arith, c), (g, refl, s.0, s.1))

pub into_lem :
    (call : BNode → Option BNode) (key : Text) (val : Elem) (keys : List Row) (kids : BNodes)
    (i g : ℕ) (t : BNode)
    → Fits key keys i
    → count kids ≡ suc (length keys)
    → Shapes g kids
    → kid_at kids i ≡ some t
    → Ascending (woven keys kids)
    → (Ascending (entries t) → Puts key val call 1 g t)
    → (kids' : BNodes) × (into call (bnode false keys kids) i ≡ some (bnode false keys kids'))
      × (count kids' ≡ count kids)
      × Shapes g kids'
      × (woven keys kids' ≡ put_row key val (woven keys kids))
into_lem call key val keys kids i g t f c s here a ih =
    let inside = Fits-Inside key keys kids i t f c here a in
    let rows : Ascending (entries t) =
      Ascending-left (entries t) inside.behind
        (Ascending-right inside.before _ (subst Ascending inside.whole a)) in
    let (u, called, shape, put) = ih rows in
    let (kids', set, whole, size, shapes) = inside.changed u in
    (
      kids',
      rw (here, called, set) refl,
      size,
      shapes g s shape,
      whole
          ∙ ap (λ x. inside.before ++ (x ++ inside.behind)) put
          ∙ sym (
              ap (put_row key val) inside.whole
              ∙ put_row-inside key val inside.before (entries t) inside.behind inside.below
                  inside.ahead),
    )

pub write_lem :
    (key : Text) (val : Elem) (keys : List Row) (kids : BNodes) (i : ℕ)
    → FoundAt key keys i
    → Ascending (woven keys kids)
    → (keys' : List Row) × (write_at key val keys i ≡ some keys')
      × (length keys' ≡ length keys)
      × (woven keys' kids ≡ put_row key val (woven keys kids))
write_lem key val keys kids i f a =
    let here = FoundAt-At key keys kids i f a in
    let (keys', set, size, whole) = here.changed val in
    (
      keys',
      set,
      size,
      whole
          ∙ sym (
              ap (put_row key val) here.whole
              ∙ put_row-at key val here.before here.name here.val here.behind here.below here.same),
    )

pub write_at-lt :
    (key : Text) (val : Elem) (keys : List Row) (i : ℕ) (r : Row)
    → get_elem? keys i ≡ some r
    → compare_text key r.0 ≡ lt
    → write_at key val keys i ≡ none
write_at-lt key val [] i r e h = refl
write_at-lt key val (k ∷ keys) zero r e h =
    let same : k ≡ r = cc in rw (ap (λ x. compare_text key x.0) same ∙ h) refl
write_at-lt key val (k ∷ keys) (suc i) r e h = rw (write_at-lt key val keys i r e h) refl

pub write_at-gt :
    (key : Text) (val : Elem) (keys : List Row) (i : ℕ) (r : Row)
    → get_elem? keys i ≡ some r
    → compare_text key r.0 ≡ gt
    → write_at key val keys i ≡ none
write_at-gt key val [] i r e h = refl
write_at-gt key val (k ∷ keys) zero r e h =
    let same : k ≡ r = cc in rw (ap (λ x. compare_text key x.0) same ∙ h) refl
write_at-gt key val (k ∷ keys) (suc i) r e h = rw (write_at-gt key val keys i r e h) refl

-- The keys of a node are in order if its rows are.
pub keys-Ascending :
    (keys : List Row) (kids : BNodes) → Ascending (woven keys kids) → Ascending keys
unfolding entries
keys-Ascending keys none_left a = a
keys-Ascending [] (more t ts) a = tt
keys-Ascending (r ∷ rows) (more t ts) a =
    let rest = Ascending-right (entries t) (r ∷ woven rows ts) a in
    (keys-Above r.0 rows ts rest.0, keys-Ascending rows ts rest.1)
  where
    keys-Above :
        (k : Text) (rows : List Row) (kids : BNodes) → Above k (woven rows kids) → Above k rows
    keys-Above k rows none_left a = a
    keys-Above k [] (more t ts) a = tt
    keys-Above k (r ∷ rows) (more t ts) a =
        let rest =
          All-append_right (λ s. compare_text k s.0 ≡ lt) (entries t) (r ∷ woven rows ts) a in
        (rest.0, keys-Above k rows ts rest.1)
