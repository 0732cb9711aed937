-- ===== src/Coll/Tree/Place.antt =====
-- Where a key belongs in a node: at one of its keys, or in the child before one.
use Prim.Native.Nat.{lt, eq, gt}
use zown.Prelude.{
  ℕ, zero, suc, ◌≤◌, ◌<◌, ◌≡◌, refl, ap, sym, ◌∙◌, List, [], ◌∷◌, ◌++◌, append_assoc, Text, some,
  length, get_elem?, arith,
}
use mathlib.Core.Path.{subst}
use zown.Coll.Store.{Elem, BNode, BNodes, none_left, more}
use zown.Coll.TextOrder.{compare_text, lt_of_gt}
use zown.Coll.Rows.{
  Row, Below, Ahead, Ascending, Ascending-Below, Ascending-right, Below-lt, All-append,
}
use zown.Coll.Tree.{count, kid_at, set_kid, write_at}
use zown.Coll.Tree.Shape.{entries, woven, Shape, Shapes}

abbrev pub Fits : Text → List Row → ℕ → Type 0
Fits key [] zero = Unit
Fits key [] (suc i) = ⊥
Fits key (r ∷ rows) zero = compare_text key r.0 ≡ lt
Fits key (r ∷ rows) (suc i) = (compare_text key r.0 ≡ gt) × Fits key rows i

abbrev pub FoundAt : Text → List Row → ℕ → Type 0
FoundAt key [] i = ⊥
FoundAt key (r ∷ rows) zero = compare_text key r.0 ≡ eq
FoundAt key (r ∷ rows) (suc i) = (compare_text key r.0 ≡ gt) × FoundAt key rows i

pub Fits-le : (key : Text) (keys : List Row) (i : ℕ) → Fits key keys i → i ≤ length keys
Fits-le key [] zero f = omega arith
Fits-le key [] (suc i) f = elim f [ ]
Fits-le key (r ∷ rows) zero f = omega arith
Fits-le key (r ∷ rows) (suc i) f = omega (arith, Fits-le key rows i f.1)

-- a child, with the rows before it and those behind it
pub record Inside (key : Text) (keys : List Row) (kids : BNodes) (i : ℕ) (t : BNode) : Type 0 where
  pub before : List Row
  pub behind : List Row
  pub below : Below key before
  pub ahead : Ahead key behind
  pub whole : woven keys kids ≡ before ++ (entries t ++ behind)
  pub changed :
      (u : BNode)
      → (kids' : BNodes) × (set_kid kids i u ≡ some kids')
        × (woven keys kids' ≡ before ++ (entries u ++ behind))
        × (count kids' ≡ count kids)
        × ((g : ℕ) → Shapes g kids → Shape 1 g u → Shapes g kids')

shift :
    {rows : List Row} (xs ys : List Row) (es : List Row) (r : Row)
    → rows ≡ xs ++ ys
    → es ++ r ∷ rows ≡ (es ++ r ∷ xs) ++ ys
shift xs ys es r e = ap (λ t. es ++ r ∷ t) e ∙ sym (append_assoc es (r ∷ xs) ys)

pub Fits-Inside :
    (key : Text) (keys : List Row) (kids : BNodes) (i : ℕ) (t : BNode)
    → Fits key keys i
    → count kids ≡ suc (length keys)
    → kid_at kids i ≡ some t
    → Ascending (woven keys kids)
    → Inside key keys kids i t
unfolding entries Shape
Fits-Inside key keys none_left i t f c e a = absurd (omega (arith, c))
Fits-Inside key [] (more s (more u us)) i t f c e a = absurd (omega (arith, c))
Fits-Inside key [] (more s none_left) (suc i) t f c e a = elim f [ ]
Fits-Inside key [] (more s none_left) zero t f c e a =
    let same : s ≡ t = cc in
    subst (λ x. Inside key [] (more s none_left) zero x) same
      (record {
        before = [];
        behind = [];
        below = tt;
        ahead = tt;
        whole = refl;
        changed = λ u. (more u none_left, refl, refl, refl, λ g h k. (k, tt));
      })
Fits-Inside key (r ∷ rows) (more s ts) zero t f c e a =
    let same : s ≡ t = cc in
    subst (λ x. Inside key (r ∷ rows) (more s ts) zero x) same
      (record {
        before = [];
        behind = r ∷ woven rows ts;
        below = tt;
        ahead = f;
        whole = refl;
        changed = λ u. (more u ts, refl, refl, refl, λ g h k. (k, h.1));
      })
Fits-Inside key (r ∷ rows) (more s ts) (suc i) t f c e a =
    let deeper =
      Fits-Inside key rows ts i t f.1 (omega (arith, c)) e
        (Ascending-right (entries s) (r ∷ woven rows ts) a).1 in
    let front =
      Below-lt r.0 key (entries s) (lt_of_gt key r.0 f.0)
        (Ascending-Below (entries s) r (woven rows ts) a) in
    record {
      before = entries s ++ r ∷ deeper.before;
      behind = deeper.behind;
      below =
          All-append (λ x. compare_text x.0 key ≡ lt) (entries s) (r ∷ deeper.before) front
            (lt_of_gt key r.0 f.0, deeper.below);
      ahead = deeper.ahead;
      whole = shift deeper.before _ (entries s) r deeper.whole;
      changed = λ u.
          let (ts', put, whole', size, shapes) = deeper.changed u in
          (
            more s ts',
            rw put refl,
            shift deeper.before _ (entries s) r whole',
            ap suc size,
            λ g h k. (h.0, shapes g h.1 k),
          );
    }

-- a row of the node, with the rows before it and those behind it
pub record At (key : Text) (keys : List Row) (kids : BNodes) (i : ℕ) : Type 0 where
  pub name : Text
  pub val : Elem
  pub same : compare_text key name ≡ eq
  pub read : get_elem? keys i ≡ some (name, val)
  pub before : List Row
  pub behind : List Row
  pub below : Below name before
  pub whole : woven keys kids ≡ before ++ (name, val) ∷ behind
  pub changed :
      (new : Elem)
      → (keys' : List Row) × (write_at key new keys i ≡ some keys')
        × (length keys' ≡ length keys)
        × (woven keys' kids ≡ before ++ (name, new) ∷ behind)

pub FoundAt-At :
    (key : Text) (keys : List Row) (kids : BNodes) (i : ℕ)
    → FoundAt key keys i
    → Ascending (woven keys kids)
    → At key keys kids i
unfolding entries
FoundAt-At key [] kids i f a = elim f [ ]
FoundAt-At key (r ∷ rows) none_left zero f a = record {
  name = r.0;
  val = r.1;
  same = f;
  read = refl;
  before = [];
  behind = rows;
  below = tt;
  whole = refl;
  changed = λ new. ((r.0, new) ∷ rows, rw f refl, refl, refl);
}
FoundAt-At key (r ∷ rows) (more s ts) zero f a = record {
  name = r.0;
  val = r.1;
  same = f;
  read = refl;
  before = entries s;
  behind = woven rows ts;
  below = Ascending-Below (entries s) r (woven rows ts) a;
  whole = refl;
  changed = λ new. ((r.0, new) ∷ rows, rw f refl, refl, refl);
}
FoundAt-At key (r ∷ rows) none_left (suc i) f a =
    let deeper = FoundAt-At key rows none_left i f.1 a.1 in
    record {
      name = deeper.name;
      val = deeper.val;
      same = deeper.same;
      read = deeper.read;
      before = r ∷ deeper.before;
      behind = deeper.behind;
      below =
          Ascending-Below (r ∷ deeper.before) (deeper.name, deeper.val) deeper.behind
            (subst Ascending (ap (λ t. r ∷ t) deeper.whole) a);
      whole = ap (λ t. r ∷ t) deeper.whole;
      changed = λ new.
          let (keys', put, size, whole') = deeper.changed new in
          (r ∷ keys', rw put refl, ap suc size, ap (λ t. r ∷ t) whole');
    }
FoundAt-At key (r ∷ rows) (more s ts) (suc i) f a =
    let deeper =
      FoundAt-At key rows ts i f.1 (Ascending-right (entries s) (r ∷ woven rows ts) a).1 in
    let whole = shift deeper.before _ (entries s) r deeper.whole in
    record {
      name = deeper.name;
      val = deeper.val;
      same = deeper.same;
      read = deeper.read;
      before = entries s ++ r ∷ deeper.before;
      behind = deeper.behind;
      below =
          Ascending-Below (entries s ++ r ∷ deeper.before) (deeper.name, deeper.val) deeper.behind
            (subst Ascending whole a);
      whole = whole;
      changed = λ new.
          let (keys', put, size, whole') = deeper.changed new in
          (r ∷ keys', rw put refl, ap suc size, shift deeper.before _ (entries s) r whole');
    }

-- a child of a node in order
pub kid_at_lem :
    (g : ℕ) (kids : BNodes) (i : ℕ)
    → Shapes g kids
    → i < count kids
    → (t : BNode) × (kid_at kids i ≡ some t) × Shape 1 g t
unfolding Shape
kid_at_lem g none_left i s h = absurd (omega arith)
kid_at_lem g (more t ts) zero s h = (t, refl, s.0)
kid_at_lem g (more t ts) (suc i) s h = kid_at_lem g ts i s.1 (omega arith)
