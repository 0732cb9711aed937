-- ===== src/Coll/Tree/Split.antt =====
-- `split_child` against the rows of the tree.
use Prim.Native.Nat.{lt, eq, gt}
use zown.Prelude.{
  ℕ, zero, suc, ◌≡◌, refl, ap, sym, ◌∙◌, true, false, List, [], ◌∷◌, ◌++◌, append_assoc, append-nil,
  Text, some, length, get_elem?, arith,
}
use zown.Coll.Store.{BNode, bnode, BNodes, none_left, more}
use zown.Coll.TextOrder.{compare_text}
use zown.Coll.Rows.{Row}
use zown.Coll.Tree.{keys_of, count, kid_at, set_kid, insert_kid, insert_key, split_node}
use zown.Coll.Tree.Shape.{entries, woven, Shape, Shapes}
use zown.Coll.Tree.Place.{Fits, FoundAt}

-- the two halves of a full node
pub record Halves (g : ℕ) (y : BNode) : Type 0 where
  pub left : BNode
  pub median : Row
  pub right : BNode
  pub split : split_node y ≡ some (left, median, right)
  pub left_shape : Shape 1 g left
  pub right_shape : Shape 1 g right
  pub left_size : length (keys_of left) ≡ 1
  pub right_size : length (keys_of right) ≡ 1
  pub whole : entries y ≡ entries left ++ median ∷ entries right

pub split_node_lem : (g : ℕ) (y : BNode) → Shape 1 g y → length (keys_of y) ≡ 3 → Halves g y
unfolding entries Shape
split_node_lem g (bnode true (a ∷ b ∷ c ∷ []) none_left) s h = record {
  left = bnode true (a ∷ []) none_left;
  median = b;
  right = bnode true (c ∷ []) none_left;
  split = refl;
  left_shape = (omega arith, omega arith, s.2);
  right_shape = (omega arith, omega arith, s.2);
  left_size = refl;
  right_size = refl;
  whole = refl;
}
split_node_lem g (bnode false (a ∷ b ∷ c ∷ []) (more t (more u (more v (more w none_left))))) s h =
    let (f, e, first, others) = s.2.2 in
    record {
      left = bnode false (a ∷ []) (more t (more u none_left));
      median = b;
      right = bnode false (c ∷ []) (more v (more w none_left));
      split = refl;
      left_shape = (omega arith, omega arith, (refl, refl, (f, e, first, (others.0, tt))));
      right_shape =
          (omega arith, omega arith, (refl, refl, (f, e, others.1.0, (others.1.1.0, tt))));
      left_size = refl;
      right_size = refl;
      whole =
          ap (λ x. entries t ++ a ∷ x)
            (ap (λ x. x ++ b ∷ (entries v ++ c ∷ (entries w ++ []))) (sym (append-nil (entries u))))
          ∙ sym (append_assoc (entries t) (a ∷ (entries u ++ [])) _);
    }
split_node_lem g (bnode leaf [] kids) s h = absurd (omega (arith, h))
split_node_lem g (bnode leaf (a ∷ []) kids) s h = absurd (omega (arith, h))
split_node_lem g (bnode leaf (a ∷ b ∷ []) kids) s h = absurd (omega (arith, h))
split_node_lem g (bnode leaf (a ∷ b ∷ c ∷ d ∷ keys) kids) s h = absurd (omega (arith, h))
split_node_lem g (bnode true (a ∷ b ∷ c ∷ []) (more t ts)) s h = cc
split_node_lem g (bnode false (a ∷ b ∷ c ∷ []) none_left) s h = cc
split_node_lem g (bnode false (a ∷ b ∷ c ∷ []) (more t none_left)) s h =
    absurd (omega (arith, s.2.1))
split_node_lem g (bnode false (a ∷ b ∷ c ∷ []) (more t (more u none_left))) s h =
    absurd (omega (arith, s.2.1))
split_node_lem g (bnode false (a ∷ b ∷ c ∷ []) (more t (more u (more v none_left)))) s h =
    absurd (omega (arith, s.2.1))
split_node_lem g (bnode false (a ∷ b ∷ c ∷ []) (more t (more u (more v (more w (more x ts)))))) s
      h =
    absurd (omega (arith, s.2.1))

-- a node in which a child is replaced by its halves
pub record Spliced (keys : List Row) (kids : BNodes) (i g : ℕ) (left right : BNode) (median : Row)
    : Type 0 where
  pub stayed : BNodes
  pub kids' : BNodes
  pub keys' : List Row
  pub put : set_kid kids i left ≡ some stayed
  pub put_kid : insert_kid stayed (suc i) right ≡ some kids'
  pub put_key : insert_key keys i median ≡ some keys'
  pub keys_size : length keys' ≡ suc (length keys)
  pub kids_size : count kids' ≡ suc (count kids)
  pub shapes : Shapes g kids'
  pub whole : woven keys' kids' ≡ woven keys kids
  pub at_left : kid_at kids' i ≡ some left
  pub at_right : kid_at kids' (suc i) ≡ some right
  pub at_median : get_elem? keys' i ≡ some median
  pub place_lt : (key : Text) → Fits key keys i → compare_text key median.0 ≡ lt → Fits key keys' i
  pub place_eq :
      (key : Text) → Fits key keys i → compare_text key median.0 ≡ eq → FoundAt key keys' i
  pub place_gt :
      (key : Text) → Fits key keys i → compare_text key median.0 ≡ gt → Fits key keys' (suc i)

middle :
    (keys : List Row) (ts : BNodes) (b : Row) (l r t y : BNode)
    → t ≡ y
    → entries y ≡ entries l ++ b ∷ entries r
    → entries l ++ b ∷ woven keys (more r ts) ≡ woven keys (more t ts)
unfolding entries
middle [] ts b l r t y e w = sym (
    ap (λ x. entries x ++ woven [] ts) e
    ∙ ap (λ x. x ++ woven [] ts) w
    ∙ append_assoc (entries l) (b ∷ entries r) (woven [] ts))
middle (k ∷ keys) ts b l r t y e w = sym (
    ap (λ x. entries x ++ k ∷ woven keys ts) e
    ∙ ap (λ x. x ++ k ∷ woven keys ts) w
    ∙ append_assoc (entries l) (b ∷ entries r) (k ∷ woven keys ts))

pub splice_lem :
    (keys : List Row) (kids : BNodes) (i g : ℕ) (y left right : BNode) (median : Row)
    → kid_at kids i ≡ some y
    → entries y ≡ entries left ++ median ∷ entries right
    → count kids ≡ suc (length keys)
    → Shapes g kids
    → Shape 1 g left
    → Shape 1 g right
    → Spliced keys kids i g left right median
unfolding entries Shape
splice_lem keys none_left i g y l r b e w c s sl sr = cc
splice_lem keys (more t ts) zero g y l r b e w c s sl sr = record {
  stayed = more l ts;
  kids' = more l (more r ts);
  keys' = b ∷ keys;
  put = refl;
  put_kid = refl;
  put_key = refl;
  keys_size = refl;
  kids_size = refl;
  shapes = (sl, (sr, s.1));
  whole = middle keys ts b l r t y (cc) w;
  at_left = refl;
  at_right = refl;
  at_median = refl;
  place_lt = λ key f h. h;
  place_eq = λ key f h. h;
  place_gt = λ key f h. (h, f);
}
splice_lem [] (more t none_left) (suc i) g y l r b e w c s sl sr = cc
splice_lem [] (more t (more u us)) (suc i) g y l r b e w c s sl sr = absurd (omega (arith, c))
splice_lem (k ∷ keys) (more t ts) (suc i) g y l r b e w c s sl sr =
    let deeper = splice_lem keys ts i g y l r b e w (omega (arith, c)) s.1 sl sr in
    record {
      stayed = more t deeper.stayed;
      kids' = more t deeper.kids';
      keys' = k ∷ deeper.keys';
      put = rw deeper.put refl;
      put_kid = rw deeper.put_kid refl;
      put_key = rw deeper.put_key refl;
      keys_size = ap suc deeper.keys_size;
      kids_size = ap suc deeper.kids_size;
      shapes = (s.0, deeper.shapes);
      whole = ap (λ x. entries t ++ k ∷ x) deeper.whole;
      at_left = deeper.at_left;
      at_right = deeper.at_right;
      at_median = deeper.at_median;
      place_lt = λ key f h. (f.0, deeper.place_lt key f.1 h);
      place_eq = λ key f h. (f.0, deeper.place_eq key f.1 h);
      place_gt = λ key f h. (f.0, deeper.place_gt key f.1 h);
    }
