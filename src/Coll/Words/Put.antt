-- ===== src/Coll/Words/Put.antt =====
-- The changes of `pt` to a collection in order.
use mathlib.Core.Path.{subst}
use zown.Prelude.{
  ℕ, zero, suc, ◌+◌, ◌≤◌, ◌<◌, ◌≡◌, refl, ap, ◌∙◌, Bool, true, false, List, [], ◌∷◌, ◌++◌, map,
  Option, none, some, Text, text, length, length-append, if◌then◌else◌, All, arith, Bool-cases, inl,
  inr, text_eq,
}
use zown.Prelude.Int.{ℤ, pos, negsuc}
use zown.Prelude.Outcome.{ok, ◌>>=◌, Ends, value, error, Ends-map, Ends-bind, Ends-seq}
use zown.Coll.Store.{Elem, Kind, ls, qu, mp, sc, te, ti, pq, rg, bm, bv, CollStore, BNode}
use zown.Coll.TextOrder.{compare_text, Ordering-cases}
use zown.Coll.Rows.{Row, lookup, put_row, put_row-Ascending}
use zown.Coll.Tree.{tree_put, tree_count}
use zown.Coll.Tree.Shape.{entries}
use zown.Coll.Tree.Get.{tree_count_lem, tree_get_lem}
use zown.Coll.Tree.Put.{tree_put_lem}
use zown.Coll.Trie.Form.{trie_put-IsTrie}
use zown.Coll.Trie.{trie_has}
use zown.Coll.Words.{Value, coll_max}
use zown.Coll.Words.Bits.{or_bit, clear_bit, pair_get, pair_insert}
use zown.Coll.Words.Changes.{
  or_panic, index, as_bit, put_bit, put_pair, room_in_tree, pt_change, add_key, trie_change,
}
use zown.Coll.Words.Order.{IsElem, IsMap, IsTreeMap, HasBits, IsStore, IsValue}
use zown.Coll.Words.Bytes.{change_bit_lem, or_bit-byte, clear_bit-byte}
use zown.Coll.Words.Kept.{Anything, room_for-Ends, elem-Ends, key_str-Ends, plain-Ends, with_bits}
use zown.Coll.Words.Taken.{index-lt, bits_fault-Ends}

as_bit-Ends : (n : ℤ) → Ends Anything (as_bit n)
as_bit-Ends (pos zero) = value tt
as_bit-Ends (pos (suc zero)) = value tt
as_bit-Ends (pos (suc (suc n))) = error
as_bit-Ends (negsuc n) = error

put_bit-Ends :
    (i : ℤ) (b : Bool) (s : CollStore) (o : Option ℕ)
    → IsStore s
    → 0 < s.nbits
    → ((k : ℕ) → o ≡ some k → k < s.nbits)
    → Ends IsStore (put_bit i b s o)
put_bit-Ends i b s none h p inside = bits_fault-Ends IsStore (text "pt") i s.nbits p
put_bit-Ends i b s (some k) h p inside =
    let (bits, e, size, bytes) =
      change_bit_lem (if b then or_bit else clear_bit) s.bits k s.nbits (small b) h.bits.size
        h.bits.bytes (inside k refl) in
    rw e (
      value
        (with_bits s h bits (record { size = size; bytes = bytes; some_bits = h.bits.some_bits })))
  where
    small : (b : Bool) (c k : ℕ) → c < 256 → k < 8 → (if b then or_bit else clear_bit) c k < 256
    small true = or_bit-byte
    small false = clear_bit-byte

module _ (s : CollStore) (h : IsStore s) where
  with_pairs :
      (pairs : List (Text × Elem)) (order : List Text)
      → IsMap pairs order
      → IsStore (record s { order = order; pairs = pairs })
  with_pairs pairs order m = record {
    list = h.list;
    pairs = m;
    set = h.set;
    tree = h.tree;
    trie = h.trie;
    form = h.form;
    queue = h.queue;
    bits = h.bits;
  }

  with_root : (root : BNode) → IsTreeMap root → IsStore (record s { root = root })
  with_root root t = record {
    list = h.list;
    pairs = h.pairs;
    set = h.set;
    tree = t;
    trie = h.trie;
    form = h.form;
    queue = h.queue;
    bits = h.bits;
  }

abbrev Good : Text × Elem → Type 0
Good p = IsElem p.1

abbrev names : List (Text × Elem) → List Text
names ps = map (λ p. p.0) ps

module _ (key : Text) (val : Elem) where
  pair_insert-elems :
      (ps : List (Text × Elem)) → All Good ps → IsElem val → All Good (pair_insert ps key val)
  pair_insert-elems [] h u = (u, tt)
  pair_insert-elems (p ∷ ps) h u = elim (Bool-cases (text_eq p.0 key)) [
    | inl t ↦ rw t (u, h.1)
    | inr f ↦ rw f (h.0, pair_insert-elems ps h.1 u)
  ]

  -- a key that is there keeps its place
  names-pair_insert :
      (ps : List (Text × Elem)) (old : Elem)
      → pair_get ps key ≡ some old
      → names (pair_insert ps key val) ≡ names ps
  names-pair_insert [] old e = cc
  names-pair_insert (p ∷ ps) old e = elim (Bool-cases (text_eq p.0 key)) [
    | inl t ↦ rw t refl
    | inr f ↦ rw f (ap (λ t. p.0 ∷ t) (names-pair_insert ps old (rw f at e)))
  ]

  -- a new key is the last
  names-pair_insert_new :
      (ps : List (Text × Elem))
      → pair_get ps key ≡ none
      → names (pair_insert ps key val) ≡ names ps ++ key ∷ []
  names-pair_insert_new [] e = refl
  names-pair_insert_new (p ∷ ps) e = elim (Bool-cases (text_eq p.0 key)) [
    | inl t ↦ let found : some p.1 ≡ none = rw t at e in cc
    | inr f ↦ rw f (ap (λ t. p.0 ∷ t) (names-pair_insert_new ps (rw f at e)))
  ]

  put_row-elems : (rows : List Row) → All Good rows → IsElem val → All Good (put_row key val rows)
  put_row-elems [] h u = (u, tt)
  put_row-elems (r ∷ rows) h u = elim (Ordering-cases (compare_text key r.0)) [
    | inl e ↦ rw e (u, h)
    | inr (inl e) ↦ rw e (u, h.1)
    | inr (inr e) ↦ rw e (h.0, put_row-elems rows h.1 u)
  ]

  length-put_row_old :
      (rows : List Row) (old : Elem)
      → lookup key rows ≡ some old
      → length (put_row key val rows) ≡ length rows
  length-put_row_old [] old g = cc
  length-put_row_old (r ∷ rows) old g = elim (Ordering-cases (compare_text key r.0)) [
    | inl e ↦ let none_there : none ≡ some old = rw e at g in cc
    | inr (inl e) ↦ rw e refl
    | inr (inr e) ↦ rw e (ap suc (length-put_row_old rows old (rw e at g)))
  ]

  length-put_row_le : (rows : List Row) → length (put_row key val rows) ≤ length rows + 1
  length-put_row_le [] = omega arith
  length-put_row_le (r ∷ rows) = elim (Ordering-cases (compare_text key r.0)) [
    | inl e ↦ rw e (omega arith)
    | inr (inl e) ↦ rw e (omega arith)
    | inr (inr e) ↦ rw e (omega (arith, length-put_row_le rows))
  ]

put_pair-Ends :
    (key : Text) (val : Elem) (s : CollStore) (o : Option Elem)
    → pair_get s.pairs key ≡ o
    → IsStore s
    → IsElem val
    → Ends IsStore (put_pair key val s o)
put_pair-Ends key val s (some old) e h u = value (
    with_pairs s h (pair_insert s.pairs key val) s.order (record {
      keys = names-pair_insert key val s.pairs old e ∙ h.pairs.keys;
      elems = pair_insert-elems key val s.pairs h.pairs.elems u;
      size = h.pairs.size;
    }))
put_pair-Ends key val s none e h u =
    Ends-seq (room_for-Ends (text "pt") (length s.order + 1)) (λ _ room. value (
      with_pairs s h (pair_insert s.pairs key val) (s.order ++ key ∷ []) (record {
        keys = names-pair_insert_new key val s.pairs e ∙ ap (λ t. t ++ key ∷ []) h.pairs.keys;
        elems = pair_insert-elems key val s.pairs h.pairs.elems u;
        size = omega (arith, room, length-append s.order (key ∷ []));
      })))

room_in_tree-Ends :
    (key : Text) (val : Elem) (s : CollStore) (o : Option Elem)
    → lookup key (entries s.root) ≡ o
    → IsStore s
    → Ends (λ _. length (put_row key val (entries s.root)) ≤ coll_max) (room_in_tree s o)
room_in_tree-Ends key val s (some old) e h = value (
    omega (
      arith,
      h.tree.size,
      tree_count_lem s.root,
      length-put_row_old key val (entries s.root) old e,
    ))
room_in_tree-Ends key val s none e h =
    Ends-map
      (λ _ room.
        omega (arith, room, tree_count_lem s.root, length-put_row_le key val (entries s.root)))
      (room_for-Ends (text "pt") (tree_count s.root + 1))

tree_put-Ends :
    (key : Text) (val : Elem) (s : CollStore)
    → IsStore s
    → IsElem val
    → length (put_row key val (entries s.root)) ≤ coll_max
    → Ends IsStore (or_panic (tree_put s.root key val) >>= λ root. ok (record s { root = root }))
tree_put-Ends key val s h u room =
    let t = h.tree.tree in
    let (root, g, done, shape, put) = tree_put_lem t.height s.root key val t.shape t.ordered in
    rw done (
      value (
        with_root s h root (record {
          tree = record {
            height = g;
            shape = shape;
            ordered = rw put (put_row-Ascending key val (entries s.root) t.ordered);
          };
          elems = rw put (put_row-elems key val (entries s.root) h.tree.elems u);
          size = omega (arith, room, tree_count_lem root, ap length put);
        })))

pub pt_change-Ends :
    (m r : ℕ) (key top : Value) (heap : List CollStore) (kind : Kind) (s : CollStore)
    → s.kind ≡ kind
    → IsStore s
    → IsValue m key
    → IsValue m top
    → Ends IsStore (pt_change r key top heap kind s)
unfolding pt_change
pt_change-Ends m r key top heap bv s k h u v =
    Ends-bind (plain-Ends m (text "pt") heap (some r) key u) (λ i _.
      Ends-bind (plain-Ends m (text "pt") heap (some r) top v) (λ n _.
        Ends-bind (as_bit-Ends n) (λ b _.
          put_bit-Ends i b s (index (text "pt") i s.nbits) h
            (subst (λ kind. HasBits kind s.nbits) k h.bits.some_bits)
            (λ j e. index-lt (text "pt") i s.nbits j e))))
pt_change-Ends m r key top heap mp s k h u v =
    Ends-bind (key_str-Ends m (text "pt") heap (some r) key) (λ name _.
      Ends-bind (elem-Ends m (text "pt") heap (some r) top v)
        (λ val ok_elem. put_pair-Ends name val s (pair_get s.pairs name) refl h ok_elem))
pt_change-Ends m r key top heap te s k h u v =
    Ends-bind (key_str-Ends m (text "pt") heap (some r) key) (λ name _.
      Ends-bind (elem-Ends m (text "pt") heap (some r) top v) (λ val ok_elem.
        let t = h.tree.tree in
        rw (tree_get_lem 0 t.height s.root name t.shape t.ordered) (
          Ends-seq (room_in_tree-Ends name val s (lookup name (entries s.root)) refl h)
            (λ _ room. tree_put-Ends name val s h ok_elem room))))
pt_change-Ends m r key top heap ls s k h u v = error
pt_change-Ends m r key top heap qu s k h u v = error
pt_change-Ends m r key top heap sc s k h u v = error
pt_change-Ends m r key top heap ti s k h u v = error
pt_change-Ends m r key top heap pq s k h u v = error
pt_change-Ends m r key top heap rg s k h u v = error
pt_change-Ends m r key top heap bm s k h u v = error

add_key-Ends : (key : Text) (s : CollStore) → IsStore s → Ends IsStore (add_key key s)
add_key-Ends key s h = elim (Bool-cases (trie_has key s.trie)) [
  | inl t ↦ rw t (value h)
  | inr f ↦ rw f (
      Ends-seq (room_for-Ends (text "pt") (s.trie_n + 1)) (λ _ room. value (record {
        list = h.list;
        pairs = h.pairs;
        set = h.set;
        tree = h.tree;
        trie = room;
        form = trie_put-IsTrie key s.trie h.form;
        queue = h.queue;
        bits = h.bits;
      })))
]

pub trie_change-Ends :
    (m r : ℕ) (top : Value) (heap : List CollStore) (s : CollStore)
    → IsStore s
    → Ends IsStore (trie_change r top heap s)
unfolding trie_change
trie_change-Ends m r top heap s h =
    Ends-bind (key_str-Ends m (text "pt") heap (some r) top) (λ key _. add_key-Ends key s h)
