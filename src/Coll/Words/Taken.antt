-- ===== src/Coll/Words/Taken.antt =====
-- The values that `po`, `gt` and `hs` take from a collection in order.
use mathlib.Core.Path.{subst}
use zown.Prelude.{
  ℕ, zero, suc, ◌≤◌, ◌<◌, ◌≡◌, refl, Bool, true, false, List, [], ◌∷◌, Option, none, some, Text,
  text, length, ◌==◌, All, arith, Bool-cases, inl, inr, text_eq,
}
use zown.Prelude.Int.{ℤ, pos, negsuc}
use zown.Prelude.Outcome.{ok, ◌>>=◌, Ends, value, error, Ends-bind}
use zown.Buf.Lists.{get-All}
use zown.Coll.Store.{Elem, Kind, ls, qu, mp, sc, te, ti, pq, rg, bm, bv, CollStore, Entry}
use zown.Coll.Perms.{length-Perm}
use zown.Coll.TextOrder.{compare_text, Ordering-cases}
use zown.Coll.Rows.{Row, lookup}
use zown.Coll.Heap.{heap_pop, pop_last}
use zown.Coll.Heap.Refines.{Represents, heap_pop_lem}
use zown.Coll.Tree.Shape.{entries}
use zown.Coll.Tree.Get.{tree_get_lem}
use zown.Coll.Words.{Value, int, elem_value}
use zown.Coll.Words.Bits.{pair_get}
use zown.Coll.Words.Changes.{
  or_panic, take_item, take_least, po_change, index, list_item, bits_fault, one_or_zero, bit_item,
  or_absent, gt_value, hs_value,
}
use zown.Coll.Words.Order.{IsElem, IsRing, HasBits, IsStore, IsValue}
use zown.Coll.Words.Bytes.{read_bit_lem}
use zown.Coll.Words.Kept.{elem-Ends, key_str-Ends, plain-Ends, with_list, with_heap, bucket-Ends}

elem_value-IsValue : (m : ℕ) (e : Elem) → IsElem e → IsValue m (elem_value e)
elem_value-IsValue m (Elem.int n) h = h
elem_value-IsValue m (Elem.str s) h = tt

-- A value of the machine, and a collection in order.
abbrev pub Taken : ℕ → Value × CollStore → Type 0
Taken m t = IsValue m t.0 × IsStore t.1

take_least-Ends : (m : ℕ) (s : CollStore) → IsStore s → Ends (Taken m) (take_least s)
take_least-Ends m s h = elim (Bool-cases (length s.heap == 0)) [
  | inl t ↦ rw t error
  | inr f ↦ rw f (go h.queue.queue h.queue.holds (ground arith))
]
  where
    go :
        (q : List Entry)
        → Represents s.heap q
        → 0 < length s.heap
        → Ends (Taken m) (or_panic (heap_pop s.heap) >>= λ t. ok (int t.0, record s { heap = t.1 }))
    go [] r p = absurd (omega (arith, p, length-Perm r.same))
    go (x ∷ q) r p =
        let (rest, e, r') = heap_pop_lem s.heap x q r in
        rw e (
          value (
            r.entries.0.value,
            with_heap s h s.seq rest (record {
              queue = q;
              holds = r';
              size = omega (arith, h.queue.size, length-Perm r.same, length-Perm r'.same);
            }),
          ))

pop_last-All :
    (x : Elem) (xs : List Elem)
    → All IsElem (x ∷ xs)
    → IsElem (pop_last x xs).1
      × All IsElem (pop_last x xs).0
      × (length (pop_last x xs).0 ≡ length xs)
pop_last-All x [] h = (h.0, tt, refl)
pop_last-All x (y ∷ ys) h = let (a, b, c) = pop_last-All y ys h.1 in (a, (h.0, b), omega (arith, c))

-- items that are no more than before
fewer :
    (s : CollStore) (items : List Elem)
    → IsStore s
    → All IsElem items
    → length items ≤ length s.items
    → IsStore (record s { items = items })
fewer s items h elems few = with_list s h items (record {
  elems = elems;
  size = omega (arith, few, h.list.size);
  ring = ring s.kind h.list.ring;
})
  where
    ring : (kind : Kind) → IsRing kind (length s.items) s.cap → IsRing kind (length items) s.cap
    ring rg r = (omega (arith, r.0, few), r.1)
    ring ls r = tt
    ring qu r = tt
    ring mp r = tt
    ring sc r = tt
    ring te r = tt
    ring ti r = tt
    ring pq r = tt
    ring bm r = tt
    ring bv r = tt

take_item-Ends :
    (kind : Kind) (items : List Elem)
    → All IsElem items
    → Ends (λ t. IsElem t.0 × All IsElem t.1 × (length t.1 ≤ length items)) (take_item kind items)
take_item-Ends kind [] h = error
take_item-Ends ls (x ∷ xs) h = let (a, b, c) = pop_last-All x xs h in value (a, b, omega (arith, c))
take_item-Ends qu (x ∷ xs) h = value (h.0, h.1, omega arith)
take_item-Ends mp (x ∷ xs) h = value (h.0, h.1, omega arith)
take_item-Ends sc (x ∷ xs) h = value (h.0, h.1, omega arith)
take_item-Ends te (x ∷ xs) h = value (h.0, h.1, omega arith)
take_item-Ends ti (x ∷ xs) h = value (h.0, h.1, omega arith)
take_item-Ends pq (x ∷ xs) h = value (h.0, h.1, omega arith)
take_item-Ends rg (x ∷ xs) h = value (h.0, h.1, omega arith)
take_item-Ends bm (x ∷ xs) h = value (h.0, h.1, omega arith)
take_item-Ends bv (x ∷ xs) h = value (h.0, h.1, omega arith)

take_po :
    (m : ℕ) (kind : Kind) (s : CollStore)
    → IsStore s
    → Ends (Taken m) (take_item kind s.items >>= λ t. ok (elem_value t.0, record s { items = t.1 }))
take_po m kind s h =
    Ends-bind (take_item-Ends kind s.items h.list.elems)
      (λ t r. value (elem_value-IsValue m t.0 r.0, fewer s t.1 h r.1 r.2))

pub po_change-Ends :
    (m : ℕ) (kind : Kind) (s : CollStore) → IsStore s → Ends (Taken m) (po_change kind s)
unfolding po_change
po_change-Ends m ls s h = take_po m ls s h
po_change-Ends m qu s h = take_po m qu s h
po_change-Ends m mp s h = take_po m mp s h
po_change-Ends m sc s h = take_po m sc s h
po_change-Ends m te s h = take_po m te s h
po_change-Ends m ti s h = take_po m ti s h
po_change-Ends m pq s h = take_least-Ends m s h
po_change-Ends m rg s h = take_po m rg s h
po_change-Ends m bm s h = take_po m bm s h
po_change-Ends m bv s h = take_po m bv s h

one_or_zero-IsValue : (m : ℕ) (b : Bool) → IsValue m (one_or_zero b)
one_or_zero-IsValue m true = refl
one_or_zero-IsValue m false = refl

pub index-lt : (w : Text) (i : ℤ) (n k : ℕ) → index w i n ≡ some k → k < n
index-lt w (pos i) n k h = ground arith
index-lt w (negsuc i) n k h = cc

list_item-Ends :
    (m : ℕ) (i : ℤ) (items : List Elem) (o : Option ℕ)
    → All IsElem items
    → ((k : ℕ) → o ≡ some k → k < length items)
    → Ends (IsValue m) (list_item i items o)
list_item-Ends m i items (some k) h inside =
    let (e, at, u) = get-All IsElem items k h (inside k refl) in
    rw at (value (elem_value-IsValue m e u))
list_item-Ends m i items none h inside = elim (Bool-cases (length items == 0)) [
  | inl t ↦ rw t error
  | inr f ↦ rw f error
]

pub bits_fault-Ends :
    {A : Type 0} (P : A → Type 0) (w : Text) (i : ℤ) (n : ℕ) → 0 < n → Ends P (bits_fault w i n)
bits_fault-Ends P w i zero h = absurd (omega arith)
bits_fault-Ends P w i (suc n) h = error

bit_item-Ends :
    (m : ℕ) (i : ℤ) (s : CollStore) (o : Option ℕ)
    → IsStore s
    → 0 < s.nbits
    → ((k : ℕ) → o ≡ some k → k < s.nbits)
    → Ends (IsValue m) (bit_item i s o)
bit_item-Ends m i s none h p inside = bits_fault-Ends (IsValue m) (text "gt") i s.nbits p
bit_item-Ends m i s (some k) h p inside =
    let (b, e) = read_bit_lem s.bits k s.nbits h.bits.size (inside k refl) in
    rw e (value (one_or_zero-IsValue m b))

or_absent-Ends :
    (m : ℕ) (key : Text) (o : Option Elem)
    → ((e : Elem) → o ≡ some e → IsElem e)
    → Ends (IsValue m) (or_absent key o)
or_absent-Ends m key none h = error
or_absent-Ends m key (some e) h = value (elem_value-IsValue m e (h e refl))

some_inj : (d e : Elem) → some d ≡ some e → d ≡ e
some_inj d e h = cc

pair_get-IsElem :
    (ps : List (Text × Elem)) (key : Text)
    → All (λ p. IsElem p.1) ps
    → (e : Elem) → pair_get ps key ≡ some e
    → IsElem e
pair_get-IsElem [] key h e g = cc
pair_get-IsElem (p ∷ ps) key h e g = elim (Bool-cases (text_eq p.0 key)) [
  | inl t ↦ let same : p.1 ≡ e = some_inj p.1 e (rw t at g) in subst IsElem same h.0
  | inr f ↦ pair_get-IsElem ps key h.1 e (rw f at g)
]

lookup-IsElem :
    (key : Text) (rows : List Row)
    → All (λ p. IsElem p.1) rows
    → (e : Elem) → lookup key rows ≡ some e
    → IsElem e
lookup-IsElem key [] h e g = cc
lookup-IsElem key (r ∷ rows) h e g = elim (Ordering-cases (compare_text key r.0)) [
  | inl o ↦ let none_there : none ≡ some e = rw o at g in cc
  | inr (inl o) ↦ let same : some r.1 ≡ some e = rw o at g in subst IsElem (some_inj r.1 e same) h.0
  | inr (inr o) ↦ lookup-IsElem key rows h.1 e (rw o at g)
]

pub gt_value-Ends :
    (m : ℕ) (x : Value) (heap : List CollStore) (kind : Kind) (s : CollStore)
    → s.kind ≡ kind
    → IsStore s
    → IsValue m x
    → Ends (IsValue m) (gt_value x heap kind s)
unfolding gt_value
gt_value-Ends m x heap ls s k h u = Ends-bind (plain-Ends m (text "gt") heap none x u) (λ i _.
    list_item-Ends m i s.items (index (text "gt") i (length s.items)) h.list.elems
      (λ j e. index-lt (text "gt") i (length s.items) j e))
gt_value-Ends m x heap bv s k h u = Ends-bind (plain-Ends m (text "gt") heap none x u) (λ i _.
    bit_item-Ends m i s (index (text "gt") i s.nbits) h
      (subst (λ kind. HasBits kind s.nbits) k h.bits.some_bits)
      (λ j e. index-lt (text "gt") i s.nbits j e))
gt_value-Ends m x heap mp s k h u = Ends-bind (key_str-Ends m (text "gt") heap none x) (λ key _.
    or_absent-Ends m key (pair_get s.pairs key) (pair_get-IsElem s.pairs key h.pairs.elems))
gt_value-Ends m x heap te s k h u = Ends-bind (key_str-Ends m (text "gt") heap none x) (λ key _.
    let t = h.tree.tree in
    rw (tree_get_lem 0 t.height s.root key t.shape t.ordered) (
      or_absent-Ends m key (lookup key (entries s.root))
        (lookup-IsElem key (entries s.root) h.tree.elems)))
gt_value-Ends m x heap qu s k h u = error
gt_value-Ends m x heap sc s k h u = error
gt_value-Ends m x heap ti s k h u = error
gt_value-Ends m x heap pq s k h u = error
gt_value-Ends m x heap rg s k h u = error
gt_value-Ends m x heap bm s k h u = error

pub hs_value-Ends :
    (m : ℕ) (x : Value) (heap : List CollStore) (kind : Kind) (s : CollStore)
    → s.kind ≡ kind
    → IsStore s
    → IsValue m x
    → Ends (IsValue m) (hs_value x heap kind s)
unfolding hs_value
hs_value-Ends m x heap sc s k h u =
    Ends-bind (elem-Ends m (text "hs") heap none x u) (λ e _. value (one_or_zero-IsValue m _))
hs_value-Ends m x heap ti s k h u =
    Ends-bind (key_str-Ends m (text "hs") heap none x) (λ key _. value (one_or_zero-IsValue m _))
hs_value-Ends m x heap bm s k h u = Ends-bind (key_str-Ends m (text "hs") heap none x) (λ key _.
    Ends-bind (bucket-Ends key s.nbits (subst (λ kind. HasBits kind s.nbits) k h.bits.some_bits))
      (λ i inside.
        let (b, e) = read_bit_lem s.bits i s.nbits h.bits.size inside in
        rw e (value (one_or_zero-IsValue m b))))
hs_value-Ends m x heap ls s k h u = error
hs_value-Ends m x heap qu s k h u = error
hs_value-Ends m x heap mp s k h u = error
hs_value-Ends m x heap te s k h u = error
hs_value-Ends m x heap pq s k h u = error
hs_value-Ends m x heap rg s k h u = error
hs_value-Ends m x heap bv s k h u = error
