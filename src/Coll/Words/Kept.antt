-- ===== src/Coll/Words/Kept.antt =====
-- The changes of `ps` to a collection in order, and what the words share.
use mathlib.Core.Path.{subst}
use zown.Prelude.{
  ℕ, zero, suc, ◌+◌, ◌-◌, ◌≤◌, ◌<◌, ◌≡◌, sym, true, ◌||◌, List, [], ◌∷◌, ◌++◌, Option, some, Text,
  text, length, length-append, ltb, All, arith, Bool-cases, inl, inr,
}
use zown.Prelude.Int.{ℤ, pos, ◌+ℤ◌}
use zown.Prelude.Outcome.{ok, Ends, value, error, ◌>>=◌, ◌>>◌, Ends-bind, Ends-seq}
use zown.BigInt.Word.{fits_i64}
use zown.Coll.Store.{Elem, Kind, ls, qu, mp, sc, te, ti, pq, rg, bm, bv, CollStore, Entry}
use zown.Coll.Rows.{All-append}
use zown.Coll.Heap.{heap_push, wrap_i64}
use zown.Coll.Heap.Refines.{place, place-Perm, heap_push_lem}
use zown.Coll.Perms.{length-Perm}
use zown.Coll.Words.{
  Value, int, str, coll, other, Result, elem, key_str, plain, coll_max, room_for, no_chars,
  has_space, has_newline,
}
use zown.Coll.Words.Bits.{or_bit, set_contains}
use zown.Coll.Words.Changes.{or_panic, bucket, insert_elem, drop_first, push_ring, ps_change}
use zown.Coll.Words.Order.{IsElem, IsRing, IsList, IsQueue, HasBits, IsBits, IsStore, IsValue}
use zown.Coll.Words.Bytes.{change_bit_lem, or_bit-byte}

abbrev pub Anything : {A : Type 0} → A → Type 0
Anything a = Unit

pub room_for-Ends : (w : Text) (n : ℕ) → Ends (λ u. n ≤ coll_max) (room_for w n)
room_for-Ends w n = elim (Bool-cases (ltb coll_max n)) [
  | inl t ↦ rw t error
  | inr f ↦ rw f (value (ground arith))
]

module _ (m : ℕ) (w : Text) (heap : List CollStore) (held : Option ℕ) where
  pub elem-Ends : (x : Value) → IsValue m x → Ends IsElem (elem w heap held x)
  elem-Ends (int n) h = value h
  elem-Ends (str s) h = elim (Bool-cases (has_newline s)) [
    | inl t ↦ rw t error
    | inr f ↦ rw f (value tt)
  ]
  elem-Ends (coll r e) h = error
  elem-Ends (other s) h = error

  pub key_str-Ends : (x : Value) → Ends Anything (key_str w heap held x)
  key_str-Ends (int n) = error
  key_str-Ends (str s) = elim (Bool-cases (no_chars s || has_space s)) [
    | inl t ↦ rw t error
    | inr f ↦ rw f (value tt)
  ]
  key_str-Ends (coll r e) = error
  key_str-Ends (other s) = error

  pub plain-Ends : (x : Value) → IsValue m x → Ends (λ n. fits_i64 n ≡ true) (plain w heap held x)
  plain-Ends (int n) h = value h
  plain-Ends (str s) h = error
  plain-Ends (coll r e) h = error
  plain-Ends (other s) h = error

module _ (s : CollStore) (h : IsStore s) where
  pub with_list :
      (items : List Elem) → IsList s.kind items s.cap → IsStore (record s { items = items })
  with_list items l = record {
    list = l;
    pairs = h.pairs;
    set = h.set;
    tree = h.tree;
    trie = h.trie;
    form = h.form;
    queue = h.queue;
    bits = h.bits;
  }

  pub with_heap :
      (seq : ℤ) (heap : List Entry) → IsQueue heap → IsStore (record s { seq = seq; heap = heap })
  with_heap seq heap q = record {
    list = h.list;
    pairs = h.pairs;
    set = h.set;
    tree = h.tree;
    trie = h.trie;
    form = h.form;
    queue = q;
    bits = h.bits;
  }

  pub with_bits : (bits : List ℕ) → IsBits s.kind bits s.nbits → IsStore (record s { bits = bits })
  with_bits bits b = record {
    list = h.list;
    pairs = h.pairs;
    set = h.set;
    tree = h.tree;
    trie = h.trie;
    form = h.form;
    queue = h.queue;
    bits = b;
  }

  pub with_set : (set : List Elem) → length set ≤ coll_max → IsStore (record s { set = set })
  with_set set l = record {
    list = h.list;
    pairs = h.pairs;
    set = l;
    tree = h.tree;
    trie = h.trie;
    form = h.form;
    queue = h.queue;
    bits = h.bits;
  }

pub bucket-Ends : (key : Text) (n : ℕ) → 0 < n → Ends (λ i. i < n) (bucket key n)
bucket-Ends key zero h = absurd (omega arith)
bucket-Ends key (suc n) h = value (omega arith)

pub heap_push-Ends :
    (s : CollStore) (n : ℤ)
    → IsStore s
    → fits_i64 n ≡ true
    → length s.heap + 1 ≤ coll_max
    → Ends IsStore (or_panic (heap_push s n))
heap_push-Ends s n h fits room =
    let (heap, e, r) = heap_push_lem s n h.queue.queue h.queue.holds fits in
    rw e (
      value (
        with_heap s h (wrap_i64 (s.seq +ℤ pos 1)) heap (record {
          queue = place (n, wrap_i64 (s.seq +ℤ pos 1)) h.queue.queue;
          holds = r;
          size = omega (
            arith,
            room,
            length-Perm r.same,
            length-Perm (place-Perm (n, wrap_i64 (s.seq +ℤ pos 1)) h.queue.queue),
            length-Perm h.queue.holds.same,
          );
        })))

length-drop_first : (xs : List Elem) → length (drop_first xs) ≡ length xs - 1
length-drop_first [] = omega arith
length-drop_first (x ∷ xs) = omega arith

All-drop_first : (xs : List Elem) → All IsElem xs → All IsElem (drop_first xs)
All-drop_first [] h = tt
All-drop_first (x ∷ xs) h = h.1

push_ring-IsStore :
    (s : CollStore) (e : Elem) → IsStore s → s.kind ≡ rg → IsElem e → IsStore (push_ring e s)
push_ring-IsStore s e h k u =
    let items = s.items ++ e ∷ [] in
    let size = length-append s.items (e ∷ []) in
    let elems = All-append IsElem s.items (e ∷ []) h.list.elems (u, tt) in
    let (few, cap) = subst (λ kind. IsRing kind (length s.items) s.cap) k h.list.ring in
    elim (Bool-cases (ltb s.cap (length items))) [
      | inl t ↦
          let size' = length-drop_first items in
          rw t (
            with_list s h (drop_first items) (record {
              elems = All-drop_first items elems;
              size = omega (arith, size, size', few, cap);
              ring =
                  subst (λ kind. IsRing kind (length (drop_first items)) s.cap) (sym k)
                    (omega (arith, size, size', few), cap);
            }))
      | inr f ↦
          let fits : length items ≤ s.cap = ground arith in
          rw f (
            with_list s h items (record {
              elems = elems;
              size = omega (arith, fits, cap);
              ring = subst (λ kind. IsRing kind (length items) s.cap) (sym k) (fits, cap);
            }))
    ]

pub push_item-IsStore :
    (s : CollStore) (e : Elem)
    → IsStore s
    → IsRing s.kind (length (s.items ++ e ∷ [])) s.cap
    → IsElem e
    → length s.items + 1 ≤ coll_max
    → IsStore (record s { items = s.items ++ e ∷ [] })
push_item-IsStore s e h ring u room =
    let size = length-append s.items (e ∷ []) in
    with_list s h (s.items ++ e ∷ []) (record {
      elems = All-append IsElem s.items (e ∷ []) h.list.elems (u, tt);
      size = omega (arith, size, room);
      ring = ring;
    })

insert_elem-Ends : (s : CollStore) (e : Elem) → IsStore s → Ends IsStore (insert_elem e s)
insert_elem-Ends s e h = elim (Bool-cases (set_contains s.set e)) [
  | inl t ↦ rw t (value h)
  | inr f ↦ rw f (
      Ends-seq (room_for-Ends (text "ps") (length (s.set ++ e ∷ [])))
        (λ _ room. value (with_set s h (s.set ++ e ∷ []) room)))
]

push_item :
    (s : CollStore)
    → IsStore s
    → ((n : ℕ) → IsRing s.kind n s.cap)
    → (m : Result Elem) → Ends IsElem m
    → Ends IsStore (
        m >>= λ e.
        room_for (text "ps") (length s.items + 1) >> ok (record s { items = s.items ++ e ∷ [] }))
push_item s h ring m ends = Ends-bind ends (λ e ok_elem.
    Ends-seq (room_for-Ends (text "ps") (length s.items + 1))
      (λ _ room. value (push_item-IsStore s e h (ring _) ok_elem room)))

pub ps_change-Ends :
    (m r : ℕ) (x : Value) (heap : List CollStore) (s : CollStore) (kind : Kind)
    → s.kind ≡ kind
    → IsStore s
    → IsValue m x
    → Ends IsStore (ps_change r x heap kind s)
unfolding ps_change
ps_change-Ends m r x heap s bm k h u =
    Ends-bind (key_str-Ends m (text "ps") heap (some r) x) (λ key _.
      Ends-bind (bucket-Ends key s.nbits (subst (λ kind. HasBits kind s.nbits) k h.bits.some_bits))
        (λ i lt.
          let (bits, e, size, bytes) =
            change_bit_lem or_bit s.bits i s.nbits or_bit-byte h.bits.size h.bits.bytes lt in
          rw e (
            value (
              with_bits s h bits
                (record { size = size; bytes = bytes; some_bits = h.bits.some_bits })))))
ps_change-Ends m r x heap s pq k h u =
    Ends-bind (plain-Ends m (text "ps") heap (some r) x u) (λ n fits.
      Ends-seq (room_for-Ends (text "ps") (length s.heap + 1))
        (λ _ room. heap_push-Ends s n h fits room))
ps_change-Ends m r x heap s sc k h u =
    Ends-bind (elem-Ends m (text "ps") heap (some r) x u) (λ e _. insert_elem-Ends s e h)
ps_change-Ends m r x heap s rg k h u =
    Ends-bind (elem-Ends m (text "ps") heap (some r) x u)
      (λ e ok_elem. value (push_ring-IsStore s e h k ok_elem))
ps_change-Ends m r x heap s ls k h u =
    push_item s h (λ n. subst (λ kind. IsRing kind n s.cap) (sym k) tt) _
      (elem-Ends m (text "ps") heap (some r) x u)
ps_change-Ends m r x heap s qu k h u =
    push_item s h (λ n. subst (λ kind. IsRing kind n s.cap) (sym k) tt) _
      (elem-Ends m (text "ps") heap (some r) x u)
ps_change-Ends m r x heap s mp k h u =
    push_item s h (λ n. subst (λ kind. IsRing kind n s.cap) (sym k) tt) _
      (elem-Ends m (text "ps") heap (some r) x u)
ps_change-Ends m r x heap s te k h u =
    push_item s h (λ n. subst (λ kind. IsRing kind n s.cap) (sym k) tt) _
      (elem-Ends m (text "ps") heap (some r) x u)
ps_change-Ends m r x heap s ti k h u =
    push_item s h (λ n. subst (λ kind. IsRing kind n s.cap) (sym k) tt) _
      (elem-Ends m (text "ps") heap (some r) x u)
ps_change-Ends m r x heap s bv k h u =
    push_item s h (λ n. subst (λ kind. IsRing kind n s.cap) (sym k) tt) _
      (elem-Ends m (text "ps") heap (some r) x u)
