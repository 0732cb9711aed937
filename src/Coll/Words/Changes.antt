-- ===== src/Coll/Words/Changes.antt =====
-- zownc/crates/zown-vm/src/coll.rs: what the words do with a collection, once they have it.
use zown.Prelude.{
  ℕ, zero, suc, ◌+◌, ◌-◌, ◌%◌, Bool, true, false, List, [], ◌∷◌, ◌++◌, Option, none, some, Text,
  text, length, get_elem?, ltb, ◌==◌, if◌then◌else◌,
}
use zown.Prelude.Int.{ℤ, pos, negsuc}
use zown.Prelude.Outcome.{ok, panic, ◌>>=◌, ◌>>◌}
use zown.Coll.Store.{Elem, Kind, ls, mp, sc, te, ti, pq, rg, bm, bv, CollStore}
use zown.Coll.Heap.{heap_push, heap_pop, pop_last}
use zown.Coll.Tree.{tree_count, tree_get, tree_put}
use zown.Coll.Trie.{trie_put, trie_has}
use zown.Coll.Words.{
  Value, int, Result, fault, type_mismatch, bounds, queue_empty, is_empty, outside_empty,
  outside_list, outside_bits, absent, not_bit, cannot_index, cannot_update, cannot_test, elem,
  key_str, plain, elem_value, room_for,
}
use zown.Coll.Words.Bits.{
  or_bit, clear_bit, read_bit, change_bit, fnv, set_contains, pair_get, pair_insert,
}

-- an `unwrap`, an index or a division that may panic
abbrev pub or_panic : {A : Type 0} → Option A → Result A
or_panic none = panic
or_panic (some a) = ok a

-- `fnv(&key) % nbits`
abbrev pub bucket : Text → ℕ → Result ℕ
bucket key zero = panic
bucket key (suc n) = ok (fnv key % suc n)

-- `g.set.insert(el)`, taken back above the limit
abbrev pub insert_elem : Elem → CollStore → Result CollStore
insert_elem e s = if set_contains s.set e then ok s else (do
  room_for (text "ps") (length (s.set ++ e ∷ []))
  ok (record s { set = s.set ++ e ∷ [] }))

-- `items.remove(0)`
abbrev pub drop_first : List Elem → List Elem
drop_first [] = []
drop_first (x ∷ xs) = xs

abbrev pub push_ring : Elem → CollStore → CollStore
push_ring e s =
    let items = s.items ++ e ∷ [] in
    record s { items = if ltb s.cap (length items) then drop_first items else items }

-- the `match` of `b_ps`
unfoldable pub ps_change : ℕ → Value → List CollStore → Kind → CollStore → Result CollStore
ps_change r v heap bm s = do
  key ← key_str (text "ps") heap (some r) v
  i ← bucket key s.nbits
  bits ← or_panic (change_bit or_bit s.bits i)
  ok (record s { bits = bits })
ps_change r v heap pq s = do
  n ← plain (text "ps") heap (some r) v
  room_for (text "ps") (length s.heap + 1)
  or_panic (heap_push s n)
ps_change r v heap sc s = do e ← elem (text "ps") heap (some r) v; insert_elem e s
ps_change r v heap rg s = do e ← elem (text "ps") heap (some r) v; ok (push_ring e s)
ps_change r v heap _ s = do
  e ← elem (text "ps") heap (some r) v
  room_for (text "ps") (length s.items + 1)
  ok (record s { items = s.items ++ e ∷ [] })

-- the rest of `b_po`: a value, and what is left
abbrev pub take_item : Kind → List Elem → Result (Elem × List Elem)
take_item kind [] = fault bounds (is_empty kind) (text "po")
take_item ls (x ∷ xs) = let (rest, last) = pop_last x xs in ok (last, rest)
take_item _ (x ∷ xs) = ok (x, xs)

abbrev pub take_least : CollStore → Result (Value × CollStore)
take_least s =
    if length s.heap == 0
    then fault bounds queue_empty (text "po")
    else (do (n, heap) ← or_panic (heap_pop s.heap); ok (int n, record s { heap = heap }))

unfoldable pub po_change : Kind → CollStore → Result (Value × CollStore)
po_change pq s = take_least s
po_change kind s = do
  (e, items) ← take_item kind s.items
  ok (elem_value e, record s { items = items })

-- an index below the length
abbrev pub index : Text → ℤ → ℕ → Option ℕ
index w (pos i) n = if ltb i n then some i else none
index w (negsuc i) n = none

abbrev pub list_item : ℤ → List Elem → Option ℕ → Result Value
list_item i items none =
    if length items == 0
    then fault bounds (outside_empty i) (text "gt")
    else fault bounds (outside_list i (length items - 1)) (text "gt")
list_item i items (some k) = do e ← or_panic (get_elem? items k); ok (elem_value e)

-- `nbits - 1` of the message; it panics at 0
abbrev pub bits_fault : {A : Type 0} → Text → ℤ → ℕ → Result A
bits_fault w i zero = panic
bits_fault w i (suc n) = fault bounds (outside_bits i n) w

abbrev pub one_or_zero : Bool → Value
one_or_zero true = int (pos 1)
one_or_zero false = int (pos 0)

abbrev pub bit_item : ℤ → CollStore → Option ℕ → Result Value
bit_item i s none = bits_fault (text "gt") i s.nbits
bit_item i s (some k) = do b ← or_panic (read_bit s.bits k); ok (one_or_zero b)

abbrev pub or_absent : Text → Option Elem → Result Value
or_absent key none = fault bounds (absent key) (text "gt")
or_absent key (some e) = ok (elem_value e)

-- the `match` of `b_gt`
unfoldable pub gt_value : Value → List CollStore → Kind → CollStore → Result Value
gt_value v heap ls s = do
  i ← plain (text "gt") heap none v
  list_item i s.items (index (text "gt") i (length s.items))
gt_value v heap bv s = do
  i ← plain (text "gt") heap none v
  bit_item i s (index (text "gt") i s.nbits)
gt_value v heap mp s = do
  key ← key_str (text "gt") heap none v
  or_absent key (pair_get s.pairs key)
gt_value v heap te s = do
  key ← key_str (text "gt") heap none v
  found ← or_panic (tree_get s.root key)
  or_absent key found
gt_value v heap kind s = fault type_mismatch (cannot_index kind) (text "gt")

-- the bit of a value; another integer is a fault
abbrev pub as_bit : ℤ → Result Bool
as_bit (pos zero) = ok false
as_bit (pos (suc zero)) = ok true
as_bit n = fault bounds (not_bit n) (text "pt")

abbrev pub put_bit : ℤ → Bool → CollStore → Option ℕ → Result CollStore
put_bit i b s none = bits_fault (text "pt") i s.nbits
put_bit i b s (some k) = do
  bits ← or_panic (change_bit (if b then or_bit else clear_bit) s.bits k)
  ok (record s { bits = bits })

abbrev pub put_pair : Text → Elem → CollStore → Option Elem → Result CollStore
put_pair key val s (some old) = ok (record s { pairs = pair_insert s.pairs key val })
put_pair key val s none = do
  room_for (text "pt") (length s.order + 1)
  ok (record s { order = s.order ++ key ∷ []; pairs = pair_insert s.pairs key val })

-- `if fresh && tree_count(&g.root) + 1 > BUF_MAX`
abbrev pub room_in_tree : CollStore → Option Elem → Result (Unit {0})
room_in_tree s (some old) = ok tt
room_in_tree s none = room_for (text "pt") (tree_count s.root + 1)

-- the `match` of `b_pt`
unfoldable pub pt_change : ℕ → Value → Value → List CollStore → Kind → CollStore → Result CollStore
pt_change r key top heap bv s = do
  i ← plain (text "pt") heap (some r) key
  n ← plain (text "pt") heap (some r) top
  b ← as_bit n
  put_bit i b s (index (text "pt") i s.nbits)
pt_change r key top heap mp s = do
  name ← key_str (text "pt") heap (some r) key
  val ← elem (text "pt") heap (some r) top
  put_pair name val s (pair_get s.pairs name)
pt_change r key top heap te s = do
  name ← key_str (text "pt") heap (some r) key
  val ← elem (text "pt") heap (some r) top
  found ← or_panic (tree_get s.root name)
  room_in_tree s found
  root ← or_panic (tree_put s.root name val)
  ok (record s { root = root })
pt_change r key top heap kind s = fault type_mismatch (cannot_update kind) (text "pt")

abbrev pub add_key : Text → CollStore → Result CollStore
add_key key s = if trie_has key s.trie then ok s else (do
  room_for (text "pt") (s.trie_n + 1)
  ok (record s { trie = trie_put key s.trie; trie_n = s.trie_n + 1 }))

-- `b_pt` on a trie
unfoldable pub trie_change : ℕ → Value → List CollStore → CollStore → Result CollStore
trie_change r top heap s = do key ← key_str (text "pt") heap (some r) top; add_key key s

-- the `match` of `b_hs`
unfoldable pub hs_value : Value → List CollStore → Kind → CollStore → Result Value
hs_value v heap sc s = do e ← elem (text "hs") heap none v; ok (one_or_zero (set_contains s.set e))
hs_value v heap ti s = do
  key ← key_str (text "hs") heap none v
  ok (one_or_zero (trie_has key s.trie))
hs_value v heap bm s = do
  key ← key_str (text "hs") heap none v
  i ← bucket key s.nbits
  b ← or_panic (read_bit s.bits i)
  ok (one_or_zero b)
hs_value v heap kind s = fault type_mismatch (cannot_test kind) (text "hs")
