-- ===== src/Coll/Words/Show.antt =====
-- zownc/crates/zown-vm/src/coll.rs: the text of a collection, of `b_sk` and `b_px`.
use Prim.Native.Nat.{Ordering}
use zown.Prelude.{
  ℕ, zero, suc, ◌+◌, ◌/◌, ◌%◌, List, [], ◌∷◌, ◌++◌, map, Option, none, some, Text, text, length,
  ltb, if◌then◌else◌,
}
use zown.Prelude.Int.{ℤ, pos, negsuc}
use zown.Prelude.Outcome.{ok, out_of_fuel, ◌>>=◌}
use zown.Coll.Store.{Elem, Kind, ls, qu, mp, sc, te, ti, pq, rg, bm, bv, CollStore, Entry, TNode}
use zown.Coll.TextOrder.{compare_text}
use zown.Coll.Rows.{Row}
use zown.Coll.Heap.{compare_i64, below, heap_pop}
use zown.Coll.Tree.{tree_walk}
use zown.Coll.Trie.{trie_walk, descend}
use zown.Coll.Words.{
  Value, str, Result, fault, type_mismatch, cannot_scan, not_trie, one_word, not_word, has_space,
  type_name,
}
use zown.Coll.Words.Bits.{read_bit, pair_get}
use zown.Coll.Words.Changes.{or_panic}

-- `to_string` of an `i64`, which has 19 digits at most; the fuel is for the digits
abbrev pub digits : ℕ → ℕ → Text → Text
digits zero n s = s
digits (suc f) n s =
    let rest = digits f (n / 10) ((0x30 + n % 10) ∷ s) in if ltb n 10 then (0x30 + n) ∷ s else rest

abbrev pub show_int : ℤ → Text
show_int (pos n) = digits 20 n []
show_int (negsuc n) = 0x2d ∷ digits 20 (suc n) []

-- `Elem::show`
abbrev pub show : Elem → Text
show (Elem.int n) = show_int n
show (Elem.str s) = s

-- `join("\n")`
abbrev pub join : List Text → Text
join [] = []
join (s ∷ []) = s
join (s ∷ t ∷ ts) = s ++ 10 ∷ join (t ∷ ts)

abbrev pub join_elems : List Elem → Text
join_elems items = join (map show items)

-- `ints` and `strs` of `b_sk`, sorted
abbrev pub insert_by {ℓ} : {A : Type ℓ} → (A → A → Ordering) → A → List A → List A
insert_by cmp x [] = x ∷ []
insert_by cmp x (y ∷ ys) = if below (cmp y x) then y ∷ insert_by cmp x ys else x ∷ y ∷ ys

abbrev pub sort_by {ℓ} : {A : Type ℓ} → (A → A → Ordering) → List A → List A
sort_by cmp [] = []
sort_by cmp (x ∷ xs) = insert_by cmp x (sort_by cmp xs)

abbrev pub ints : List Elem → List ℤ
ints [] = []
ints (Elem.int n ∷ es) = n ∷ ints es
ints (Elem.str s ∷ es) = ints es

abbrev pub strs : List Elem → List Text
strs [] = []
strs (Elem.int n ∷ es) = strs es
strs (Elem.str s ∷ es) = s ∷ strs es

abbrev pub set_lines : List Elem → List Text
set_lines set = map show_int (sort_by compare_i64 (ints set)) ++ sort_by compare_text (strs set)

-- `"{k} {}"`
abbrev pub line_of : Text → Elem → Text
line_of key e = key ++ 0x20 ∷ show e

abbrev pub row_line : Row → Text
row_line r = line_of r.0 r.1

-- `g.pairs[k]` for the keys in order; a key that is missing is a panic
abbrev pub pair_lines : List (Text × Elem) → List Text → Result (List Text)
pair_lines pairs [] = ok []
pair_lines pairs (key ∷ order) = do
  e ← or_panic (pair_get pairs key)
  rest ← pair_lines pairs order
  ok (line_of key e ∷ rest)

-- the `while` loop over a clone of the heap
unfoldable pub drain : ℕ → List Entry → Result (List ℤ)
drain zero [] = ok []
drain zero (x ∷ heap) = out_of_fuel
drain (suc f) [] = ok []
drain (suc f) (x ∷ heap) = do
  (n, rest) ← or_panic (heap_pop (x ∷ heap))
  out ← drain f rest
  ok (n ∷ out)

-- the `for` loop over the bits, from `i` on
abbrev pub bit_chars : List ℕ → ℕ → ℕ → Result Text
bit_chars bits i zero = ok []
bit_chars bits i (suc n) = do
  b ← or_panic (read_bit bits i)
  rest ← bit_chars bits (suc i) n
  ok ((if b then 0x31 else 0x30) ∷ rest)

-- the `match` of `b_sk`
unfoldable pub sk_text : Kind → CollStore → Result Text
sk_text ls s = ok (join_elems s.items)
sk_text qu s = ok (join_elems s.items)
sk_text rg s = ok (join_elems s.items)
sk_text sc s = ok (join (set_lines s.set))
sk_text mp s = do lines ← pair_lines s.pairs s.order; ok (join lines)
sk_text te s = do rows ← or_panic (tree_walk s.root); ok (join (map row_line rows))
sk_text ti s = ok (join (trie_walk s.trie []))
sk_text pq s = do out ← drain (length s.heap) s.heap; ok (join (map show_int out))
sk_text bv s = bit_chars s.bits 0 s.nbits
sk_text bm s = fault type_mismatch (cannot_scan bm) (text "sk")

-- `b_px` after the test of the kind
abbrev pub prefix_of : List CollStore → Value → Result Text
prefix_of heap (str s) = if has_space s then fault type_mismatch one_word (text "px") else ok s
prefix_of heap v = fault type_mismatch (not_word (type_name heap none v)) (text "px")

abbrev pub below_node : Text → Option TNode → Text
below_node prefix none = []
below_node prefix (some node) = join (trie_walk node prefix)

unfoldable pub px_text : Value → List CollStore → Kind → CollStore → Result Text
px_text v heap ti s = do prefix ← prefix_of heap v; ok (below_node prefix (descend prefix s.trie))
px_text v heap kind s = fault type_mismatch (not_trie kind) (text "px")
