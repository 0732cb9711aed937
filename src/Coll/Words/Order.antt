-- ===== src/Coll/Words/Order.antt =====
-- What a collection in order is, and a machine in order.
use zown.Prelude.{ℕ, ◌+◌, ◌/◌, ◌≤◌, ◌<◌, ◌≡◌, true, List, map, Text, length, All}
use zown.BigInt.Word.{fits_i64}
use zown.Coll.Store.{Elem, Kind, rg, bm, bv, CollStore, BNode, Entry}
use zown.Coll.Heap.Refines.{Represents}
use zown.Coll.Tree.{tree_count}
use zown.Coll.Tree.Shape.{entries}
use zown.Coll.Tree.Refines.{IsTree}
use zown.Coll.Trie.Form.{IsTrie}
use zown.Coll.Words.{Value, int, str, coll, other, Vm, coll_max}

abbrev pub IsElem : Elem → Type 0
IsElem (Elem.int n) = fits_i64 n ≡ true
IsElem (Elem.str s) = Unit

-- A ring has no more than its capacity.
abbrev pub IsRing : Kind → ℕ → ℕ → Type 0
IsRing rg n cap = (n ≤ cap) × (cap ≤ coll_max)
IsRing _ n cap = Unit

pub record IsList (kind : Kind) (items : List Elem) (cap : ℕ) : Type 0 where
  pub elems : All IsElem items
  pub size : length items ≤ coll_max
  pub ring : IsRing kind (length items) cap

-- The keys of the pairs are those of the order.
pub record IsMap (pairs : List (Text × Elem)) (order : List Text) : Type 0 where
  pub keys : map (λ p. p.0) pairs ≡ order
  pub elems : All (λ p. IsElem p.1) pairs
  pub size : length order ≤ coll_max

pub record IsTreeMap (root : BNode) : Type 0 where
  pub tree : IsTree root
  pub elems : All (λ p. IsElem p.1) (entries root)
  pub size : tree_count root ≤ coll_max

pub record IsQueue (heap : List Entry) : Type 0 where
  pub queue : List Entry
  pub holds : Represents heap queue
  pub size : length heap ≤ coll_max

abbrev pub HasBits : Kind → ℕ → Type 0
HasBits bm n = 0 < n
HasBits bv n = 0 < n
HasBits _ n = Unit

pub record IsBits (kind : Kind) (bits : List ℕ) (nbits : ℕ) : Type 0 where
  pub size : length bits ≡ (nbits + 7) / 8
  pub bytes : All (λ b. b < 256) bits
  pub some_bits : HasBits kind nbits

pub record IsStore (s : CollStore) : Type 0 where
  pub list : IsList s.kind s.items s.cap
  pub pairs : IsMap s.pairs s.order
  pub set : length s.set ≤ coll_max
  pub tree : IsTreeMap s.root
  pub trie : s.trie_n ≤ coll_max
  pub form : IsTrie s.trie
  pub queue : IsQueue s.heap
  pub bits : IsBits s.kind s.bits s.nbits

-- An integer is in `i64`, and no collection dangles.
abbrev pub IsValue : ℕ → Value → Type 0
IsValue m (int n) = fits_i64 n ≡ true
IsValue m (str s) = Unit
IsValue m (coll r e) = r < m
IsValue m (other s) = Unit

pub record IsVm (v : Vm) : Type 0 where
  pub stores : All IsStore v.heap
  pub values : All (IsValue (length v.heap)) v.stack
