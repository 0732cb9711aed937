-- ===== src/Coll/Store.antt =====
-- Coll: what a collection is made of. A hash map is a list of keys with their values, and a hash
-- set a list of its elements, each with no key twice.
use zown.Prelude.{ℕ, Bool, true, false, List, [], Text}
use zown.Prelude.Int.{ℤ, pos}

pub data Elem : Type 0 where
  int : ℤ → Elem
  str : Text → Elem

-- A vector of trees that is a field of a tree is a data type of its own.
mutual
  pub data BNode : Type 0 where
    bnode : (leaf : Bool) → (keys : List (Text × Elem)) → (kids : BNodes) → BNode

  pub data BNodes : Type 0 where
    none_left : BNodes
    more : BNode → BNodes → BNodes

mutual
  pub data TNode : Type 0 where
    tnode : (kids : TNodes) → (end : Bool) → TNode

  pub data TNodes : Type 0 where
    no_kids : TNodes
    kid : (ch : ℕ) → TNode → TNodes → TNodes

-- the values of `CollStore::kind`
pub data Kind : Type 0 where
  ls qu mp sc te ti pq rg bm bv : Kind

-- a value of the heap with its number in the sequence, both an `i64`
abbrev pub Entry : Type 0
Entry = ℤ × ℤ

pub record CollStore : Type 0 where
  pub kind : Kind
  pub freed : Bool
  pub items : List Elem
  pub order : List Text
  pub pairs : List (Text × Elem)
  pub set : List Elem
  pub root : BNode
  pub trie : TNode
  pub trie_n : ℕ
  pub cap : ℕ
  pub bits : List ℕ
  pub nbits : ℕ
  pub seq : ℤ
  pub heap : List Entry

abbrev pub fresh : Kind → CollStore
fresh kind = record {
  kind = kind;
  freed = false;
  items = [];
  order = [];
  pairs = [];
  set = [];
  root = bnode true [] none_left;
  trie = tnode no_kids false;
  trie_n = 0;
  cap = 0;
  bits = [];
  nbits = 0;
  seq = pos 0;
  heap = [];
}
