-- ===== src/Coll/Tests.antt =====
-- Concrete runs of the collections, and their theorems at concrete inputs.
use mathlib.Core.List.Perm
use zown.Prelude.{zero, suc, ◌≡◌, refl, List, [], ◌∷◌, some, true, arith, text, length}
use zown.Prelude.Int.{pos, negsuc, ◌+ℤ◌}
use zown.Coll.Store.{Entry, CollStore, fresh, pq, te, int, BNode, bnode, none_left}
use zown.Coll.Heap.{heap_push, heap_pop, compare_entry}
use zown.Coll.Heap.Rank.{rank, IsHeap}
use zown.Coll.Heap.Refines.{Represents, heap_push_lem, heap_pop_lem}
use zown.Coll.Rows.{Row, Ascending, lookup}
use zown.Coll.Tree.{tree_put, tree_get, tree_walk, tree_count}
use zown.Coll.Tree.Shape.{Shape, entries}
use zown.Coll.Tree.Refines.{IsTree, tree_put-Refines, tree_walk-Refines}
use zown.Prelude.{◌||◌, text_eq, false}
use zown.Prelude.{All, ◌++◌, Text}
use zown.Coll.Trie.{trie_walk}
use zown.Coll.Trie.Form.{trie_put-IsTrie, new_node-IsTrie}
use zown.Coll.Trie.Branches.{In}
use zown.Coll.Trie.Walk.{Walked, trie_walk-trie_has}
use zown.Coll.Store.{TNode}
use zown.Coll.Trie.{trie_put, trie_has, new_node}
use zown.Coll.Trie.Refines.{trie_has-trie_put}
use zown.Coll.Words.{Vm}
use zown.Coll.Words
use zown.Coll.Words.Run.{run, pt, format_coll}
use zown.Coll.Words.Show.{drain, sk_text}
use zown.Coll.Words.Shown.{drain_lem}
use zown.Coll.Store.{sc, str}
use zown.Prelude.Outcome.{ok}
use zown.Coll.Words.Order.{IsVm}
use zown.Coll.Words.Fresh.{fresh-IsStore}
use zown.Coll.Words.Steps.{Safe, Done}
use zown.Coll.Words.Laws.{run-Keeps}

-- 3 before 5, with 3 pushed last
abbrev queue : List Entry
queue = (pos 3, pos 2) ∷ (pos 5, pos 1) ∷ []

queue-Represents : Represents queue queue
unfolding rank
queue-Represents = record {
  ordered = ordered;
  entries = (record { value = refl; place = refl }, (record { value = refl; place = refl }, tt));
  same = Perm.rfl;
  ascending = ((omega arith, tt), (tt, tt));
}
  where
    ordered : IsHeap queue
    ordered zero p q = absurd (omega arith)
    ordered (suc zero) p q = omega arith
    ordered (suc (suc c)) p q = absurd (omega arith)

abbrev store : CollStore
store = record (fresh pq) { seq = pos 2; heap = queue }

heap_push_lem_example :
    (heap : List Entry) × (heap_push store (negsuc 0)
      ≡ some (record store { seq = pos 3; heap = heap }))
    × Represents heap ((negsuc 0, pos 3) ∷ queue)
unfolding compare_entry ◌+ℤ◌
heap_push_lem_example = heap_push_lem store (negsuc 0) queue queue-Represents refl

heap_pop_lem_example :
    (rest : List Entry) × (heap_pop queue ≡ some (pos 3, rest))
    × Represents rest ((pos 5, pos 1) ∷ [])
heap_pop_lem_example = heap_pop_lem queue (pos 3, pos 2) ((pos 5, pos 1) ∷ []) queue-Represents

-- a full root
abbrev full : BNode
full =
    bnode true ((text "b", int (pos 1)) ∷ (text "d", int (pos 2)) ∷ (text "f", int (pos 3)) ∷ [])
      none_left

full-IsTree : IsTree full
unfolding Shape entries
full-IsTree = record {
  height = 0;
  shape = (omega arith, omega arith, (refl, refl));
  ordered = ((refl, (refl, tt)), ((refl, tt), (tt, tt)));
}

tree_put-Refines_example :
    (u : BNode) × (tree_put full (text "c") (int (pos 9)) ≡ some u)
    × IsTree u
    × (tree_get u (text "c") ≡ some (some (int (pos 9))))
tree_put-Refines_example = tree_put-Refines full (text "c") (int (pos 9)) (text "c") full-IsTree

tree_walk-Refines_example :
    (rows : List Row) × (tree_walk full ≡ some rows)
    × Ascending rows
    × (tree_count full ≡ length rows)
    × (tree_get full (text "d") ≡ some (lookup (text "d") rows))
tree_walk-Refines_example = tree_walk-Refines full (text "d") full-IsTree

abbrev trie_of_ab : TNode
trie_of_ab = trie_put (text "ab") new_node

trie_has-trie_put_example :
    trie_has (text "ab") (trie_put (text "ax") trie_of_ab)
    ≡ (text_eq (text "ab") (text "ax") || trie_has (text "ab") trie_of_ab)
trie_has-trie_put_example = trie_has-trie_put trie_of_ab (text "ax") (text "ab")

-- an empty tree under its key and its new value
abbrev machine : Vm
machine = record {
  stack = Words.Value.int (pos 7) ∷ Words.Value.str (text "ab") ∷ Words.Value.coll 0 true ∷ [];
  heap = fresh te ∷ [];
}

machine-IsVm : IsVm machine
machine-IsVm = record {
  stores = (fresh-IsStore te tt tt, tt);
  values = (refl, (tt, (omega arith, tt)));
}

run-Keeps_example : Safe Done (run pt machine)
run-Keeps_example = run-Keeps pt machine machine-IsVm

drain_lem_example : drain 2 queue ≡ ok (pos 3 ∷ pos 5 ∷ [])
drain_lem_example = drain_lem 2 queue queue queue-Represents refl

format_coll_test : format_coll false (record store { heap = queue }) false ≡ text "pq&(2)"
format_coll_test = refl

-- the list of a set: the integers, then the texts
sk_text_test :
    sk_text sc (record (fresh sc) {
      set = str (text "b") ∷ int (pos 30) ∷ str (text "a") ∷ int (negsuc 6) ∷ [];
    })
    ≡ ok (text "-7\n30\na\nb")
unfolding sk_text
sk_text_test = refl

trie_walk-trie_has_example :
    All (Walked trie_of_ab (text "x")) (trie_walk trie_of_ab (text "x"))
    × ((j : Text)
        → trie_has j trie_of_ab ≡ true
        → In (text "x" ++ j) (trie_walk trie_of_ab (text "x")))
trie_walk-trie_has_example =
    trie_walk-trie_has trie_of_ab (text "x") (trie_put-IsTrie (text "ab") new_node new_node-IsTrie)
