-- ===== src/Coll/Words/Fresh.antt =====
-- The collections that the words make.
use zown.Prelude.{ℕ, ◌+◌, ◌/◌, ◌≤◌, refl, List, [], arith}
use zown.Coll.Store.{Kind, rg, fresh}
use zown.Coll.Tree.{tree_count}
use zown.Coll.Trie.Form.{new_node-IsTrie}
use zown.Coll.Heap.Refines.{Represents}
use zown.Coll.Tree.Refines.{empty-IsTree}
use zown.Buf.{zeroed}
use zown.Buf.Lists.{length-zeroed, zeroed-bytes}
use mathlib.Core.List.Perm
use zown.Coll.Tree.Shape.{entries}
use zown.Coll.Words.{coll_max}
use zown.Coll.Words.Run.{sized_store}
use zown.Coll.Words.Order.{IsBits, HasBits, IsRing, IsStore}

empty-Represents : Represents [] []
empty-Represents = record {
  ordered = λ c p inside. absurd (omega arith);
  entries = tt;
  same = Perm.rfl;
  ascending = tt;
}

-- a fresh collection with the sizes set
made-IsStore :
    (kind : Kind) (cap nbits : ℕ) (bits : List ℕ)
    → IsRing kind 0 cap
    → IsBits kind bits nbits
    → IsStore (record (fresh kind) { cap = cap; bits = bits; nbits = nbits })
unfolding entries tree_count
made-IsStore kind cap nbits bits ring ok_bits = record {
  list = record { elems = tt; size = omega arith; ring = ring };
  pairs = record { keys = refl; elems = tt; size = omega arith };
  set = omega arith;
  tree = record { tree = empty-IsTree; elems = tt; size = omega arith };
  trie = omega arith;
  form = new_node-IsTrie;
  queue = record { queue = []; holds = empty-Represents; size = omega arith };
  bits = ok_bits;
}

pub fresh-IsStore : (kind : Kind) → IsRing kind 0 0 → HasBits kind 0 → IsStore (fresh kind)
fresh-IsStore kind ring some_bits =
    made-IsStore kind 0 0 [] ring (record { size = omega arith; bytes = tt; some_bits = some_bits })

zeroed-IsBits : (kind : Kind) (n : ℕ) → HasBits kind n → IsBits kind (zeroed ((n + 7) / 8)) n
zeroed-IsBits kind n some_bits = record {
  size = length-zeroed ((n + 7) / 8);
  bytes = zeroed-bytes ((n + 7) / 8);
  some_bits = some_bits;
}

pub ring-IsStore : (n : ℕ) → n ≤ coll_max → IsStore (sized_store rg n)
ring-IsStore n fits =
    made-IsStore rg n 0 [] (omega arith, fits)
      (record { size = omega arith; bytes = tt; some_bits = tt })

pub bits-IsStore :
    (kind : Kind) (n : ℕ)
    → IsRing kind 0 0
    → HasBits kind n
    → IsStore (record (fresh kind) { nbits = n; bits = zeroed ((n + 7) / 8) })
bits-IsStore kind n ring some_bits =
    made-IsStore kind 0 n (zeroed ((n + 7) / 8)) ring (zeroed-IsBits kind n some_bits)
