-- ===== src/Ir/Tests.antt =====
-- Concrete runs of the lowering, and its theorems at concrete inputs.
use zown.Prelude.{suc, ◌≡◌, refl, [], ◌∷◌, some, Text, text, length}
use zown.Prelude.Int.{pos as pos_int}
use zown.Syntax.{NodeKind, Nodes, node, nil, cons, blk, int, str, name, erase_nodes}
use zown.Ir.{
  lower, unlower, lower_seq, lower_nodes, lower_op, lower_name, const_int, const_block, const_str,
  select, invoke, attempt, op,
}
use zown.Ir.RoundTrip.{unlower-lower}
use zown.Ir.Table.{IsBackward, quotations_nodes, lower_table}

abbrev leaf : NodeKind Text → Nodes Text → Nodes Text
leaf k = cons (node k (record { line = 3; col = 1; offset = 9 }))

-- `[ [ 1 ] ty ] @ +`
abbrev program : Nodes Text
program =
    leaf (blk (leaf (blk (leaf (int (pos_int 1)) nil)) (leaf (name (text "ty")) nil)))
      (leaf (NodeKind.op (text "@")) (leaf (NodeKind.op (text "+")) nil))

lowers_program : lower program ≡ record {
  blocks =
      (const_int (pos_int 1) ∷ [])
      ∷ (const_block 0 ∷ attempt ∷ [])
      ∷ (const_block 1 ∷ invoke ∷ op (text "+") ∷ [])
      ∷ [];
  main = 2;
}
unfolding lower lower_seq lower_nodes lower_op lower_name
lowers_program = refl

-- `1 [$y$] [$n$] ? @ .`: the blocks are numbered without gaps
abbrev choice : Nodes Text
choice = leaf (int (pos_int 1)) (
    leaf (blk (leaf (str (text "y")) nil)) (
      leaf (blk (leaf (str (text "n")) nil)) (
        leaf (NodeKind.op (text "?"))
          (leaf (NodeKind.op (text "@")) (leaf (NodeKind.op (text ".")) nil)))))

lowers_choice : lower choice ≡ record {
  blocks =
      (const_str (text "y") ∷ [])
      ∷ (const_str (text "n") ∷ [])
      ∷ (const_int (pos_int 1)
          ∷ const_block 0
          ∷ const_block 1
          ∷ select
          ∷ invoke
          ∷ op (text ".")
          ∷ [])
      ∷ [];
  main = 2;
}
unfolding lower lower_seq lower_nodes lower_op lower_name
lowers_choice = refl

unlower-lower_example : unlower (lower program) ≡ some (erase_nodes program)
unlower-lower_example = unlower-lower program

lower_table_example :
    IsBackward 0 (lower program).blocks
    × (length (lower program).blocks ≡ suc (quotations_nodes program))
    × (suc (lower program).main ≡ length (lower program).blocks)
lower_table_example = lower_table program
