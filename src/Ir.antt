-- ===== src/Ir.antt =====
-- zownc/crates/zown-ir/src/lib.rs: lowering of the syntax tree to a table of flat blocks, and its
-- inverse. The vector that `Builder` fills is passed through; a block is its id's entry.
pub mod RoundTrip
pub mod Table
mod Tests
use mathlib.Core.Option
use zown.Prelude.{
  ℕ, zero, suc, List, [], ◌∷◌, ◌++◌, Option, none, some, Text, text, text_eq, length, get_elem?,
  if◌then◌else◌, ◌>>=◌,
}
use zown.Prelude.Int.{ℤ}
use zown.Syntax.{Node, NodeKind, Nodes, no_pos, node, int, float, str, name, cap, blk, nil, cons}

pub data Instr (F : Type 0) : Type 0 where
  const_int : ℤ → Instr F
  const_float : F → Instr F
  const_str : Text → Instr F
  const_block : ℕ → Instr F
  bind move const_cap load op : Text → Instr F
  invoke select while match attempt : Instr F

abbrev pub IrBlock : Type 0 → Type 0
IrBlock F = List (Instr F)

pub record IrProgram (F : Type 0) : Type 0 where
  pub blocks : List (IrBlock F)
  pub main : ℕ

module _ {F : Type 0} where
  -- `"@" => Instr::Invoke` and so on
  unfoldable pub lower_op : Text → Instr F
  lower_op s =
      if text_eq s (text "@")
      then invoke
      else if text_eq s (text "?")
      then select
      else if text_eq s (text ";")
      then while
      else if text_eq s (text "??")
      then match
      else op s

  unfoldable pub lower_name : Text → Instr F
  lower_name s = if text_eq s (text "ty") then attempt else load s

  -- the end of `lower_seq`: push the finished block and give its id
  abbrev pub push_block : List (Instr F) × List (IrBlock F) → ℕ × List (IrBlock F)
  push_block (is, bs) = (length bs, bs ++ is ∷ [])

  -- the loop of `lower_seq`
  unfoldable mutual
    pub lower_node : Node F → List (IrBlock F) → Instr F × List (IrBlock F)
    lower_node (node k p) bs = lower_kind k bs

    pub lower_kind : NodeKind F → List (IrBlock F) → Instr F × List (IrBlock F)
    lower_kind (int v) bs = (const_int v, bs)
    lower_kind (float v) bs = (const_float v, bs)
    lower_kind (str s) bs = (const_str s, bs)
    lower_kind (name s) bs = (lower_name s, bs)
    lower_kind (NodeKind.bind s) bs = (bind s, bs)
    lower_kind (NodeKind.move s) bs = (move s, bs)
    lower_kind (cap s) bs = (const_cap s, bs)
    lower_kind (NodeKind.op s) bs = (lower_op s, bs)
    lower_kind (blk inner) bs =
        let (id, bs') = push_block (lower_nodes inner bs) in (const_block id, bs')

    pub lower_nodes : Nodes F → List (IrBlock F) → List (Instr F) × List (IrBlock F)
    lower_nodes nil bs = ([], bs)
    lower_nodes (cons n ns) bs =
        let (i, bs₁) = lower_node n bs in let (is, bs₂) = lower_nodes ns bs₁ in (i ∷ is, bs₂)

  unfoldable pub lower_seq : Nodes F → List (IrBlock F) → ℕ × List (IrBlock F)
  unfolding lower_node lower_op lower_name
  lower_seq ns bs = push_block (lower_nodes ns bs)

  unfoldable pub lower : Nodes F → IrProgram F
  unfolding lower_seq
  lower p = let (main, blocks) = lower_seq p [] in record { blocks = blocks; main = main }

  -- `unlower_block`'s closure on one instruction; `rec` is the call of `unlower_block`.
  unfoldable pub unlower_kind : (ℕ → Option (Nodes F)) → Instr F → Option (NodeKind F)
  unlower_kind rec (const_int v) = some (int v)
  unlower_kind rec (const_float v) = some (float v)
  unlower_kind rec (const_str s) = some (str s)
  unlower_kind rec (const_block id) = Option.map blk (rec id)
  unlower_kind rec (bind s) = some (NodeKind.bind s)
  unlower_kind rec (move s) = some (NodeKind.move s)
  unlower_kind rec (const_cap s) = some (cap s)
  unlower_kind rec (load s) = some (name s)
  unlower_kind rec (op s) = some (NodeKind.op s)
  unlower_kind rec invoke = some (NodeKind.op (text "@"))
  unlower_kind rec select = some (NodeKind.op (text "?"))
  unlower_kind rec while = some (NodeKind.op (text ";"))
  unlower_kind rec match = some (NodeKind.op (text "??"))
  unlower_kind rec attempt = some (name (text "ty"))

  unfoldable pub unlower_instrs : (ℕ → Option (Nodes F)) → List (Instr F) → Option (Nodes F)
  unfolding unlower_kind
  unlower_instrs rec [] = some nil
  unlower_instrs rec (i ∷ is) = do
    k ← unlower_kind rec i
    ns ← unlower_instrs rec is
    some (cons (node k no_pos) ns)

  -- `none` stands for the panic of an id past the table, and for a chain of references longer
  -- than the fuel, on which the recursion of the source need not end.
  unfoldable pub unlower_block : ℕ → List (IrBlock F) → ℕ → Option (Nodes F)
  unfolding unlower_instrs
  unlower_block zero bs id = none
  unlower_block (suc f) bs id = do b ← get_elem? bs id; unlower_instrs (unlower_block f bs) b

  -- A chain of references without a cycle is no longer than the table.
  unfoldable pub unlower : IrProgram F → Option (Nodes F)
  unfolding unlower_block
  unlower prog = unlower_block (length prog.blocks) prog.blocks prog.main
