-- ===== src/Ir/Table.antt =====
-- The shape of the table that `lower` fills.
use zown.Prelude.{
  ℕ, suc, ◌+◌, ◌≤◌, ◌<◌, ◌≡◌, refl, List, [], ◌∷◌, ◌++◌, arith, Text, length, length-append, All,
}
use zown.Syntax.{Node, NodeKind, Nodes, node, int, name, blk, nil, cons}
use zown.Ir.{
  Instr, IrBlock, lower_op, lower_name, lower_node, lower_kind, lower_nodes, lower, const_int,
  const_block,
}

module _ {F : Type 0} where
  -- A reference is to a block with an id below `k`; other instructions refer to nothing.
  abbrev pub RefersBelow : ℕ → Instr F → Type 0
  RefersBelow k (const_block id) = id < k
  RefersBelow k _ = Unit

  lower_op-RefersBelow : (k : ℕ) (s : Text) {i : Instr F} → lower_op s ≡ i → RefersBelow k i
  unfolding lower_op
  lower_op-RefersBelow k s e = ground arith

  lower_name-RefersBelow : (k : ℕ) (s : Text) {i : Instr F} → lower_name s ≡ i → RefersBelow k i
  unfolding lower_name
  lower_name-RefersBelow k s e = ground arith

  -- The blocks from number `k` on refer to earlier blocks only.
  abbrev pub IsBackward : ℕ → List (IrBlock F) → Type 0
  IsBackward k [] = Unit
  IsBackward k (b ∷ bs) = All (RefersBelow k) b × IsBackward (suc k) bs

  -- the quotations of a program, nested ones included
  mutual
    pub quotations : Node F → ℕ
    quotations (node k p) = quotations_kind k

    pub quotations_kind : NodeKind F → ℕ
    quotations_kind (blk inner) = suc (quotations_nodes inner)
    quotations_kind _ = 0

    pub quotations_nodes : Nodes F → ℕ
    quotations_nodes nil = 0
    quotations_nodes (cons n ns) = quotations n + quotations_nodes ns

  RefersBelow-le : (j k : ℕ) (i : Instr F) → j ≤ k → RefersBelow j i → RefersBelow k i
  RefersBelow-le j k (const_block id) h r = omega arith
  RefersBelow-le j k (const_int v) h r = tt
  RefersBelow-le j k _ h r = tt

  All-RefersBelow-le :
      (j k : ℕ) (is : IrBlock F) → j ≤ k → All (RefersBelow j) is → All (RefersBelow k) is
  All-RefersBelow-le j k [] h r = tt
  All-RefersBelow-le j k (i ∷ is) h (r, rs) =
      (RefersBelow-le j k i h r, All-RefersBelow-le j k is h rs)

  IsBackward-append :
      (k : ℕ) (bs : List (IrBlock F)) (b : IrBlock F)
      → IsBackward k bs
      → All (RefersBelow (k + length bs)) b
      → IsBackward k (bs ++ b ∷ [])
  IsBackward-append k [] b h r = (All-RefersBelow-le (k + 0) k b (omega arith) r, tt)
  IsBackward-append k (c ∷ bs) b (h, hs) r =
      (h, IsBackward-append (suc k) bs b hs (All-RefersBelow-le _ _ b (omega arith) r))

  -- the table stays backward, grows by the quotations, and what is lowered refers into it
  mutual
    unfolding lower_node quotations

    lower_kind-IsBackward :
        (k : NodeKind F) (bs : List (IrBlock F))
        → IsBackward 0 bs
        → IsBackward 0 (lower_kind k bs).1
          × RefersBelow (length (lower_kind k bs).1) (lower_kind k bs).0
          × (length (lower_kind k bs).1 ≡ length bs + quotations_kind k)
    lower_kind-IsBackward (blk inner) bs h =
        let (is, bs₁) = lower_nodes inner bs in
        let (t, r, e) = lower_nodes-IsBackward inner bs h in
        let size = length-append bs₁ (is ∷ []) in
        (
          IsBackward-append 0 bs₁ is t (All-RefersBelow-le _ _ is (omega arith) r),
          omega (arith, size),
          omega (arith, size, e),
        )
    lower_kind-IsBackward (name s) bs h = (h, lower_name-RefersBelow _ s refl, omega arith)
    lower_kind-IsBackward (NodeKind.op s) bs h = (h, lower_op-RefersBelow _ s refl, omega arith)
    lower_kind-IsBackward (int v) bs h = (h, tt, omega arith)
    lower_kind-IsBackward _ bs h = (h, tt, omega arith)

    lower_nodes-IsBackward :
        (ns : Nodes F) (bs : List (IrBlock F))
        → IsBackward 0 bs
        → IsBackward 0 (lower_nodes ns bs).1
          × All (RefersBelow (length (lower_nodes ns bs).1)) (lower_nodes ns bs).0
          × (length (lower_nodes ns bs).1 ≡ length bs + quotations_nodes ns)
    lower_nodes-IsBackward nil bs h = (h, tt, omega arith)
    lower_nodes-IsBackward (cons (node k p) ns) bs h =
        let (t₁, r₁, e₁) = lower_kind-IsBackward k bs h in
        let (t₂, r₂, e₂) = lower_nodes-IsBackward ns (lower_kind k bs).1 t₁ in
        (t₂, (RefersBelow-le _ _ (lower_kind k bs).0 (omega arith) r₁, r₂), omega (arith, e₁, e₂))

  -- Lowering gives one block for each quotation and one for the program, which stands last and is
  -- the entry; every block refers only to blocks before it, so no chain of references is endless.
  pub lower_table :
      (p : Nodes F)
      → IsBackward 0 (lower p).blocks
        × (length (lower p).blocks ≡ suc (quotations_nodes p))
        × (suc (lower p).main ≡ length (lower p).blocks)
  unfolding lower
  lower_table p =
      let (is, bs) = lower_nodes p [] in
      let (t, r, e) = lower_nodes-IsBackward p [] tt in
      (
        IsBackward-append 0 bs is t (All-RefersBelow-le _ _ is (omega arith) r),
        omega (arith, e, length-append bs (is ∷ [])),
        omega (arith, length-append bs (is ∷ [])),
      )
