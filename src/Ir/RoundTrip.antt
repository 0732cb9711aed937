-- ===== src/Ir/RoundTrip.antt =====
-- `unlower` after `lower`.
use zown.Prelude.{
  ℕ, zero, suc, ◌≤◌, ◌≡◌, refl, sym, ap, ◌∙◌, List, [], ◌∷◌, ◌++◌, append_assoc, append-nil, Option,
  some, arith, Text, text, text_eq→eq, length, length-append, get_elem?-append_length,
}
use zown.Syntax.{
  Node, NodeKind, Nodes, node, int, name, blk, nil, cons, erase, erase_kind, erase_nodes,
}
use zown.Ir.{
  IrBlock, lower_op, lower_name, lower_node, lower_kind, lower_nodes, lower, unlower_kind,
  unlower_instrs, unlower_block, unlower,
}

module _ {F : Type 0} where
  unlower_kind-lower_op :
      (rec : ℕ → Option (Nodes F)) (s : Text) → unlower_kind rec (lower_op s) ≡ some (NodeKind.op s)
  unfolding unlower_kind lower_op
  unlower_kind-lower_op rec s = ground (
    arith,
    text_eq→eq s (text "@"),
    text_eq→eq s (text "?"),
    text_eq→eq s (text ";"),
    text_eq→eq s (text "??"),
  )

  unlower_kind-lower_name :
      (rec : ℕ → Option (Nodes F)) (s : Text) → unlower_kind rec (lower_name s) ≡ some (name s)
  unfolding unlower_kind lower_name
  unlower_kind-lower_name rec s = ground (arith, text_eq→eq s (text "ty"))

  -- lowering only adds blocks at the end of the table
  abbrev Extends : List (IrBlock F) → List (IrBlock F) → Type 0
  Extends bs bs' = (ext : List (IrBlock F)) × (bs' ≡ bs ++ ext)

  mutual
    unfolding lower_node

    pub lower_node-Extends : (n : Node F) (bs : List (IrBlock F)) → Extends bs (lower_node n bs).1
    lower_node-Extends (node k p) bs = lower_kind-Extends k bs

    pub lower_kind-Extends :
        (k : NodeKind F) (bs : List (IrBlock F)) → Extends bs (lower_kind k bs).1
    lower_kind-Extends (blk inner) bs =
        let (ext, e) = lower_nodes-Extends inner bs in
        (ext ++ (lower_nodes inner bs).0 ∷ [], rw e (append_assoc bs ext _))
    lower_kind-Extends (int v) bs = ([], sym (append-nil bs))
    lower_kind-Extends _ bs = ([], sym (append-nil bs))

    pub lower_nodes-Extends :
        (ns : Nodes F) (bs : List (IrBlock F)) → Extends bs (lower_nodes ns bs).1
    lower_nodes-Extends nil bs = ([], sym (append-nil bs))
    lower_nodes-Extends (cons n ns) bs =
        let (e₁, p) = lower_node-Extends n bs in
        let (e₂, q) = lower_nodes-Extends ns (lower_node n bs).1 in
        (e₁ ++ e₂, q ∙ ap (λ t. t ++ e₂) p ∙ append_assoc bs e₁ e₂)

  -- What was lowered onto `bs` reads back from every longer table, with fuel for the blocks so far.
  mutual
    unfolding lower_node unlower_kind unlower_instrs unlower_block erase

    kind_reads :
        (k : NodeKind F) (bs more : List (IrBlock F)) (f : ℕ)
        → length (lower_kind k bs).1 ≤ f
        → unlower_kind (unlower_block f ((lower_kind k bs).1 ++ more)) (lower_kind k bs).0
          ≡ some (erase_kind k)
    kind_reads (blk inner) bs more zero h = absurd (omega (arith, length-append {0}))
    kind_reads (blk inner) bs more (suc f) h =
        let (is, bs₁) = lower_nodes inner bs in
        rw (append_assoc bs₁ (is ∷ []) more, get_elem?-append_length bs₁ is more)
          (rw (nodes_reads inner bs (is ∷ more) f (omega (arith, length-append bs₁ (is ∷ [])))))
    kind_reads (name s) bs more f h = unlower_kind-lower_name _ s
    kind_reads (NodeKind.op s) bs more f h = unlower_kind-lower_op _ s
    kind_reads (int v) bs more f h = refl
    kind_reads _ bs more f h = refl

    nodes_reads :
        (ns : Nodes F) (bs more : List (IrBlock F)) (f : ℕ)
        → length (lower_nodes ns bs).1 ≤ f
        → unlower_instrs (unlower_block f ((lower_nodes ns bs).1 ++ more)) (lower_nodes ns bs).0
          ≡ some (erase_nodes ns)
    nodes_reads nil bs more f h = refl
    nodes_reads (cons (node k p) ns) bs more f h =
        let bs₁ = (lower_kind k bs).1 in
        let (ext, e) = lower_nodes-Extends ns bs₁ in
        let head =
          kind_reads k bs (ext ++ more) f (omega (arith, ap length e, length-append bs₁ ext)) in
        let table = ap (λ t. t ++ more) e ∙ append_assoc bs₁ ext more in
        rw (rw (← table) at head) (rw (nodes_reads ns bs₁ more f h))

  -- Lowering a program and rebuilding it gives the program back, up to the positions, which are
  -- the default: `unlower` does not panic, and the table's length is fuel enough.
  pub unlower-lower : (p : Nodes F) → unlower (lower p) ≡ some (erase_nodes p)
  unfolding lower unlower unlower_block
  unlower-lower p =
      let (is, bs) = lower_nodes p [] in
      let size : length (bs ++ is ∷ []) ≡ suc (length bs) =
        omega (arith, length-append bs (is ∷ [])) in
      rw (size, get_elem?-append_length bs is [])
        (nodes_reads p [] (is ∷ []) (length bs) (omega arith))
