-- ===== src/Check/Binds.antt =====
-- The names that a program binds.
use zown.Prelude.{Bool, true, false, ◌||◌, Text, text_eq, ◌≡◌, refl, ap, ◌∙◌}
use zown.Syntax.{
  Node, NodeKind, Nodes, node, nil, cons, int, float, str, name, bind, move, cap, op, blk,
}
use zown.Check.Sets.{TextSet, contains, contains-insert}
use zown.Check.State.{collect_binds, binds_of, binds_of_kind}

or_false : (a : Bool) → a ≡ (a || false)
or_false true = refl
or_false false = refl

or_comm : (a b : Bool) → (a || b) ≡ (b || a)
or_comm true true = refl
or_comm true false = refl
or_comm false b = or_false b

or_assoc : (a b c : Bool) → ((a || b) || c) ≡ (a || (b || c))
or_assoc true b c = refl
or_assoc false b c = refl

module _ {F : Type 0} where
  -- the names that a program binds, at any depth
  unfoldable mutual
    pub binds : Nodes F → Text → Bool
    binds nil w = false
    binds (cons n ns) w = binds_node n w || binds ns w

    pub binds_node : Node F → Text → Bool
    binds_node (node k p) w = binds_kind k w

    pub binds_kind : NodeKind F → Text → Bool
    binds_kind (bind s) w = text_eq s w
    binds_kind (blk ns) w = binds ns w
    binds_kind _ w = false

  mutual
    unfolding collect_binds binds

    pub collect_binds-contains :
        (ns : Nodes F) (s : TextSet) (w : Text)
        → contains (collect_binds ns s) w ≡ (contains s w || binds ns w)
    collect_binds-contains nil s w = or_false (contains s w)
    collect_binds-contains (cons n ns) s w =
        collect_binds-contains ns (binds_of n s) w
        ∙ ap (λ q. q || binds ns w) (binds_of-contains n s w)
        ∙ or_assoc (contains s w) (binds_node n w) (binds ns w)

    binds_of-contains :
        (n : Node F) (s : TextSet) (w : Text)
        → contains (binds_of n s) w ≡ (contains s w || binds_node n w)
    binds_of-contains (node k p) s w = binds_of_kind-contains k s w

    binds_of_kind-contains :
        (k : NodeKind F) (s : TextSet) (w : Text)
        → contains (binds_of_kind k s) w ≡ (contains s w || binds_kind k w)
    binds_of_kind-contains (bind v) s w =
        contains-insert v s w ∙ or_comm (text_eq v w) (contains s w)
    binds_of_kind-contains (blk ns) s w = collect_binds-contains ns s w
    binds_of_kind-contains (int v) s w = or_false (contains s w)
    binds_of_kind-contains (float v) s w = or_false (contains s w)
    binds_of_kind-contains (str v) s w = or_false (contains s w)
    binds_of_kind-contains (name v) s w = or_false (contains s w)
    binds_of_kind-contains (move v) s w = or_false (contains s w)
    binds_of_kind-contains (cap v) s w = or_false (contains s w)
    binds_of_kind-contains (op v) s w = or_false (contains s w)
