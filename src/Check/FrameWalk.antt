-- ===== src/Check/FrameWalk.antt =====
-- What the walk leaves as it was.
use zown.Prelude.{Bool, List, [], ◌∷◌, Option, none, some, Text}
use zown.Syntax.{
  Pos, Node, NodeKind, Nodes, node, nil, cons, int, float, str, name, bind, move, cap, op, blk,
}
use zown.Check.Sets.{TextSet, contains}
use zown.Check.Defines.{
  Sub, Sub-append_left, Sub-append_right, wd_words, wd_words_of, wd_words_of_kind,
}
use zown.Check.State.{Checker, back, ahead, str_at}
use zown.Check.Visit.{see, children, pos_of, not_blocks, check_pattern, count}
use zown.Check.Walk.{
  walk, visit, visit_kind, check_arms, check_arm, check_body, arm_label, use_of, moves,
}
use zown.Check.Frame.{
  Extends, diag-Extends, Extends-refl, Extends-trans, visit_name-Extends, visit_move-Extends,
  visit_cap-Extends, visit_op-Extends, check_pattern-Extends, by_use-Extends, after_arms-Extends,
}

module _ (bs ws : TextSet) where
  module _ {F : Type 0} where
    mutual
      unfolding walk wd_words

      pub walk-Extends :
          (before : List (Node F)) (ns : Nodes F) (known : Option TextSet) (in_at : Bool)
          (moved : TextSet) (c : Checker)
          → Sub (wd_words (contains bs) (str_at (back 1 before)) ns) ws
          → Extends bs ws c (walk before ns known in_at moved c)
      walk-Extends before nil known in_at moved c h = Extends-refl bs ws c
      walk-Extends before (cons n ns) known in_at moved c h =
          let prev = str_at (back 1 before) in
          Extends-trans bs ws c (visit before n ns known in_at moved c) _
            (visit-Extends before n ns known in_at moved c
              (Sub-append_left (wd_words_of (contains bs) prev n) _ ws h))
            (walk-Extends (n ∷ before) ns known in_at (moves c.bound n moved) _
              (Sub-append_right (wd_words_of (contains bs) prev n) _ ws h))

      pub visit-Extends :
          (before : List (Node F)) (n : Node F) (rest : Nodes F) (known : Option TextSet)
          (in_at : Bool) (moved : TextSet) (c : Checker)
          → Sub (wd_words_of (contains bs) (str_at (back 1 before)) n) ws
          → Extends bs ws c (visit before n rest known in_at moved c)
      visit-Extends before (node k p) rest known in_at moved c h =
          visit_kind-Extends p before k rest known in_at moved c h

      visit_kind-Extends :
          (p : Pos) (before : List (Node F)) (k : NodeKind F) (rest : Nodes F)
          (known : Option TextSet) (in_at : Bool) (moved : TextSet) (c : Checker)
          → Sub (wd_words_of_kind (contains bs) (str_at (back 1 before)) k) ws
          → Extends bs ws c (visit_kind p before k rest known in_at moved c)
      visit_kind-Extends p before (name s) rest known in_at moved c h =
          visit_name-Extends bs ws p known in_at moved (back 1 before) s c h
      visit_kind-Extends p before (move s) rest known in_at moved c h =
          visit_move-Extends bs ws p in_at moved s c
      visit_kind-Extends p before (cap s) rest known in_at moved c h =
          visit_cap-Extends bs ws p known in_at (ahead 1 rest) s c
      visit_kind-Extends p before (op s) rest known in_at moved c h =
          visit_op-Extends bs ws p known in_at before s c
      visit_kind-Extends p before (blk ns) rest known in_at moved c h =
          by_use-Extends bs ws (use_of c.bound before rest known in_at moved) _ _ c
            (λ b.
              after_arms-Extends bs ws p b (count ns) c (check_arms p ns known in_at moved [] c).0 _
                (check_arms-Extends p none ns known in_at moved [] c h))
            (λ inner in_at₁ moved₁. walk-Extends [] ns inner in_at₁ moved₁ c h)
      visit_kind-Extends p before (int v) rest known in_at moved c h = Extends-refl bs ws c
      visit_kind-Extends p before (float v) rest known in_at moved c h = Extends-refl bs ws c
      visit_kind-Extends p before (str s) rest known in_at moved c h = Extends-refl bs ws c
      visit_kind-Extends p before (bind s) rest known in_at moved c h = Extends-refl bs ws c

      pub check_arms-Extends :
          (p : Pos) (prev : Option Text) (ns : Nodes F) (known : Option TextSet) (in_at : Bool)
          (moved seen : TextSet) (c : Checker)
          → Sub (wd_words (contains bs) prev ns) ws
          → Extends bs ws c (check_arms p ns known in_at moved seen c).0
      check_arms-Extends p prev nil known in_at moved seen c h = Extends-refl bs ws c
      check_arms-Extends p prev (cons pat nil) known in_at moved seen c h = Extends-refl bs ws c
      check_arms-Extends p prev (cons pat (cons body rest)) known in_at moved seen c h =
          let h₁ = Sub-append_right (wd_words_of (contains bs) prev pat) _ ws h in
          Extends-trans bs ws c (check_arm p pat body known in_at moved c) _
            (check_arm-Extends p pat body known in_at moved c
              (Sub-append_left (wd_words_of (contains bs) (str_at (some pat)) body) _ ws h₁))
            (check_arms-Extends p _ rest known in_at moved (see (arm_label pat body c) seen) _
              (Sub-append_right (wd_words_of (contains bs) (str_at (some pat)) body) _ ws h₁))

      pub check_arm-Extends :
          (p : Pos) (pat body : Node F) (known : Option TextSet) (in_at : Bool) (moved : TextSet)
          (c : Checker)
          → Sub (wd_words_of (contains bs) (str_at (some pat)) body) ws
          → Extends bs ws c (check_arm p pat body known in_at moved c)
      check_arm-Extends p pat (node k q) known in_at moved c h =
          check_body-Extends p pat k known in_at moved c h

      check_body-Extends :
          (p : Pos) (pat : Node F) (k : NodeKind F) (known : Option TextSet) (in_at : Bool)
          (moved : TextSet) (c : Checker)
          → Sub (wd_words_of_kind (contains bs) (str_at (some pat)) k) ws
          → Extends bs ws c (check_body p pat k known in_at moved c)
      check_body-Extends p pat (blk body) known in_at moved c h =
          elim (children pat)
            as (λ o. Extends bs ws c (elim o as (λ _. Checker) [
              | none ↦ not_blocks p c
              | some inner ↦ walk [] body known in_at moved (check_pattern (pos_of pat) inner c).0
            ])) [
              | none ↦ diag-Extends bs ws _ _ _ _ _ _ c
              | some inner ↦
                  let e = (check_pattern (pos_of pat) inner c).0 in
                  Extends-trans bs ws c e _ (check_pattern-Extends bs ws (pos_of pat) inner c)
                    (walk-Extends [] body known in_at moved e h)
            ]
      check_body-Extends p pat (int s) known in_at moved c h = diag-Extends bs ws _ _ _ _ _ _ c
      check_body-Extends p pat (float s) known in_at moved c h = diag-Extends bs ws _ _ _ _ _ _ c
      check_body-Extends p pat (str s) known in_at moved c h = diag-Extends bs ws _ _ _ _ _ _ c
      check_body-Extends p pat (name s) known in_at moved c h = diag-Extends bs ws _ _ _ _ _ _ c
      check_body-Extends p pat (bind s) known in_at moved c h = diag-Extends bs ws _ _ _ _ _ _ c
      check_body-Extends p pat (move s) known in_at moved c h = diag-Extends bs ws _ _ _ _ _ _ c
      check_body-Extends p pat (cap s) known in_at moved c h = diag-Extends bs ws _ _ _ _ _ _ c
      check_body-Extends p pat (op s) known in_at moved c h = diag-Extends bs ws _ _ _ _ _ _ c
