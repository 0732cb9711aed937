-- ===== src/Check/Names.antt =====
-- A program without findings names only what it binds or defines, and builtins.
use zown.Prelude.{
  Bool, false, List, [], ◌∷◌, ◌++◌, Option, none, some, Text, text, ◌≡◌, refl, ◌∙◌, Option-cases,
  Bool-cases, inl, inr,
}
use mathlib.Core.Path.{fun_ext, subst}
use zown.Syntax.{
  Pos, Node, NodeKind, Nodes, node, nil, cons, int, float, str, name, bind, move, cap, op, blk,
}
use zown.Check.Sets.{TextSet, contains}
use zown.Check.State.{Checker, new, back, ahead, is_op, str_at, collect_binds}
use zown.Check.Visit.{see, children, pos_of, count, check_pattern}
use zown.Check.Walk.{
  walk, visit, visit_kind, check_arms, check_arm, check_body, arm_label, moves, check,
}
use zown.Check.Defines.{Sub, Sub-left, Sub-right, wd_words, wd_words_of}
use zown.Check.Frame.{check_pattern-Extends}
use zown.Check.FrameWalk.{check_arm-Extends, walk-Extends, visit-Extends, check_arms-Extends}
use zown.Check.Uses.{
  IsClean, diag-not_IsClean, IsClean-before, by_use-IsCode, use_of-arms, use_of-IsCode,
}
use zown.Check.Binds.{binds, collect_binds-contains}
use zown.Check.Known.{
  NamesIn, NamesOf, NamesOfKind, NamesInBodies, NamesOk, visit_name-Known, visit_move-Bound,
  after_arms-IsClean,
}

module _ (b : TextSet) where
  module _ {F : Type 0} where
    mutual
      unfolding walk wd_words NamesIn

      pub walk-NamesIn :
          (before : List (Node F)) (ns : Nodes F) (known : Option TextSet) (in_at : Bool)
          (moved ds : TextSet) (c : Checker)
          → c.bound ≡ b
          → Sub c.defined ds
          → IsClean (walk before ns known in_at moved c)
          → NamesIn (contains b) (str_at (back 1 before)) ds ns
      walk-NamesIn before nil known in_at moved ds c same h clean = tt
      walk-NamesIn before (cons n ns) known in_at moved ds c same h clean =
          let here = wd_words_of (contains b) (str_at (back 1 before)) n in
          let later = wd_words (contains b) (str_at (some n)) ns in
          let e = visit before n ns known in_at moved c in
          let f = visit-Extends b (here ++ ds) before n ns known in_at moved c (Sub-left here ds) in
          let g =
            walk-Extends b later (n ∷ before) ns known in_at (moves c.bound n moved) e (λ w m. m) in
          (
            visit-NamesOf before n ns known in_at moved ds c same h
                (IsClean-before b later e _ g clean),
            walk-NamesIn (n ∷ before) ns known in_at (moves c.bound n moved) (here ++ ds) e
                (f.same_bound ∙ same) (f.defines same (Sub-right here ds c.defined h)) clean,
          )

      visit-NamesOf :
          (before : List (Node F)) (n : Node F) (rest : Nodes F) (known : Option TextSet)
          (in_at : Bool) (moved ds : TextSet) (c : Checker)
          → c.bound ≡ b
          → Sub c.defined ds
          → IsClean (visit before n rest known in_at moved c)
          → NamesOf (contains b) (is_op (ahead 1 rest) (text "??")) (str_at (back 1 before)) ds n
      visit-NamesOf before (node k p) rest known in_at moved ds c same h clean =
          visit_kind-NamesOf p before k rest known in_at moved ds c same h clean

      visit_kind-NamesOf :
          (p : Pos) (before : List (Node F)) (k : NodeKind F) (rest : Nodes F)
          (known : Option TextSet) (in_at : Bool) (moved ds : TextSet) (c : Checker)
          → c.bound ≡ b
          → Sub c.defined ds
          → IsClean (visit_kind p before k rest known in_at moved c)
          → NamesOfKind
              (contains b)
              (is_op (ahead 1 rest) (text "??"))
              (str_at (back 1 before))
              ds
              k
      visit_kind-NamesOf p before (name s) rest known in_at moved ds c same h clean =
          visit_name-Known b p known in_at moved (back 1 before) s ds c same h clean
      visit_kind-NamesOf p before (move s) rest known in_at moved ds c same h clean =
          visit_move-Bound b p in_at moved s c same clean
      visit_kind-NamesOf p before (blk ns) rest known in_at moved ds c same h clean =
          elim (Bool-cases (is_op (ahead 1 rest) (text "??"))) [
            | inl t ↦
                let (q, u) = use_of-arms c.bound before rest known in_at moved t in
                let checked = check_arms p ns known in_at moved [] c in
                rw t (
                  check_arms-NamesInBodies p ns known in_at moved [] ds c same h
                    (after_arms-IsClean b p q (count ns) c checked.0 checked.1 (rw u at clean)))
            | inr t ↦
                let (k, a, m, q) =
                  by_use-IsCode _ _ _ (use_of-IsCode c.bound before rest known in_at moved t)
                    clean in
                rw t (walk-NamesIn [] ns k a m ds c same h q)
          ]
      visit_kind-NamesOf p before (int s) rest known in_at moved ds c same h clean = tt
      visit_kind-NamesOf p before (float s) rest known in_at moved ds c same h clean = tt
      visit_kind-NamesOf p before (str s) rest known in_at moved ds c same h clean = tt
      visit_kind-NamesOf p before (bind s) rest known in_at moved ds c same h clean = tt
      visit_kind-NamesOf p before (cap s) rest known in_at moved ds c same h clean = tt
      visit_kind-NamesOf p before (op s) rest known in_at moved ds c same h clean = tt

      check_arms-NamesInBodies :
          (p : Pos) (ns : Nodes F) (known : Option TextSet) (in_at : Bool) (moved seen ds : TextSet)
          (c : Checker)
          → c.bound ≡ b
          → Sub c.defined ds
          → IsClean (check_arms p ns known in_at moved seen c).0
          → NamesInBodies (contains b) ds ns
      check_arms-NamesInBodies p nil known in_at moved seen ds c same h clean = tt
      check_arms-NamesInBodies p (cons pat nil) known in_at moved seen ds c same h clean = tt
      check_arms-NamesInBodies p (cons pat (cons body rest)) known in_at moved seen ds c same h
            clean =
          let here = wd_words_of (contains b) (str_at (some pat)) body in
          let later = wd_words (contains b) (str_at (some body)) rest in
          let e = check_arm p pat body known in_at moved c in
          let f =
            check_arm-Extends b (here ++ ds) p pat body known in_at moved c (Sub-left here ds) in
          let seen₁ = see (arm_label pat body c) seen in
          let g =
            check_arms-Extends b later p (str_at (some body)) rest known in_at moved seen₁ e
              (λ w m. m) in
          (
            check_arm-NamesOf p pat body known in_at moved ds c same h
                (IsClean-before b later e _ g clean),
            check_arms-NamesInBodies p rest known in_at moved seen₁ (here ++ ds) e
                (f.same_bound ∙ same) (f.defines same (Sub-right here ds c.defined h)) clean,
          )

      check_arm-NamesOf :
          (p : Pos) (pat body : Node F) (known : Option TextSet) (in_at : Bool) (moved ds : TextSet)
          (c : Checker)
          → c.bound ≡ b
          → Sub c.defined ds
          → IsClean (check_arm p pat body known in_at moved c)
          → NamesOf (contains b) false (str_at (some pat)) ds body
      check_arm-NamesOf p pat (node k q) known in_at moved ds c same h clean =
          check_body-NamesOf p pat k known in_at moved ds c same h clean

      check_body-NamesOf :
          (p : Pos) (pat : Node F) (k : NodeKind F) (known : Option TextSet) (in_at : Bool)
          (moved ds : TextSet) (c : Checker)
          → c.bound ≡ b
          → Sub c.defined ds
          → IsClean (check_body p pat k known in_at moved c)
          → NamesOfKind (contains b) false (str_at (some pat)) ds k
      check_body-NamesOf p pat (blk body) known in_at moved ds c same h clean =
          elim (Option-cases (children pat)) [
            | inl e ↦ absurd (diag-not_IsClean _ _ _ _ _ _ _ (rw (check_body, e) at clean))
            | inr (inner, e) ↦
                let c₁ = (check_pattern (pos_of pat) inner c).0 in
                let f = check_pattern-Extends b ds (pos_of pat) inner c in
                walk-NamesIn [] body known in_at moved ds c₁ (f.same_bound ∙ same)
                  (f.defines same h) (rw (check_body, e) at clean)
          ]
      check_body-NamesOf p pat (int s) known in_at moved ds c same h clean =
          absurd (diag-not_IsClean _ _ _ _ _ _ _ clean)
      check_body-NamesOf p pat (float s) known in_at moved ds c same h clean =
          absurd (diag-not_IsClean _ _ _ _ _ _ _ clean)
      check_body-NamesOf p pat (str s) known in_at moved ds c same h clean =
          absurd (diag-not_IsClean _ _ _ _ _ _ _ clean)
      check_body-NamesOf p pat (name s) known in_at moved ds c same h clean =
          absurd (diag-not_IsClean _ _ _ _ _ _ _ clean)
      check_body-NamesOf p pat (bind s) known in_at moved ds c same h clean =
          absurd (diag-not_IsClean _ _ _ _ _ _ _ clean)
      check_body-NamesOf p pat (move s) known in_at moved ds c same h clean =
          absurd (diag-not_IsClean _ _ _ _ _ _ _ clean)
      check_body-NamesOf p pat (cap s) known in_at moved ds c same h clean =
          absurd (diag-not_IsClean _ _ _ _ _ _ _ clean)
      check_body-NamesOf p pat (op s) known in_at moved ds c same h clean =
          absurd (diag-not_IsClean _ _ _ _ _ _ _ clean)

module _ {F : Type 0} where
  -- Of a program without findings each name that runs is bound in the program, a builtin, or a word
  -- that the program defines before it, with `wd` behind a text that can be a name, where `wd` is not
  -- bound; and each name moved out is bound.
  pub check-NamesOk : (ns : Nodes F) (file : Option Text) → check ns (new file) ≡ [] → NamesOk ns
  unfolding check contains binds
  check-NamesOk ns file clean =
      let same : contains (collect_binds ns []) ≡ binds ns =
        fun_ext (collect_binds-contains ns []) in
      subst (λ f. NamesIn f none [] ns) same
        (walk-NamesIn (collect_binds ns []) [] ns (some []) false [] [] _ refl (λ w m. m) clean)
