-- ===== src/Check/Walk.antt =====
-- The walk over a program: `walk`, `walk_block`, the loop of `check_match_arms`, and `check`.
use zown.Prelude.{
  Bool, true, false, not, ◌&&◌, ◌||◌, List, [], ◌∷◌, Option, none, some, Text, text, text_eq,
  if◌then◌else◌,
}
use zown.Prelude.Outcome.{Outcome, ok, ◌>>=◌}
use zown.Parser.{ParseError, parse}
use zown.Syntax.{
  Pos, Node, NodeKind, Nodes, node, nil, cons, int, float, str, name, bind, move, cap, op, blk,
}
use zown.Check.Sets.{TextSet, contains, insert, remove}
use zown.Check.Words.{vec_ctors, box_ctors, invoking_ops, invoking_words}
use zown.Check.State.{
  Diag, Checker, new, back, ahead, is_word, is_op, is_blk, collect_binds, uses_word,
  collect_grantable, collect_offers,
}
use zown.Check.Visit.{
  by_use, Label, unseen, children, pos_of, granted, Use, arms, code, see, after_arms, count, cap_at,
  visit_name, visit_move, visit_cap, visit_op, grant_of, not_blocks, check_pattern,
}

module _ {F : Type 0} where
  -- the names moved out behind a node
  abbrev pub invoking : TextSet → NodeKind F → Bool
  invoking bound (op s) = contains invoking_ops s
  invoking bound (name s) = contains invoking_words s && not (contains bound s)
  invoking bound _ = false

  abbrev pub moves_of : NodeKind F → TextSet → TextSet
  moves_of (move s) moved = insert s moved
  moves_of (bind s) moved = remove s moved
  moves_of _ moved = moved

  abbrev pub moves : TextSet → Node F → TextSet → TextSet
  moves bound (node k p) moved = if invoking bound k then [] else moves_of k moved

  -- the tests of `walk_block` behind `@` and `;`
  abbrev pub use_by_name : TextSet → Option TextSet → Bool → TextSet → Option (Node F) → Use
  use_by_name bound known in_at moved (some (node (name s) p)) =
      if (contains vec_ctors s || contains box_ctors s || text_eq s (text "gp"))
        && not (contains bound s)
      then code known in_at (some moved)
      else code none in_at none
  use_by_name bound known in_at moved _ = code none in_at none

  unfoldable pub use_of : TextSet → List (Node F) → Nodes F → Option TextSet → Bool → TextSet → Use
  use_of bound before rest known in_at moved =
      let nxt = ahead 1 rest in
      let nxt2 = ahead 2 rest in
      let nxt3 = ahead 3 rest in
      if is_op nxt (text "??")
      then arms (is_word bound (back 1 before) (text "ty") && is_blk (back 2 before))
      else if is_op nxt (text "@")
      then code known in_at (some moved)
      else if is_op nxt (text ";")
      then code known in_at none
      else if is_blk nxt && is_op nxt2 (text ";")
      then code known in_at (some moved)
      else if is_op nxt (text "?") && is_op nxt2 (text "@")
      then code known in_at (some moved)
      else if is_blk nxt && is_op nxt2 (text "?") && is_op nxt3 (text "@")
      then code known in_at (some moved)
      else if is_word bound nxt (text "gd")
      then code (granted (text "d") known) in_at (some moved)
      else if is_word bound nxt (text "gr")
      then code (grant_of (cap_at (back 1 before)) known) in_at (some moved)
      else if is_word bound nxt (text "ty")
      then code known true (some moved)
      else use_by_name bound known in_at moved nxt

  -- the label that an arm adds to those seen
  abbrev pub arm_label : Node F → Node F → Checker → Label
  arm_label pat body c = elim (children pat) [
    | none ↦ unseen
    | some inner ↦ elim (children body) [
      | none ↦ unseen
      | some ns ↦ (check_pattern (pos_of pat) inner c).1
    ]
  ]

  -- `walk` from a node on, with the nodes before it, nearest first
  unfoldable mutual
    pub walk : List (Node F) → Nodes F → Option TextSet → Bool → TextSet → Checker → Checker
    walk before nil known in_at moved c = c
    walk before (cons n ns) known in_at moved c =
        walk (n ∷ before) ns known in_at (moves c.bound n moved)
          (visit before n ns known in_at moved c)

    pub visit :
        List (Node F) → Node F → Nodes F → Option TextSet → Bool → TextSet → Checker → Checker
    visit before (node k p) rest known in_at moved c =
        visit_kind p before k rest known in_at moved c

    pub visit_kind :
        Pos
        → List (Node F)
        → NodeKind F
        → Nodes F
        → Option TextSet
        → Bool
        → TextSet
        → Checker
        → Checker
    visit_kind p before (name s) rest known in_at moved c =
        visit_name p known in_at moved (back 1 before) s c
    visit_kind p before (move s) rest known in_at moved c = visit_move p in_at moved s c
    visit_kind p before (cap s) rest known in_at moved c =
        visit_cap p known in_at (ahead 1 rest) s c
    visit_kind p before (op s) rest known in_at moved c = visit_op p known in_at before s c
    visit_kind p before (blk ns) rest known in_at moved c =
        by_use (use_of c.bound before rest known in_at moved)
          (λ subject_is_res.
            after_arms p subject_is_res (count ns) c (check_arms p ns known in_at moved [] c))
          (λ inner in_at₁ moved₁. walk [] ns inner in_at₁ moved₁ c)
    visit_kind p before (int v) rest known in_at moved c = c
    visit_kind p before (float v) rest known in_at moved c = c
    visit_kind p before (str s) rest known in_at moved c = c
    visit_kind p before (bind s) rest known in_at moved c = c

    -- the loop over the pairs of `check_match_arms`, with the labels seen
    pub check_arms :
        Pos → Nodes F → Option TextSet → Bool → TextSet → TextSet → Checker → Checker × TextSet
    check_arms p nil known in_at moved seen c = (c, seen)
    check_arms p (cons pat nil) known in_at moved seen c = (c, seen)
    check_arms p (cons pat (cons body rest)) known in_at moved seen c =
        check_arms p rest known in_at moved (see (arm_label pat body c) seen)
          (check_arm p pat body known in_at moved c)

    -- an arm: its pattern is read and its body is walked
    pub check_arm : Pos → Node F → Node F → Option TextSet → Bool → TextSet → Checker → Checker
    check_arm p pat (node k q) known in_at moved c = check_body p pat k known in_at moved c

    pub check_body : Pos → Node F → NodeKind F → Option TextSet → Bool → TextSet → Checker → Checker
    check_body p pat (blk body) known in_at moved c = elim (children pat) as (λ _. Checker) [
      | none ↦ not_blocks p c
      | some inner ↦ walk [] body known in_at moved (check_pattern (pos_of pat) inner c).0
    ]
    check_body p pat _ known in_at moved c = not_blocks p c

  unfoldable pub check : Nodes F → Checker → List Diag
  check ns c =
      let bound = collect_binds ns c.bound in
      let ready = record c {
        bound = bound;
        grantable = collect_grantable bound ns c.grantable;
        uses_at = uses_word bound (text "ty") ns;
        offers = collect_offers [] ns c.offers;
      } in
      (walk [] ns (some []) false [] ready).diags

  unfoldable pub check_src : (Text → F) → Text → Option Text → Outcome (ParseError F) (List Diag)
  check_src parse_f64 src file = do ns ← parse parse_f64 src; ok (check ns (new file))
