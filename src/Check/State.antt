-- ===== src/Check/State.antt =====
-- The checker's state, its findings, and the passes before the walk.
use zown.Prelude.{
  ℕ, zero, suc, Bool, true, false, not, ◌&&◌, ◌||◌, List, [], ◌∷◌, ◌++◌, Option, none, some, Text,
  text, text_eq, get_elem?, if◌then◌else◌,
}
use zown.Syntax.{Pos, Node, NodeKind, Nodes, node, nil, cons, str, name, bind, cap, op, blk}
use zown.Check.Sets.{TextSet, contains, insert}
use zown.Check.Words.{host_hint}

-- The codes that findings carry.
pub data Code : Type 0 where
  name_unresolved cap_denied bad_pattern no_match type_mismatch : Code

-- A constructor stands for a message of the source; its arguments fill the message's gaps.
pub data Msg : Type 0 where
  never_bound moved_out never_bound_moved moved_twice : Text → Msg
  protocol_differs : Text → Text → Msg
  required_not_held : Text → TextSet → Msg
  needed_not_held : Text → Text → TextSet → Msg
  required_not_granted : Text → Msg
  needed_not_granted : Text → Text → Msg
  odd_arms one_token : ℕ → Msg
  arms_are_blocks : Msg
  not_exhaustive : List Text → Msg
  unrecognized_pattern : Text → Msg

pub record Diag : Type 0 where
  pub code : Code
  pub msg : Msg
  pub word : Option Text
  pub cap_name : Option Text
  pub hint : Text
  pub pos : Pos
  pub file : Option Text

abbrev pub code_text : Code → Text
code_text name_unresolved = text "NAME_UNRESOLVED"
code_text cap_denied = text "CAP_DENIED"
code_text bad_pattern = text "BAD_PATTERN"
code_text no_match = text "NO_MATCH"
code_text type_mismatch = text "TYPE_MISMATCH"

abbrev pub spaced : Option Text → Text
spaced none = []
spaced (some w) = b' ' ∷ w

abbrev pub render_line : Diag → Text
render_line d = code_text d.code ++ spaced d.word ++ spaced d.cap_name ++ b'\n' ∷ []

abbrev pub all_lines : List Diag → Text
all_lines [] = []
all_lines (d ∷ ds) = render_line d ++ all_lines ds

unfoldable pub render_lines : List Diag → Text
render_lines [] = text "ok\n"
render_lines (d ∷ ds) = all_lines (d ∷ ds)

-- `offers` keeps the protocols of each name; the order of its entries is never read.
pub record Checker : Type 0 where
  pub file : Option Text
  pub diags : List Diag
  pub bound : TextSet
  pub grantable : TextSet
  pub uses_at : Bool
  pub offers : List (Text × TextSet)
  pub defined : TextSet

abbrev pub new : Option Text → Checker
new f = record {
  file = f;
  diags = [];
  bound = [];
  grantable = [];
  uses_at = false;
  offers = [];
  defined = [];
}

unfoldable pub diag : Code → Msg → Pos → Option Text → Option Text → Text → Checker → Checker
diag k m p w a h c = record c {
  diags =
      c.diags
      ++ record { code = k; msg = m; word = w; cap_name = a; hint = h; pos = p; file = c.file }
        ∷ [];
}

-- `self.offers.entry(w).or_default().insert(proto)`
unfoldable pub offer : Text → Text → List (Text × TextSet) → List (Text × TextSet)
offer w proto [] = (w, insert proto []) ∷ []
offer w proto ((v, ps) ∷ os) =
    let rest = offer w proto os in if text_eq v w then (v, insert proto ps) ∷ os else (v, ps) ∷ rest

unfoldable pub offered : Text → List (Text × TextSet) → Option TextSet
offered w [] = none
offered w ((v, ps) ∷ os) = let rest = offered w os in if text_eq v w then some ps else rest

abbrev pub offer_pair : Option Text → Option Text → List (Text × TextSet) → List (Text × TextSet)
offer_pair (some w) (some proto) os = offer w proto os
offer_pair _ _ os = os

module _ {F : Type 0} where
  -- `at(nodes, i - k)`, of the nodes before index `i`, nearest first
  abbrev pub back : ℕ → List (Node F) → Option (Node F)
  back zero ms = none
  back (suc k) ms = get_elem? ms k

  -- `at(nodes, i + k)`, of the nodes behind index `i`
  abbrev pub ahead : ℕ → Nodes F → Option (Node F)
  ahead k nil = none
  ahead zero (cons n ns) = none
  ahead (suc zero) (cons n ns) = some n
  ahead (suc (suc k)) (cons n ns) = ahead (suc k) ns

  abbrev pub is_word : TextSet → Option (Node F) → Text → Bool
  is_word bound (some (node (name s) p)) w = text_eq s w && not (contains bound w)
  is_word bound _ w = false

  abbrev pub is_op : Option (Node F) → Text → Bool
  is_op (some (node (op s) p)) w = text_eq s w
  is_op _ w = false

  abbrev pub is_blk : Option (Node F) → Bool
  is_blk (some (node (blk ns) p)) = true
  is_blk _ = false

  abbrev pub str_at : Option (Node F) → Option Text
  str_at (some (node (str s) p)) = some s
  str_at _ = none

  unfoldable mutual
    pub collect_binds : Nodes F → TextSet → TextSet
    collect_binds nil b = b
    collect_binds (cons n ns) b = collect_binds ns (binds_of n b)

    pub binds_of : Node F → TextSet → TextSet
    binds_of (node k p) b = binds_of_kind k b

    pub binds_of_kind : NodeKind F → TextSet → TextSet
    binds_of_kind (bind s) b = insert s b
    binds_of_kind (blk ns) b = collect_binds ns b
    binds_of_kind _ b = b

  unfoldable mutual
    pub uses_word : TextSet → Text → Nodes F → Bool
    uses_word bound w nil = false
    uses_word bound w (cons n ns) =
        is_word bound (some n) w || uses_word_in bound w n || uses_word bound w ns

    pub uses_word_in : TextSet → Text → Node F → Bool
    uses_word_in bound w (node k p) = uses_word_in_kind bound w k

    pub uses_word_in_kind : TextSet → Text → NodeKind F → Bool
    uses_word_in_kind bound w (blk ns) = uses_word bound w ns
    uses_word_in_kind bound w _ = false

  -- `scan_free_caps` at a node that `next` stands behind; the set is `grantable`
  unfoldable mutual
    pub scan_free_caps : TextSet → Nodes F → TextSet → TextSet
    scan_free_caps bound nil g = g
    scan_free_caps bound (cons n ns) g =
        scan_free_caps bound ns (free_caps_of bound n (ahead 1 ns) g)

    pub free_caps_of : TextSet → Node F → Option (Node F) → TextSet → TextSet
    free_caps_of bound (node k p) next g = free_caps_of_kind bound k next g

    pub free_caps_of_kind : TextSet → NodeKind F → Option (Node F) → TextSet → TextSet
    free_caps_of_kind bound (cap s) next g =
        if not (is_word bound next (text "rq") || is_word bound next (text "hv"))
        then insert s g
        else g
    free_caps_of_kind bound (blk ns) next g = scan_free_caps bound ns g
    free_caps_of_kind bound _ next g = g

  abbrev pub collect_grantable : TextSet → Nodes F → TextSet → TextSet
  collect_grantable bound ns g =
      let free = if not (contains bound (text "gr")) then scan_free_caps bound ns g else g in
      if not (contains bound (text "gd")) && uses_word bound (text "gd") ns
      then insert (text "d") free
      else free

  -- `i >= 3` holds where `nodes[i - 3]` is one of the nodes before
  unfoldable mutual
    pub collect_offers : List (Node F) → Nodes F → List (Text × TextSet) → List (Text × TextSet)
    collect_offers before nil os = os
    collect_offers before (cons n ns) os = collect_offers (n ∷ before) ns (offers_of before n os)

    pub offers_of : List (Node F) → Node F → List (Text × TextSet) → List (Text × TextSet)
    offers_of before (node k p) os = offers_of_kind before k os

    pub offers_of_kind : List (Node F) → NodeKind F → List (Text × TextSet) → List (Text × TextSet)
    offers_of_kind before (op s) os =
        if text_eq s (text "~l")
        then offer_pair (str_at (back 3 before)) (str_at (back 2 before)) os
        else os
    offers_of_kind before (blk ns) os = collect_offers [] ns os
    offers_of_kind before _ os = os

-- Whether the authority in scope is known and lacks the capability.
abbrev pub lacks : Option TextSet → Text → Bool
lacks none a = false
lacks (some known) a = not (contains known a)

abbrev pub held : Option TextSet → TextSet
held none = []
held (some known) = known

-- `check_require` of a capability `a` for the word `w`
unfoldable pub check_require : Text → Pos → Option TextSet → Text → Checker → Checker
check_require a p known w c =
    let here =
      if text_eq w (text "rq")
      then diag cap_denied (required_not_held a (held known)) p (some w) (some a)
          (text "run it inside a grant") c
      else diag cap_denied (needed_not_held w a (held known)) p (some w) (some a) (host_hint w) c in
    let anywhere =
      if text_eq w (text "rq")
      then diag cap_denied (required_not_granted a) p (some w) (some a)
          (text "add a grant scope around the caller") c
      else diag cap_denied (needed_not_granted w a) p (some w) (some a) (host_hint w) c in
    if lacks known a
    then here
    else if not (contains c.grantable a) && not c.uses_at
    then anywhere
    else c
