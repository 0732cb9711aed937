-- ===== src/Check/Visit.antt =====
-- What the checker does at each node, and with the patterns of a match.
use zown.Prelude.{
  ℕ, suc, Bool, not, ◌&&◌, ◌||◌, List, [], ◌∷◌, ◌++◌, Option, none, some, Text, text, text_eq,
  if◌then◌else◌, ◌==◌, ◌%◌,
}
use zown.Syntax.{
  Pos, Node, NodeKind, Nodes, node, nil, cons, int, float, str, name, bind, move, cap, op, blk,
}
use zown.Check.Sets.{TextSet, contains, insert}
use zown.Check.Words.{is_builtin, pattern_types, res_patterns, net_cap, host_cap, wd_name}
use zown.Check.State.{
  name_unresolved, bad_pattern, no_match, type_mismatch, never_bound, moved_out, never_bound_moved,
  moved_twice, protocol_differs, odd_arms, one_token, arms_are_blocks, not_exhaustive,
  unrecognized_pattern, Checker, diag, back, is_word, str_at, offered, check_require,
}

-- `moved_in.cloned().unwrap_or_default()`
abbrev pub or_empty : Option TextSet → TextSet
or_empty none = []
or_empty (some s) = s

-- `known` with a capability more
abbrev pub granted : Text → Option TextSet → Option TextSet
granted a none = none
granted a (some known) = some (insert a known)

abbrev pub require_if : Option Text → Pos → Option TextSet → Text → Checker → Checker
require_if none p known w c = c
require_if (some a) p known w c = check_require a p known w c

-- What `walk_block` makes of a block: match arms, or code with the authority in scope, whether
-- faults are handled, and the names moved out before.
pub data Use : Type 0 where
  arms : (subject_is_res : Bool) → Use
  code : (inner : Option TextSet) → (in_at : Bool) → (inherit : Option TextSet) → Use

abbrev pub by_use {ℓ} : {A : Type ℓ} → Use → (Bool → A) → (Option TextSet → Bool → TextSet → A) → A
by_use (arms subject_is_res) f g = f subject_is_res
by_use (code inner in_at inherit) f g = g inner in_at (or_empty inherit)

-- the label that a pattern is seen as; `unseen` is no label
pub data Label : Type 0 where
  unseen : Label
  seen_as : Text → Label

abbrev pub see : Label → TextSet → TextSet
see unseen seen = seen
see (seen_as l) seen = insert l seen

-- after the arms
unfoldable pub check_covered : Bool → Pos → TextSet → Checker → Checker
check_covered subject_is_res p seen c =
    let covered =
      contains seen (text "any")
      || contains seen (text "res")
      || contains seen (text "ok") && contains seen (text "err") in
    let no_err = if not (contains seen (text "err")) then text "err" ∷ [] else [] in
    let no_ok = if not (contains seen (text "ok")) then text "ok" ∷ [] else [] in
    if subject_is_res && not covered
    then diag no_match (not_exhaustive (no_err ++ no_ok)) p (some (text "??")) none
        (text "add [err] and [ok] arms, or a default [any]") c
    else c

-- `` `w `` run as a word here
unfoldable pub resolve : Pos → Bool → TextSet → Text → Checker → Checker
resolve p in_at moved w c =
    if not (contains c.bound w) && not (is_builtin w) && not (contains c.defined w)
    then diag name_unresolved (never_bound w) p (some w) none
        (text "bind it with `:name`, or check the stdlib word list") c
    else if contains moved w && not (is_builtin w) && not in_at
    then diag name_unresolved (moved_out w) p (some w) none
        (text "a bare name is a borrow; move it last, or rebind it") c
    else c

-- `$word$ wd` defines the word
unfoldable pub define : Text → Option Text → Checker → Checker
define w none c = c
define w (some word) c =
    if text_eq w (text "wd") && not (contains c.bound w) && wd_name word
    then record c { defined = insert word c.defined }
    else c

unfoldable pub visit_move : Pos → Bool → TextSet → Text → Checker → Checker
visit_move p in_at moved w c =
    if not (contains c.bound w)
    then diag name_unresolved (never_bound_moved w) p (some (b'\'' ∷ w)) none
        (text "bind it first: value :name") c
    else if contains moved w && not in_at
    then diag name_unresolved (moved_twice w) p (some (b'\'' ∷ w)) none
        (text "rebind it before moving it again") c
    else c

-- the protocol of a `~c` against those that the listeners of that name offer
abbrev pub compare_protocol : Pos → Text → Text → Option TextSet → Checker → Checker
compare_protocol p w proto none c = c
compare_protocol p w proto (some protos) c =
    if not (contains protos proto)
    then diag type_mismatch (protocol_differs proto w) p (some (text "~c")) none
        (text "the listener's protocol literal and this one differ") c
    else c

abbrev pub check_protocol : Pos → Option Text → Option Text → Checker → Checker
check_protocol p (some w) (some proto) c = compare_protocol p w proto (offered w c.offers) c
check_protocol p _ _ c = c

abbrev pub grant_of : Option Text → Option TextSet → Option TextSet
grant_of none known = none
grant_of (some a) known = granted a known

abbrev pub bad_label : Pos → Text → Checker → Checker × Label
bad_label p l c = (
  diag bad_pattern (unrecognized_pattern l) p (some (text "??")) none
      (text "a pattern is a type name, a literal, ok/err, or any") c,
  unseen,
)

abbrev pub bad_count : Pos → ℕ → Checker → Checker × Label
bad_count p n c = (
  diag bad_pattern (one_token n) p (some (text "??")) none
      (text "use [int], [42], [$txt$], [ok], or [any]") c,
  unseen,
)

abbrev pub not_blocks : Pos → Checker → Checker
not_blocks p c = diag bad_pattern arms_are_blocks p (some (text "??")) none [] c

abbrev pub require_net : Option Text → Pos → Option TextSet → Text → Checker → Checker
require_net (some a) p known w c = check_require a p known w c
require_net none p known w c =
    if text_eq w (text "~w")
    then check_require (text "t") p known w (check_require (text "r") p known w c)
    else c

-- `check_match_arms` of a block of `n` nodes, with the state before and the outcome of its loop
unfoldable pub after_arms : Pos → Bool → ℕ → Checker → Checker × TextSet → Checker
after_arms p subject_is_res n c (c₁, seen) =
    if n % 2 == 0
    then check_covered subject_is_res p seen c₁
    else diag bad_pattern (odd_arms n) p (some (text "??")) none [] c

module _ {F : Type 0} where
  abbrev pub count : Nodes F → ℕ
  count nil = 0
  count (cons n ns) = suc (count ns)

  abbrev pub cap_at : Option (Node F) → Option Text
  cap_at (some (node (cap s) p)) = some s
  cap_at _ = none

  abbrev pub pos_of : Node F → Pos
  pos_of (node k p) = p

  abbrev pub children : Node F → Option (Nodes F)
  children (node (blk ns) p) = some ns
  children _ = none

  abbrev pub pos_at : Pos → Option (Node F) → Pos
  pos_at p none = p
  pos_at p (some (node k q)) = q

  unfoldable pub visit_name :
      Pos → Option TextSet → Bool → TextSet → Option (Node F) → Text → Checker → Checker
  visit_name p known in_at moved prev w c =
      let c₁ = resolve p in_at moved w (define w (str_at prev) c) in
      if not (contains c₁.bound w) && not in_at then require_if (host_cap w) p known w c₁ else c₁

  unfoldable pub visit_cap :
      Pos → Option TextSet → Bool → Option (Node F) → Text → Checker → Checker
  visit_cap p known in_at next a c =
      if is_word c.bound next (text "rq") && not in_at
      then check_require a (pos_at p next) known (text "rq") c
      else c

  unfoldable pub visit_op : Pos → Option TextSet → Bool → List (Node F) → Text → Checker → Checker
  visit_op p known in_at before w c =
      let c₂ = if not in_at then require_net (net_cap w) p known w c else c in
      if text_eq w (text "~c")
      then check_protocol p (str_at (back 2 before)) (str_at (back 1 before)) c₂
      else c₂

  abbrev pub check_pattern_kind : Pos → NodeKind F → Checker → Checker × Label
  check_pattern_kind p (name s) c =
      if text_eq s (text "any")
      then (c, seen_as (text "any"))
      else if contains pattern_types s || contains res_patterns s
      then (c, seen_as s)
      else bad_label p s c
  check_pattern_kind p (int v) c = (c, seen_as (text "lit"))
  check_pattern_kind p (float v) c = (c, seen_as (text "lit"))
  check_pattern_kind p (str s) c = (c, seen_as (text "lit"))
  check_pattern_kind p (op s) c = bad_label p s c
  check_pattern_kind p (cap s) c = bad_label p s c
  check_pattern_kind p (bind s) c = bad_label p (b':' ∷ s) c
  check_pattern_kind p (move s) c = bad_label p (b'\'' ∷ s) c
  check_pattern_kind p (blk ns) c = bad_label p (text "blk") c

  unfoldable pub check_pattern : Pos → Nodes F → Checker → Checker × Label
  check_pattern p nil c = bad_count p 0 c
  check_pattern p (cons (node k q) nil) c = check_pattern_kind p k c
  check_pattern p (cons n (cons m ns)) c = bad_count p (count (cons n (cons m ns))) c
