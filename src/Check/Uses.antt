-- ===== src/Check/Uses.antt =====
-- States without findings, and the uses that the checker makes of a block.
use zown.Prelude.{
  Bool, true, false, ◌&&◌, List, [], Option, none, some, Text, text, if◌then◌else◌, ◌≡◌, refl, sym,
  ◌∙◌,
}
use mathlib.Core.List.{append-eq-nil_iff, cons≢nil}
use zown.Syntax.{Pos, Node, Nodes, node, int, float, str, name, bind, move, cap, op, blk}
use zown.Check.Sets.{TextSet}
use zown.Check.State.{Code, Msg, Checker, diag, back, ahead, is_op, is_blk, is_word}
use zown.Check.Visit.{Use, arms, code, by_use, or_empty}
use zown.Check.Walk.{use_of, use_by_name}
use zown.Check.Frame.{Extends}

abbrev pub IsClean : Checker → Type 0
IsClean c = c.diags ≡ []

pub diag-not_IsClean :
    (k : Code) (m : Msg) (p : Pos) (w a : Option Text) (h : Text) (c : Checker)
    → ¬ IsClean (diag k m p w a h c)
unfolding diag
diag-not_IsClean k m p w a h c e = cons≢nil (append-eq-nil_iff.0 e).1

pub IsClean-before : (bs ws : TextSet) (c e : Checker) → Extends bs ws c e → IsClean e → IsClean c
IsClean-before bs ws c e f h = let (ds, p) = f.added in (append-eq-nil_iff.0 (sym p ∙ h)).0

-- a use that walks the block
pub data IsCode : Use → Type 0 where
  code-IsCode : (k : Option TextSet) (a : Bool) (i : Option TextSet) → IsCode (code k a i)

if-IsCode : (b : Bool) (u v : Use) → IsCode u → IsCode v → IsCode (if b then u else v)
if-IsCode true u v h k = h
if-IsCode false u v h k = k

else-IsCode : (u v : Use) → IsCode v → IsCode (if false then u else v)
else-IsCode u v h = h

pub by_use-IsCode :
    (u : Use) (f : Bool → Checker) (g : Option TextSet → Bool → TextSet → Checker)
    → IsCode u
    → IsClean (by_use u f g)
    → (k : Option TextSet) × (a : Bool) × (m : TextSet) × IsClean (g k a m)
by_use-IsCode (code k a i) f g u h = (k, a, or_empty i, h)
by_use-IsCode (arms q) f g u h = elim u [ ]

module _ {F : Type 0} where
  use_by_name-IsCode :
      (bound : TextSet) (known : Option TextSet) (in_at : Bool) (moved : TextSet)
      (n : Option (Node F))
      → IsCode (use_by_name bound known in_at moved n)
  use_by_name-IsCode bound known in_at moved none = code-IsCode none in_at none
  use_by_name-IsCode bound known in_at moved (some (node (name s) p)) =
      search (if-IsCode, code-IsCode)
  use_by_name-IsCode bound known in_at moved (some (node (int s) p)) = code-IsCode none in_at none
  use_by_name-IsCode bound known in_at moved (some (node (float s) p)) = code-IsCode none in_at none
  use_by_name-IsCode bound known in_at moved (some (node (str s) p)) = code-IsCode none in_at none
  use_by_name-IsCode bound known in_at moved (some (node (bind s) p)) = code-IsCode none in_at none
  use_by_name-IsCode bound known in_at moved (some (node (move s) p)) = code-IsCode none in_at none
  use_by_name-IsCode bound known in_at moved (some (node (cap s) p)) = code-IsCode none in_at none
  use_by_name-IsCode bound known in_at moved (some (node (op s) p)) = code-IsCode none in_at none
  use_by_name-IsCode bound known in_at moved (some (node (blk s) p)) = code-IsCode none in_at none

  pub use_of-arms :
      (bound : TextSet) (before : List (Node F)) (rest : Nodes F) (known : Option TextSet)
      (in_at : Bool) (moved : TextSet)
      → is_op (ahead 1 rest) (text "??") ≡ true
      → (q : Bool) × (use_of bound before rest known in_at moved ≡ arms q)
  unfolding use_of
  use_of-arms bound before rest known in_at moved e =
      ((is_word bound (back 1 before) (text "ty") && is_blk (back 2 before)), rw e refl)

  pub use_of-IsCode :
      (bound : TextSet) (before : List (Node F)) (rest : Nodes F) (known : Option TextSet)
      (in_at : Bool) (moved : TextSet)
      → is_op (ahead 1 rest) (text "??") ≡ false
      → IsCode (use_of bound before rest known in_at moved)
  unfolding use_of
  use_of-IsCode bound before rest known in_at moved e =
      rw e
        (else-IsCode (arms false) _ (search (if-IsCode, code-IsCode, use_by_name-IsCode) depth 12))
