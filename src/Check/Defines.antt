-- ===== src/Check/Defines.antt =====
-- The words that a program defines with `wd`, and inclusion of sets of words.
use zown.Prelude.{
  Bool, Bool-cases, inl, inr, true, false, not, ◌&&◌, ◌||◌, [], ◌∷◌, ◌++◌, Option, none, some, Text,
  text, text_eq, text_eq→eq, if◌then◌else◌, ◌≡◌, refl, sym, ap, ◌∙◌,
}
use zown.Syntax.{Node, NodeKind, Nodes, node, nil, cons, name, blk}
use zown.Check.Sets.{TextSet, contains, insert, contains-insert}
use zown.Check.State.{str_at}
use zown.Check.Words.{wd_name}

abbrev pub Sub : TextSet → TextSet → Type 0
Sub vs ws = (w : Text) → contains vs w ≡ true → contains ws w ≡ true

contains-append :
    (us vs : TextSet) (w : Text) → contains (us ++ vs) w ≡ (contains us w || contains vs w)
unfolding contains
contains-append [] vs w = refl
contains-append (u ∷ us) vs w =
    elim (text_eq u w)
      as (λ b. (b || contains (us ++ vs) w) ≡ ((b || contains us w) || contains vs w)) [
        | true ↦ refl
        | false ↦ contains-append us vs w
      ]

or_true_left : (a b : Bool) → a ≡ true → (a || b) ≡ true
or_true_left true b h = refl
or_true_left false b h = cc

or_true_right : (a b : Bool) → b ≡ true → (a || b) ≡ true
or_true_right true b h = refl
or_true_right false b h = h

pub Sub-append_left : (us vs ws : TextSet) → Sub (us ++ vs) ws → Sub us ws
Sub-append_left us vs ws h w m =
    h w (contains-append us vs w ∙ or_true_left (contains us w) (contains vs w) m)

pub Sub-append_right : (us vs ws : TextSet) → Sub (us ++ vs) ws → Sub vs ws
Sub-append_right us vs ws h w m =
    h w (contains-append us vs w ∙ or_true_right (contains us w) (contains vs w) m)

-- the words of a set and those before
pub Sub-left : (us vs : TextSet) → Sub us (us ++ vs)
Sub-left us vs w m = contains-append us vs w ∙ or_true_left (contains us w) (contains vs w) m

pub Sub-right : (us vs ws : TextSet) → Sub ws vs → Sub ws (us ++ vs)
Sub-right us vs ws h w m =
    contains-append us vs w ∙ or_true_right (contains us w) (contains vs w) (h w m)

pub Sub-insert :
    (v : Text) (us ws : TextSet) → contains ws v ≡ true → Sub us ws → Sub (insert v us) ws
Sub-insert v us ws m h w e = elim (Bool-cases (text_eq v w)) [
  | inl s ↦ rw⁻¹ (text_eq→eq v w s) m
  | inr n ↦ h w (ap (λ b. b || contains us w) (sym n) ∙ sym (contains-insert v us w) ∙ e)
]

-- `wd` with the text before it, where `wd` is not `bound` and the text can be a name
abbrev pub defined_here : (Text → Bool) → Option Text → Text → TextSet
defined_here bound none w = []
defined_here bound (some word) w =
    if text_eq w (text "wd") && not (bound w) && wd_name word then word ∷ [] else []

module _ {F : Type 0} where
  unfoldable mutual
    pub wd_words : (Text → Bool) → Option Text → Nodes F → TextSet
    wd_words bound prev nil = []
    wd_words bound prev (cons n ns) =
        wd_words_of bound prev n ++ wd_words bound (str_at (some n)) ns

    pub wd_words_of : (Text → Bool) → Option Text → Node F → TextSet
    wd_words_of bound prev (node k p) = wd_words_of_kind bound prev k

    pub wd_words_of_kind : (Text → Bool) → Option Text → NodeKind F → TextSet
    wd_words_of_kind bound prev (name s) = defined_here bound prev s
    wd_words_of_kind bound prev (blk ns) = wd_words bound none ns
    wd_words_of_kind bound prev _ = []
