-- ===== src/Check/Sets.antt =====
-- The sets of words that the checker keeps: `BTreeSet<String>` as a list in order.
use zown.Prelude.{
  Bool, true, false, ◌&&◌, ◌||◌, List, [], ◌∷◌, Text, text_eq, text_eq→eq, ltb, ◌==◌, if◌then◌else◌,
  Bool-cases, inl, inr, ◌≡◌, refl,
}

abbrev pub TextSet : Type 0
TextSet = List Text

unfoldable pub text_lt : Text → Text → Bool
text_lt [] [] = false
text_lt [] (b ∷ more) = true
text_lt (a ∷ rest) [] = false
text_lt (a ∷ rest) (b ∷ more) = ltb a b || a == b && text_lt rest more

unfoldable pub contains : TextSet → Text → Bool
contains [] w = false
contains (v ∷ vs) w = text_eq v w || contains vs w

unfoldable pub insert : Text → TextSet → TextSet
insert w [] = w ∷ []
insert w (v ∷ vs) =
    let rest = insert w vs in
    if text_eq v w then v ∷ vs else if text_lt w v then w ∷ v ∷ vs else v ∷ rest

unfoldable pub remove : Text → TextSet → TextSet
remove w [] = []
remove w (v ∷ vs) = let rest = remove w vs in if text_eq v w then rest else v ∷ rest

or_again : (a b : Bool) → (a || b) ≡ (a || (a || b))
or_again true b = refl
or_again false b = refl

or_swap : (a b c : Bool) → (a || (b || c)) ≡ (b || (a || c))
or_swap true true c = refl
or_swap true false c = refl
or_swap false b c = refl

pub contains-insert :
    (w : Text) (vs : TextSet) (u : Text) → contains (insert w vs) u ≡ (text_eq w u || contains vs u)
unfolding contains insert
contains-insert w [] u = refl
contains-insert w (v ∷ vs) u = elim (Bool-cases (text_eq v w)) [
  | inl e ↦ let same = text_eq→eq v w e in rw (e, same) (or_again (text_eq w u) (contains vs u))
  | inr n ↦ rw n (elim (Bool-cases (text_lt w v)) [
    | inl l ↦ rw l refl
    | inr g ↦ rw (g, contains-insert w vs u) (or_swap (text_eq v u) (text_eq w u) (contains vs u))
  ])
]
