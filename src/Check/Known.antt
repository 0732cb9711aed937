-- ===== src/Check/Known.antt =====
-- The names that run in a program and are known where they stand.
use zown.Prelude.{
  ℕ, Bool, true, false, not, ◌&&◌, ◌||◌, [], ◌++◌, Option, none, some, Text, text, ◌==◌, ◌%◌, ◌≡◌,
  refl, sym, ap, ◌∙◌, Bool-cases, inl, inr,
}
use zown.Syntax.{Pos, Node, NodeKind, Nodes, node, nil, cons, name, move, blk}
use zown.Check.Sets.{TextSet, contains}
use zown.Check.Words.{is_builtin, host_cap}
use zown.Check.State.{Checker, ahead, is_op, str_at}
use zown.Check.Visit.{after_arms, resolve, define, visit_name, visit_move}
use zown.Check.Defines.{Sub, Sub-left, Sub-right, defined_here, wd_words_of}
use zown.Check.Frame.{
  if-Extends, define-Extends, require_if-Extends, check_covered-Extends, Extends-refl,
}
use zown.Check.Uses.{IsClean, diag-not_IsClean, IsClean-before}
use zown.Check.Binds.{binds}

-- A word that is bound, a builtin, or one of `words`.
abbrev pub is_known : (Text → Bool) → TextSet → Text → Bool
is_known bound words w = bound w || is_builtin w || contains words w

module _ {F : Type 0} where
  -- Behind the text `prev`, with the words `ds` defined so far: each name that runs is known where it
  -- stands, and each name moved out is bound. Of a block behind which `??` stands the bodies run;
  -- its patterns are read.
  unfoldable mutual
    pub NamesIn : (Text → Bool) → Option Text → TextSet → Nodes F → Type 0
    NamesIn bound prev ds nil = Unit
    NamesIn bound prev ds (cons n ns) =
        NamesOf bound (is_op (ahead 1 ns) (text "??")) prev ds n
        × NamesIn bound (str_at (some n)) (wd_words_of bound prev n ++ ds) ns

    pub NamesOf : (Text → Bool) → Bool → Option Text → TextSet → Node F → Type 0
    NamesOf bound matched prev ds (node k p) = NamesOfKind bound matched prev ds k

    pub NamesOfKind : (Text → Bool) → Bool → Option Text → TextSet → NodeKind F → Type 0
    NamesOfKind bound matched prev ds (name s) =
        is_known bound (defined_here bound prev s ++ ds) s ≡ true
    NamesOfKind bound matched prev ds (move s) = bound s ≡ true
    NamesOfKind bound true prev ds (blk ns) = NamesInBodies bound ds ns
    NamesOfKind bound false prev ds (blk ns) = NamesIn bound none ds ns
    NamesOfKind bound matched prev ds _ = Unit

    pub NamesInBodies : (Text → Bool) → TextSet → Nodes F → Type 0
    NamesInBodies bound ds nil = Unit
    NamesInBodies bound ds (cons pat nil) = Unit
    NamesInBodies bound ds (cons pat (cons body rest)) =
        NamesOf bound false (str_at (some pat)) ds body
        × NamesInBodies bound (wd_words_of bound (str_at (some pat)) body ++ ds) rest

unknown_split :
    (x y z z₁ : Bool)
    → (z ≡ true → z₁ ≡ true)
    → (not x && not y && not z) ≡ false
    → (x || y || z₁) ≡ true
unknown_split true y z z₁ h e = refl
unknown_split false true z z₁ h e = refl
unknown_split false false true z₁ h e = h refl
unknown_split false false false z₁ h e = cc

module _ (b : TextSet) where
  abbrev Known : TextSet → Text → Type 0
  Known ds w = is_known (contains b) ds w ≡ true

  abbrev Bound : Text → Type 0
  Bound w = contains b w ≡ true

  resolve-Known :
      (p : Pos) (in_at : Bool) (moved : TextSet) (w : Text) (ds : TextSet) (c : Checker)
      → c.bound ≡ b
      → Sub c.defined ds
      → IsClean (resolve p in_at moved w c)
      → Known ds w
  unfolding resolve
  resolve-Known p in_at moved w ds c same h clean =
      elim (Bool-cases
        (not (contains c.bound w) && not (is_builtin w) && not (contains c.defined w))) [
          | inl e ↦ absurd (diag-not_IsClean _ _ _ _ _ _ _ (rw e at clean))
          | inr e ↦
              ap (λ s. contains s w || is_builtin w || contains ds w) (sym same)
              ∙ unknown_split (contains c.bound w) (is_builtin w) (contains c.defined w) _ (h w) e
        ]

  pub visit_move-Bound :
      (p : Pos) (in_at : Bool) (moved : TextSet) (w : Text) (c : Checker)
      → c.bound ≡ b
      → IsClean (visit_move p in_at moved w c)
      → Bound w
  unfolding visit_move
  visit_move-Bound p in_at moved w c same clean = elim (Bool-cases (contains c.bound w)) [
    | inl e ↦ ap (λ s. contains s w) (sym same) ∙ e
    | inr e ↦ absurd (diag-not_IsClean _ _ _ _ _ _ _ (rw e at clean))
  ]

  pub after_arms-IsClean :
      (p : Pos) (q : Bool) (n : ℕ) (c e : Checker) (seen : TextSet)
      → IsClean (after_arms p q n c (e, seen))
      → IsClean e
  unfolding after_arms
  after_arms-IsClean p q n c e seen clean = elim (Bool-cases (n % 2 == 0)) [
    | inl t ↦ IsClean-before b [] e _ (check_covered-Extends b [] p q seen e) (rw t at clean)
    | inr t ↦ absurd (diag-not_IsClean _ _ _ _ _ _ _ (rw t at clean))
  ]

  module _ {F : Type 0} where
    pub visit_name-Known :
        (p : Pos) (known : Option TextSet) (in_at : Bool) (moved : TextSet) (prev : Option (Node F))
        (w : Text) (ds : TextSet) (c : Checker)
        → c.bound ≡ b
        → Sub c.defined ds
        → IsClean (visit_name p known in_at moved prev w c)
        → Known (defined_here (contains b) (str_at prev) w ++ ds) w
    unfolding visit_name
    visit_name-Known p known in_at moved prev w ds c same h clean =
        let here = defined_here (contains b) (str_at prev) w in
        let ws = here ++ ds in
        let d = define w (str_at prev) c in
        let f = define-Extends b ws w (str_at prev) c (Sub-left here ds) in
        let r = resolve p in_at moved w d in
        resolve-Known p in_at moved w ws d (f.same_bound ∙ same)
          (f.defines same (Sub-right here ds c.defined h))
          (IsClean-before b ws r _
            (if-Extends b ws (not (contains r.bound w) && not in_at) r _ r
              (require_if-Extends b ws (host_cap w) p known w r) (Extends-refl b ws r))
            clean)

module _ {F : Type 0} where
  -- Each name that runs is bound in the program, a builtin, or a word that `wd` defines before it;
  -- each name moved out is bound.
  abbrev pub NamesOk : Nodes F → Type 0
  NamesOk ns = NamesIn (binds ns) none [] ns
