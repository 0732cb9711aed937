-- ===== src/Check/Frame.antt =====
-- The walk only adds findings and defined words.
use zown.Prelude.{
  ℕ, Bool, true, false, not, ◌&&◌, ◌||◌, List, [], ◌∷◌, ◌++◌, Option, none, some, Text, text,
  text_eq, text_eq_self, if◌then◌else◌, ◌==◌, ◌%◌, ◌≡◌, refl, sym, ap, ◌∙◌, append_assoc,
  append-nil, Bool-cases, inl, inr,
}
use zown.Syntax.{
  Pos, Node, NodeKind, Nodes, node, nil, cons, int, float, str, name, bind, move, cap, op, blk,
}
use zown.Check.Sets.{TextSet, contains, insert}
use zown.Check.Defines.{Sub, Sub-insert, defined_here}
use zown.Check.Words.{wd_name, net_cap, host_cap, pattern_types, res_patterns}
use zown.Check.State.{Code, Msg, Diag, Checker, diag, back, str_at, check_require}
use zown.Check.Visit.{
  Use, arms, code, check_covered, after_arms, require_if, resolve, define, visit_name, visit_move,
  visit_cap, visit_op, require_net, compare_protocol, by_use, check_protocol, check_pattern,
  check_pattern_kind, or_empty,
}

-- From `c` to `e`: findings are added at the end, and only findings and defined words change.
pub record Extends (bs ws : TextSet) (c e : Checker) : Type 0 where
  pub added : (ds : List Diag) × (e.diags ≡ c.diags ++ ds)
  pub same_bound : e.bound ≡ c.bound
  pub same_grantable : e.grantable ≡ c.grantable
  pub same_uses_at : e.uses_at ≡ c.uses_at
  pub same_offers : e.offers ≡ c.offers
  pub defines : c.bound ≡ bs → Sub c.defined ws → Sub e.defined ws

module _ (bs ws : TextSet) where
  pub Extends-refl : (c : Checker) → Extends bs ws c c
  Extends-refl c = record {
    added = ([], sym (append-nil c.diags));
    same_bound = refl;
    same_grantable = refl;
    same_uses_at = refl;
    same_offers = refl;
    defines = λ same h. h;
  }

  pub Extends-trans : (a b c : Checker) → Extends bs ws a b → Extends bs ws b c → Extends bs ws a c
  Extends-trans a b c f g =
      let (xs, p) = f.added in
      let (ys, q) = g.added in
      record {
        added = (xs ++ ys, q ∙ ap (λ ds. ds ++ ys) p ∙ append_assoc a.diags xs ys);
        same_bound = g.same_bound ∙ f.same_bound;
        same_grantable = g.same_grantable ∙ f.same_grantable;
        same_uses_at = g.same_uses_at ∙ f.same_uses_at;
        same_offers = g.same_offers ∙ f.same_offers;
        defines = λ same h. g.defines (f.same_bound ∙ same) (f.defines same h);
      }

  pub if-Extends :
      (b : Bool) (c e f : Checker)
      → Extends bs ws c e
      → Extends bs ws c f
      → Extends bs ws c (if b then e else f)
  if-Extends true c e f h k = h
  if-Extends false c e f h k = k

  -- the same for outcomes with a label
  if-Extends₀ {ℓ} :
      {A : Type ℓ} (b : Bool) (c : Checker) (e f : Checker × A)
      → Extends bs ws c e.0
      → Extends bs ws c f.0
      → Extends bs ws c (if b then e else f).0
  if-Extends₀ true c e f h k = h
  if-Extends₀ false c e f h k = k

  pub diag-Extends :
      (k : Code) (m : Msg) (p : Pos) (w a : Option Text) (h : Text) (c : Checker)
      → Extends bs ws c (diag k m p w a h c)
  unfolding diag
  diag-Extends k m p w a h c = record {
    added = (_, refl);
    same_bound = refl;
    same_grantable = refl;
    same_uses_at = refl;
    same_offers = refl;
    defines = λ same h. h;
  }

  pub check_require-Extends :
      (a : Text) (p : Pos) (known : Option TextSet) (w : Text) (c : Checker)
      → Extends bs ws c (check_require a p known w c)
  unfolding check_require
  check_require-Extends a p known w c = search (if-Extends, diag-Extends, Extends-refl)

  pub resolve-Extends :
      (p : Pos) (in_at : Bool) (moved : TextSet) (w : Text) (c : Checker)
      → Extends bs ws c (resolve p in_at moved w c)
  unfolding resolve
  resolve-Extends p in_at moved w c = search (if-Extends, diag-Extends, Extends-refl)

  set_defined-Extends :
      (c : Checker) (w : Text)
      → (c.bound ≡ bs → contains ws w ≡ true)
      → Extends bs ws c (record c { defined = insert w c.defined })
  set_defined-Extends c w m = record {
    added = ([], sym (append-nil c.diags));
    same_bound = refl;
    same_grantable = refl;
    same_uses_at = refl;
    same_offers = refl;
    defines = λ same h. Sub-insert w c.defined ws (m same) h;
  }

  ruleset steps = (if-Extends, diag-Extends, Extends-refl, check_require-Extends)

  pub define-Extends :
      (w : Text) (prev : Option Text) (c : Checker)
      → Sub (defined_here (contains bs) prev w) ws
      → Extends bs ws c (define w prev c)
  unfolding define contains
  define-Extends w none c h = Extends-refl c
  define-Extends w (some word) c h =
      let in_words : (text_eq w (text "wd") && not (contains c.bound w) && wd_name word) ≡ true
          → c.bound ≡ bs
          → contains ws word ≡ true =
        λ e same. h word (
          ap
            (λ s.
              contains
                (if text_eq w (text "wd") && not (contains s w) && wd_name word
                  then word ∷ []
                  else [])
                word)
            (sym same)
          ∙ ap (λ b. contains (if b then word ∷ [] else []) word) e
          ∙ ap (λ b. b || false) (text_eq_self word)) in
      elim (Bool-cases (text_eq w (text "wd") && not (contains c.bound w) && wd_name word)) [
        | inl e ↦ rw e (set_defined-Extends c word (in_words e))
        | inr e ↦ rw e (Extends-refl c)
      ]

  pub require_if-Extends :
      (a : Option Text) (p : Pos) (known : Option TextSet) (w : Text) (c : Checker)
      → Extends bs ws c (require_if a p known w c)
  require_if-Extends none p known w c = Extends-refl c
  require_if-Extends (some a) p known w c = check_require-Extends a p known w c

  pub visit_move-Extends :
      (p : Pos) (in_at : Bool) (moved : TextSet) (w : Text) (c : Checker)
      → Extends bs ws c (visit_move p in_at moved w c)
  unfolding visit_move
  visit_move-Extends p in_at moved w c = search steps

  require_net-Extends :
      (a : Option Text) (p : Pos) (known : Option TextSet) (w : Text) (c : Checker)
      → Extends bs ws c (require_net a p known w c)
  require_net-Extends (some a) p known w c = check_require-Extends a p known w c
  require_net-Extends none p known w c =
      if-Extends (text_eq w (text "~w")) c _ c
        (Extends-trans c _ _ (check_require-Extends (text "r") p known w c)
          (check_require-Extends (text "t") p known w _))
        (Extends-refl c)

  compare_protocol-Extends :
      (p : Pos) (w proto : Text) (o : Option TextSet) (c : Checker)
      → Extends bs ws c (compare_protocol p w proto o c)
  compare_protocol-Extends p w proto none c = Extends-refl c
  compare_protocol-Extends p w proto (some protos) c = search steps

  check_protocol-Extends :
      (p : Pos) (w proto : Option Text) (c : Checker) → Extends bs ws c (check_protocol p w proto c)
  check_protocol-Extends p none proto c = Extends-refl c
  check_protocol-Extends p (some w) none c = Extends-refl c
  check_protocol-Extends p (some w) (some proto) c = compare_protocol-Extends p w proto _ c

  pub by_use-Extends :
      (u : Use) (f : Bool → Checker) (g : Option TextSet → Bool → TextSet → Checker) (c : Checker)
      → ((b : Bool) → Extends bs ws c (f b))
      → ((inner : Option TextSet) (in_at : Bool) (moved : TextSet)
          → Extends bs ws c (g inner in_at moved))
      → Extends bs ws c (by_use u f g)
  by_use-Extends (arms b) f g c h k = h b
  by_use-Extends (code inner in_at inherit) f g c h k = k inner in_at (or_empty inherit)

  pub check_covered-Extends :
      (p : Pos) (b : Bool) (seen : TextSet) (c : Checker)
      → Extends bs ws c (check_covered b p seen c)
  unfolding check_covered
  check_covered-Extends p b seen c = search steps

  pub after_arms-Extends :
      (p : Pos) (b : Bool) (n : ℕ) (c e : Checker) (seen : TextSet)
      → Extends bs ws c e
      → Extends bs ws c (after_arms p b n c (e, seen))
  unfolding after_arms
  after_arms-Extends p b n c e seen h =
      if-Extends (n % 2 == 0) c _ _ (Extends-trans c e _ h (check_covered-Extends p b seen e))
        (search steps)

  module _ {F : Type 0} where
    pub visit_name-Extends :
        (p : Pos) (known : Option TextSet) (in_at : Bool) (moved : TextSet) (prev : Option (Node F))
        (w : Text) (c : Checker)
        → Sub (defined_here (contains bs) (str_at prev) w) ws
        → Extends bs ws c (visit_name p known in_at moved prev w c)
    unfolding visit_name
    visit_name-Extends p known in_at moved prev w c d_in =
        let d = define w (str_at prev) c in
        let r = resolve p in_at moved w d in
        let h =
          Extends-trans c d r (define-Extends w (str_at prev) c d_in)
            (resolve-Extends p in_at moved w d) in
        if-Extends _ c (require_if (host_cap w) p known w r) r
          (Extends-trans c r _ h (require_if-Extends (host_cap w) p known w r)) h

    pub visit_cap-Extends :
        (p : Pos) (known : Option TextSet) (in_at : Bool) (next : Option (Node F)) (a : Text)
        (c : Checker)
        → Extends bs ws c (visit_cap p known in_at next a c)
    unfolding visit_cap
    visit_cap-Extends p known in_at next a c = search steps

    pub visit_op-Extends :
        (p : Pos) (known : Option TextSet) (in_at : Bool) (before : List (Node F)) (w : Text)
        (c : Checker)
        → Extends bs ws c (visit_op p known in_at before w c)
    unfolding visit_op
    visit_op-Extends p known in_at before w c =
        let d = if not in_at then require_net (net_cap w) p known w c else c in
        let h =
          if-Extends (not in_at) c (require_net (net_cap w) p known w c) c
            (require_net-Extends (net_cap w) p known w c) (Extends-refl c) in
        if-Extends (text_eq w (text "~c")) c
          (check_protocol p (str_at (back 2 before)) (str_at (back 1 before)) d) d
          (Extends-trans c d _ h (check_protocol-Extends p _ _ d)) h

    check_pattern_kind-Extends :
        (p : Pos) (k : NodeKind F) (c : Checker) → Extends bs ws c (check_pattern_kind p k c).0
    check_pattern_kind-Extends p (name s) c =
        if-Extends₀ (text_eq s (text "any")) c _ _ (Extends-refl c) (
          if-Extends₀ (contains pattern_types s || contains res_patterns s) c _ _ (Extends-refl c)
            (search steps))
    check_pattern_kind-Extends p (int v) c = Extends-refl c
    check_pattern_kind-Extends p (float v) c = Extends-refl c
    check_pattern_kind-Extends p (str s) c = Extends-refl c
    check_pattern_kind-Extends p (op s) c = search steps
    check_pattern_kind-Extends p (cap s) c = search steps
    check_pattern_kind-Extends p (bind s) c = search steps
    check_pattern_kind-Extends p (move s) c = search steps
    check_pattern_kind-Extends p (blk ns) c = search steps

    pub check_pattern-Extends :
        (p : Pos) (ns : Nodes F) (c : Checker) → Extends bs ws c (check_pattern p ns c).0
    unfolding check_pattern
    check_pattern-Extends p nil c = search steps
    check_pattern-Extends p (cons (node k q) nil) c = check_pattern_kind-Extends p k c
    check_pattern-Extends p (cons n (cons m ns)) c = search steps
