-- ===== src/Lexer/Found.antt =====
-- What each `read_*` takes off the source is a token that is spelled as it stands there.
use zown.Prelude.{
  ◌&&◌, ◌||◌, ltb, ltb→lt, ◌^◌, ℕ, ◌-◌, ◌≡◌, refl, sym, ap, ◌∙◌, Bool, true, false, [], ◌∷◌, ◌++◌,
  append_assoc, Option, none, some, arith, Text, length, length-append, ◌==◌, if◌then◌else◌,
}
use zown.Prelude.Int.{pos as pos_int}
use zown.Prelude.Outcome.{ok, ◌>>=◌}
use zown.Syntax.{Token, TokenKind, int, float, str, ident, bind, move, cap, op}
use mathlib.Core.Path.{subst}
use zown.Lexer.State.{
  LexMsg, expected_bind_name, expected_lane_name, Lexer, advance, skip_while, slice, is_digit,
  is_ident_start, is_ident_cont, contains_char, contains_text, one_char_ops, two_char_ops,
}
use zown.Lexer.Read.{
  Reads, token_at, name_or, decimal, decimal_point, fraction_end, read_string, read_bind,
  read_named, read_lane, read_ident, int_token, read_number, one_char_op, read_op,
}
use zown.Lexer.Cursor.{cursor, advance-cursor, run, behind, run-append-behind, skip_while-cursor}
use zown.Lexer.Spelling.{
  is_name, is_number, is_lane, is_op, is_one_char_op, unquote, Spells, spelled,
}
use zown.Lexer.Took.{
  Took, took, fault, Took-if, Took-behind, eq_of_test, string_loop-Took, all-run, slice-took,
  skip_while-Took, name_start, name_or-Took,
}

is_op-lane : (c : ℕ) (s : Text) → c ≡ b'~' → is_name s ≡ true → is_op (c ∷ s) ≡ true
unfolding contains_text
is_op-lane c s e n = subst (λ k. is_op (k ∷ s) ≡ true) (sym e) (lane s n)
  where
    lane : (s : Text) → is_name s ≡ true → is_op (b'~' ∷ s) ≡ true
    lane s n = ground arith

&&-eq-true : (p q : Bool) → p && q ≡ true → (p ≡ true) × (q ≡ true)
&&-eq-true p q h = ground arith

||-eq_right : (p q : Bool) → q ≡ true → p || q ≡ true
||-eq_right p q h = ground arith

op_of_char :
    (c : ℕ)
    → contains_char one_char_ops c ≡ true
    → (is_one_char_op (c ∷ []) || is_lane (c ∷ [])) ≡ true
op_of_char c e = rw e

digits_number : (d : ℕ) (ds : Text) → is_digit d ≡ true → is_number (run is_digit (d ∷ ds)) ≡ true
digits_number d ds e = rw e (rw (e, all-run is_digit ds))

module _ {F : Type 0} (parse_f64 : Text → F) where
  -- a token that `x` spells behind `b`
  abbrev pub Found : Text → Text → Token F → Type 0
  Found b x t = (k : TokenKind F) × (t ≡ spelled k b x) × Spells parse_f64 x k

  pub token_at-spelled :
      (k : TokenKind F) (b rest x r : Text) (l : Lexer)
      → l ≡ cursor (b ++ x) r
      → token_at k (cursor b rest) l ≡ spelled k b x
  token_at-spelled k b rest x r l h =
      let n : length (b ++ x) - length b ≡ length x = omega (arith, length-append b x) in
      rw h (rw n)

  -- The end of each reader: the value read becomes a token from the start to the cursor.
  pub token-Took :
      {A : Type 0} {P : Text → A → Type 0} {b rest : Text} {m : Reads A}
      (kind : A → Lexer → TokenKind F)
      → ((x : Text) (a : A) (l : Lexer)
          → slice (cursor b rest) l ≡ x
          → P x a
          → Spells parse_f64 x (kind a l))
      → Took P b rest m
      → Took (Found b) b rest (m >>= λ (a, l). ok (token_at (kind a l) (cursor b rest) l, l))
  token-Took {b = b} {rest = rest} kind k (took {a} {l} x r e h p) =
      took x r e h
        (kind a l, token_at-spelled _ b rest x r l h, k x a l (slice-took b rest x r l e h) p)
  token-Took kind k fault = fault

  -- the name behind the sigil `c`
  pub sigil-Took :
      (kind : Text → Lexer → TokenKind F) (m : LexMsg) (c : ℕ) (cs b : Text)
      → ((s : Text) (l : Lexer)
          → slice (cursor b (c ∷ cs)) l ≡ c ∷ s
          → is_name s ≡ true
          → Spells parse_f64 (c ∷ s) (kind s l))
      → Took (Found b) b (c ∷ cs) (
          name_or m cs (advance c cs (cursor b (c ∷ cs))) >>= λ (a, l).
          ok (token_at (kind a l) (cursor b (c ∷ cs)) l, l))
  sigil-Took kind m c cs b k = rw (advance-cursor c cs b) (
      token-Took kind (λ x s l e (p, q). rw p (k s l (e ∙ p) q))
        (Took-behind {Q = λ x s. (x ≡ c ∷ s) × (is_name s ≡ true)} (c ∷ [])
          (λ x s (p, q). (ap (λ t. c ∷ t) p, rw (← p) q)) (name_or-Took m cs (b ++ c ∷ []))))

  pub read_string-Took :
      (c : ℕ) (cs b : Text)
      → c ≡ b'$'
      → Took (Found b) b (c ∷ cs) (read_string c cs (cursor b (c ∷ cs)))
  unfolding read_string
  read_string-Took c cs b e = rw (advance-cursor c cs b) (
      token-Took (λ s _. str s) (λ x s l _ (raw, p, q). (raw, rw p (rw e), q))
        (Took-behind
          {Q = λ x s. (raw : Text) × (x ≡ c ∷ (raw ++ b'$' ∷ [])) × (unquote raw ≡ some s)} (c ∷ [])
          (λ x s (raw, t, p, q, r). (raw, ap (λ y. c ∷ y) p, rw r q))
          (string_loop-Took cs [] (b ++ c ∷ []))))

  pub read_bind-Took :
      (c : ℕ) (cs b : Text)
      → c ≡ b':'
      → Took (Found b) b (c ∷ cs) (read_bind c cs (cursor b (c ∷ cs)))
  unfolding read_bind
  read_bind-Took c cs b e =
      sigil-Took (λ s _. bind s) expected_bind_name c cs b (λ s l _ n. (rw e, n))

  pub read_move-Took :
      (c : ℕ) (cs b : Text)
      → c ≡ b'\''
      → Took (Found b) b (c ∷ cs) (read_named move c cs (cursor b (c ∷ cs)))
  unfolding read_named
  read_move-Took c cs b e = sigil-Took (λ s _. move s) _ c cs b (λ s l _ n. (rw e, n))

  pub read_cap-Took :
      (c : ℕ) (cs b : Text)
      → c ≡ b'`'
      → Took (Found b) b (c ∷ cs) (read_named cap c cs (cursor b (c ∷ cs)))
  unfolding read_named
  read_cap-Took c cs b e = sigil-Took (λ s _. cap s) _ c cs b (λ s l _ n. (rw e, n))

  pub read_lane-Took :
      (c : ℕ) (cs b : Text)
      → c ≡ b'~'
      → Took (Found b) b (c ∷ cs) (read_lane c cs (cursor b (c ∷ cs)))
  unfolding read_lane
  read_lane-Took c cs b e =
      sigil-Took (λ _ l. op (slice (cursor b (c ∷ cs)) l)) expected_lane_name c cs b
        (λ s l p n. (sym p, rw p (is_op-lane c s e n)))

  pub read_ident-Took :
      (c : ℕ) (cs b : Text)
      → is_ident_start c ≡ true
      → Took (Found b) b (c ∷ cs) (read_ident (cursor b (c ∷ cs)))
  unfolding read_ident
  read_ident-Took c cs b e =
      token-Took (λ s _. ident s)
        (λ x s l _ (p, q). (p, rw (← p, q) (rw (e, all-run is_ident_cont cs))))
        (skip_while-Took is_ident_cont c cs b (name_start c e))

  int_token-Took :
      (b rest x r : Text)
      → rest ≡ x ++ r
      → is_number x ≡ true
      → Took (Found b) b rest (int_token (cursor b rest) (cursor (b ++ x) r))
  unfolding int_token
  int_token-Took b rest x r e n =
      let l = cursor (b ++ x) r in
      rw (slice-took b rest x r l e refl) (
        Took-if (ltb (decimal 0 x) (2 ^ 63))
          (λ h. took x r e refl (
            int (pos_int (decimal 0 x)),
            token_at-spelled _ b rest x r l refl,
            (n, refl, ltb→lt _ _ h),
          ))
          (λ h. fault))

  -- the literal behind the integer part `x`: the point and a fraction
  float-Took :
      (b x r : Text)
      → is_number x ≡ true
      → decimal_point r ≡ true
      → let l = cursor b (x ++ r) in
        let stop = fraction_end r (cursor (b ++ x) r) in
        Took (Found b) b (x ++ r) (ok (token_at (float (parse_f64 (slice l stop))) l stop, stop))
  float-Took b x [] n h = cc
  float-Took b x (c ∷ []) n h = cc
  float-Took b x (c ∷ d ∷ ds) n h =
      let part = run is_digit (d ∷ ds) in
      let more = behind is_digit (d ∷ ds) in
      let l = cursor b (x ++ c ∷ d ∷ ds) in
      let stop = skip_while is_digit (d ∷ ds) (advance c (d ∷ ds) (cursor (b ++ x) (c ∷ d ∷ ds))) in
      let at_stop : stop ≡ cursor (b ++ (x ++ c ∷ part)) more =
        ap (skip_while is_digit (d ∷ ds)) (advance-cursor c (d ∷ ds) (b ++ x))
        ∙ skip_while-cursor is_digit (d ∷ ds) ((b ++ x) ++ c ∷ [])
        ∙ ap (λ t. cursor t more)
            (append_assoc (b ++ x) (c ∷ []) part ∙ append_assoc b x (c ∷ part)) in
      let (dot, digit) = &&-eq-true (c == b'.') (is_digit d) h in
      let split : x ++ c ∷ d ∷ ds ≡ (x ++ c ∷ part) ++ more = sym (
        append_assoc x (c ∷ part) more
        ∙ ap (λ t. x ++ c ∷ t) (run-append-behind is_digit (d ∷ ds))) in
      let read = slice-took b (x ++ c ∷ d ∷ ds) (x ++ c ∷ part) more stop split at_stop in
      took (x ++ c ∷ part) more split at_stop (
        float (parse_f64 (slice l stop)),
        token_at-spelled _ b (x ++ c ∷ d ∷ ds) (x ++ c ∷ part) more stop at_stop,
        (
          x,
          part,
          ap (λ k. x ++ k ∷ part) (eq_of_test c b'.' dot),
          n,
          digits_number d ds digit,
          ap parse_f64 read,
        ),
      )

  pub read_number-Took :
      (c : ℕ) (cs b : Text)
      → is_digit c ≡ true
      → Took (Found b) b (c ∷ cs) (read_number parse_f64 (cursor b (c ∷ cs)))
  unfolding read_number
  read_number-Took c cs b e =
      let x = run is_digit (c ∷ cs) in
      let r = behind is_digit (c ∷ cs) in
      let split : c ∷ cs ≡ x ++ r = sym (run-append-behind is_digit (c ∷ cs)) in
      rw (skip_while-cursor is_digit (c ∷ cs) b) (
        Took-if (decimal_point r)
          (λ h.
            subst
              (λ t.
                let stop = fraction_end r (cursor (b ++ x) r) in
                Took (Found b) b t (
                  ok (
                    token_at (float (parse_f64 (slice (cursor b t) stop))) (cursor b t) stop,
                    stop,
                  )))
              (sym split) (float-Took b x r (digits_number c cs e) h))
          (λ h. int_token-Took b (c ∷ cs) x r split (digits_number c cs e)))

  -- `read_op` at no operator is the error of the round.
  pub data TookOp (b rest : Text) : Option (Token F × Lexer) → Type 0 where
    found :
        {t : Token F} {l : Lexer} (x r : Text)
        → rest ≡ x ++ r
        → l ≡ cursor (b ++ x) r
        → Found b x t
        → TookOp b rest (some (t, l))
    nothing : TookOp b rest none

  TookOp-if :
      {b rest : Text} (t : Bool) {m n : Option (Token F × Lexer)}
      → (t ≡ true → TookOp b rest m)
      → (t ≡ false → TookOp b rest n)
      → TookOp b rest (if t then m else n)
  TookOp-if true h k = h refl
  TookOp-if false h k = k refl

  one_char_op-TookOp :
      (c : ℕ) (cs b : Text) → TookOp b (c ∷ cs) (one_char_op c cs (cursor b (c ∷ cs)))
  unfolding one_char_op
  one_char_op-TookOp c cs b =
      TookOp-if (contains_char one_char_ops c)
        (λ e.
          let stop = advance-cursor c cs b in
          found (c ∷ []) cs refl stop (
            op (c ∷ []),
            token_at-spelled _ b (c ∷ cs) (c ∷ []) cs _ stop,
            (refl, ||-eq_right (contains_text two_char_ops (c ∷ [])) _ (op_of_char c e)),
          ))
        (λ e. nothing)

  pub read_op-TookOp : (c : ℕ) (cs b : Text) → TookOp b (c ∷ cs) (read_op c cs (cursor b (c ∷ cs)))
  unfolding read_op
  read_op-TookOp c [] b = one_char_op-TookOp c [] b
  read_op-TookOp c (d ∷ ds) b =
      TookOp-if (contains_text two_char_ops (c ∷ d ∷ []))
        (λ e.
          let stop =
            ap (advance d ds) (advance-cursor c (d ∷ ds) b)
            ∙ advance-cursor d ds (b ++ c ∷ [])
            ∙ ap (λ t. cursor t ds) (append_assoc b (c ∷ []) (d ∷ [])) in
          found (c ∷ d ∷ []) ds refl stop (
            op (c ∷ d ∷ []),
            token_at-spelled _ b (c ∷ d ∷ ds) (c ∷ d ∷ []) ds _ stop,
            (refl, rw e),
          ))
        (λ e. one_char_op-TookOp c (d ∷ ds) b)
