-- ===== src/Lexer/Sound.antt =====
-- `lex` on any source: it ends, and what it accepts is covered by gaps and tokens that are spelled
-- as they stand.
use zown.Prelude.{
  ℕ, zero, suc, ◌-◌, ◌≤◌, ◌<◌, ◌≡◌, ◌⊎◌, refl, sym, ap, ◌∙◌, inl, inr, false, List, [], ◌∷◌, ◌++◌,
  append_assoc, append-nil, Option, arith, Text, length, length-append, ◌==◌,
}
use zown.Prelude.Outcome.{ok, ◌>>=◌}
use zown.Syntax.{Token, TokenKind, int, float, str, ident, bind, move, cap, op, lbrack, rbrack, eof}
use zown.Lexer.State.{
  Lexer, advance, skip_while, is_digit, is_ident_start, is_space, contains_char, contains_text,
}
use zown.Lexer.Read.{Reads}
use zown.Lexer.Cursor.{
  cursor, advance-cursor, new-cursor, run, behind, run-append-behind, skip_while-cursor,
}
use zown.Lexer.Spelling.{Spells, IsGap, spelled, Tokenizes, end, gap, token}
use zown.Lexer.Took.{Took, took, fault, Took-if, eq_of_test}
use zown.Prelude.Outcome.{Ends, value, error, Ends-map}
use zown.Lexer.Loop.{round, one_token, bracket, op_or_error, not_newline, tokens_loop, tokens, lex}
use zown.Lexer.Found.{
  Found, token_at-spelled, read_string-Took, read_bind-Took, read_move-Took, read_cap-Took,
  read_lane-Took, read_ident-Took, read_number-Took, TookOp, found, nothing, read_op-TookOp,
}

contains-run : (cs : Text) → contains_char (run not_newline cs) b'\n' ≡ false
unfolding contains_char
contains-run [] = refl
contains-run (c ∷ cs) = ground (arith, contains-run cs)

module _ {F : Type 0} (parse_f64 : Text → F) where
  -- a round takes a gap, or the text of one token
  abbrev Round : Text → Text → List (Token F) → Type 0
  Round b x ts = (ts ≡ []) × IsGap x ⊎ ((t : Token F) × (ts ≡ t ∷ []) × Found parse_f64 b x t)

  one_token-Took :
      {b rest : Text} {m : Reads (Token F)}
      → Took (Found parse_f64 b) b rest m
      → Took (Round b) b rest (one_token m)
  one_token-Took (took {a = t} x r e l h) = took x r e l (inr (t, refl, h))
  one_token-Took fault = fault

  bracket-Took :
      (c : ℕ) (cs b : Text) (k : TokenKind F)
      → Spells parse_f64 (c ∷ []) k
      → Took (Round b) b (c ∷ cs) (bracket k (cursor b (c ∷ cs)) (advance c cs (cursor b (c ∷ cs))))
  bracket-Took c cs b k h =
      let stop = advance-cursor c cs b in
      took (c ∷ []) cs refl stop (
        inr (
          spelled k b (c ∷ []),
          ap (λ t. t ∷ []) (token_at-spelled parse_f64 k b (c ∷ cs) (c ∷ []) cs _ stop),
          (k, refl, h),
        ))

  op-Took :
      {b rest : Text} {m : Option (Token F × Lexer)} (c : ℕ) (l : Lexer)
      → TookOp parse_f64 b rest m
      → Took (Round b) b rest (op_or_error c l m)
  op-Took c l (found {t} x r e h p) = took x r e h (inr (t, refl, p))
  op-Took c l nothing = fault

  comment-Took :
      (c : ℕ) (cs b : Text)
      → c ≡ b'#'
      → Took (Round b) b (c ∷ cs) (ok ([], skip_while not_newline (c ∷ cs) (cursor b (c ∷ cs))))
  comment-Took c cs b e =
      let p = not_newline in
      took (run p (c ∷ cs)) (behind p (c ∷ cs)) (sym (run-append-behind p (c ∷ cs)))
        (skip_while-cursor p (c ∷ cs) b) (inl (refl, inr (run p cs, rw e, contains-run cs)))

  round-Took :
      (c : ℕ) (cs b : Text) → Took (Round b) b (c ∷ cs) (round parse_f64 c cs (cursor b (c ∷ cs)))
  unfolding round
  round-Took c cs b =
      Took-if (is_space c)
        (λ e. took (c ∷ []) cs refl (advance-cursor c cs b) (inl (refl, inl (c, refl, e))))
        λ _.
          Took-if (c == b'#') (λ e. comment-Took c cs b (eq_of_test c _ e))
            λ _.
              Took-if (c == b'$')
                (λ e. one_token-Took (read_string-Took parse_f64 c cs b (eq_of_test c _ e)))
                λ _.
                  Took-if (c == b'[') (λ e. bracket-Took c cs b lbrack (rw (eq_of_test c b'[' e)))
                    λ _.
                      Took-if (c == b']')
                        (λ e. bracket-Took c cs b rbrack (rw (eq_of_test c b']' e)))
                        λ _.
                          Took-if (c == b':')
                            (λ e.
                              one_token-Took (read_bind-Took parse_f64 c cs b (eq_of_test c _ e)))
                            λ _.
                              Took-if (c == b'\'')
                                (λ e.
                                  one_token-Took
                                    (read_move-Took parse_f64 c cs b (eq_of_test c _ e)))
                                λ _.
                                  Took-if (c == b'`')
                                    (λ e.
                                      one_token-Took
                                        (read_cap-Took parse_f64 c cs b (eq_of_test c _ e)))
                                    λ _.
                                      Took-if (is_digit c)
                                        (λ e. one_token-Took (read_number-Took parse_f64 c cs b e))
                                        λ _.
                                          Took-if (is_ident_start c)
                                            (λ e.
                                              one_token-Took (read_ident-Took parse_f64 c cs b e))
                                            λ _.
                                              Took-if (c == b'~')
                                                (λ e. one_token-Took (
                                                  read_lane-Took parse_f64 c cs b
                                                    (eq_of_test c _ e)))
                                                λ _.
                                                  op-Took c (cursor b (c ∷ cs))
                                                    (read_op-TookOp parse_f64 c cs b)

  IsGap-pos : (x : Text) → IsGap x → 0 < length x
  IsGap-pos (c ∷ cs) h = omega arith
  IsGap-pos [] (inl (c, e, _)) = cc
  IsGap-pos [] (inr (cs, e, _)) = cc

  Spells-pos : (x : Text) (k : TokenKind F) → Spells parse_f64 x k → 0 < length x
  unfolding contains_text
  Spells-pos (c ∷ cs) k h = omega arith
  Spells-pos [] (int v) h = cc (h.0)
  Spells-pos [] (float v) ([], part, e, _, _, _) = cc
  Spells-pos [] (float v) (c ∷ whole, part, e, _, _, _) = cc
  Spells-pos [] (str s) (raw, e, _) = cc
  Spells-pos [] (ident s) (e, h) = cc (rw (← e) at h)
  Spells-pos [] (bind s) (e, h) = cc
  Spells-pos [] (move s) (e, h) = cc
  Spells-pos [] (cap s) (e, h) = cc
  Spells-pos [] (op s) (e, h) = cc (rw (← e) at h)
  Spells-pos [] lbrack h = cc
  Spells-pos [] rbrack h = cc
  Spells-pos [] eof h = absurd h

  -- the loop ends, and what it adds to `out` covers the rest of the source
  abbrev Covers : Text → Text → List (Token F) → List (Token F) → Type 0
  Covers b rest out ts =
      (more : List (Token F)) × (ts ≡ out ++ more) × Tokenizes parse_f64 b rest more

  tokens_loop-Ends :
      (fuel : ℕ) (rest b : Text) (out : List (Token F))
      → length rest ≤ fuel
      → Ends (Covers b rest out) (tokens_loop parse_f64 fuel rest (cursor b rest) out)
  unfolding tokens_loop
  tokens_loop-Ends fuel [] b out h =
      let n : length b - length b ≡ 0 = omega arith in value (spelled eof b [] ∷ [], rw n, end)
  tokens_loop-Ends zero (c ∷ cs) b out h = absurd (omega arith)
  tokens_loop-Ends (suc fuel) (c ∷ cs) b out h =
      go (round parse_f64 c cs (cursor b (c ∷ cs))) (round-Took c cs b)
        (λ r b' out'. tokens_loop-Ends fuel r b' out')
    where
      go :
          (m : Reads (List (Token F)))
          → Took (Round b) b (c ∷ cs) m
          → ((r b' : Text) (out' : List (Token F))
              → length r ≤ fuel
              → Ends (Covers b' r out') (tokens_loop parse_f64 fuel r (cursor b' r) out'))
          → Ends
              (Covers b (c ∷ cs) out)
              (m >>= λ (ts, l). tokens_loop parse_f64 fuel l.rest l (out ++ ts))
      go _ fault rec = error
      go _ (took {l = l} x r e p (inl (q, g))) rec =
          rw (p, q, append-nil out)
            (Ends-map (λ ts (more, eq, t). (more, eq, gap x e g t))
              (rec r (b ++ x) out (omega (arith, ap length e, length-append x r, IsGap-pos x g))))
      go _ (took {l = l} x r e p (inr (t, q, (k, w, s)))) rec =
          rw (p, q, w)
            (Ends-map
              (λ ts (more, eq, u). (
                spelled k b x ∷ more,
                eq ∙ append_assoc out (spelled k b x ∷ []) more,
                token x k e s u,
              ))
              (rec r (b ++ x) (out ++ spelled k b x ∷ [])
                (omega (arith, ap length e, length-append x r, Spells-pos x k s))))

  -- `lex` ends on every source, with no index out of range: in an error, or in tokens that cover the
  -- source together with spaces and comments. Each token is spelled as the source has it at its
  -- span, and its position is the line, the column and the offset there.
  pub lex-Ends : (src : Text) → Ends (Tokenizes parse_f64 [] src) (lex parse_f64 src)
  unfolding lex tokens
  lex-Ends src =
      rw (new-cursor src) (
        Ends-map (λ ts (more, e, t). rw e t)
          (tokens_loop-Ends (length src) src [] [] (omega arith)))
