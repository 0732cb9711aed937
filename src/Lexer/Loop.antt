-- ===== src/Lexer/Loop.antt =====
-- The method `tokens`, and `lex`.
use zown.Prelude.{
  ℕ, zero, suc, Bool, not, List, [], ◌∷◌, ◌++◌, Option, none, some, Text, length, ◌==◌,
  if◌then◌else◌,
}
use zown.Prelude.Outcome.{Outcome, ok, err, out_of_fuel, ◌>>=◌}
use zown.Syntax.{Token, TokenKind, move, cap, lbrack, rbrack, eof}
use zown.Lexer.State.{
  LexError, unexpected_character, Lexer, new, advance, skip_while, lex_err, is_digit,
  is_ident_start, is_space,
}
use zown.Lexer.Read.{
  Reads, token_at, read_string, read_bind, read_named, read_lane, read_ident, read_number, read_op,
}

abbrev pub not_newline : ℕ → Bool
not_newline c = not (c == b'\n')

module _ {F : Type 0} where
  -- `out.push(self.read_…()?)`
  abbrev pub one_token : Reads (Token F) → Reads (List (Token F))
  one_token m = do (t, l) ← m; ok (t ∷ [], l)

  abbrev pub bracket : TokenKind F → Lexer → Lexer → Reads (List (Token F))
  bracket k l end = ok (token_at k l end ∷ [], end)

  abbrev pub op_or_error : ℕ → Lexer → Option (Token F × Lexer) → Reads (List (Token F))
  op_or_error c l none = err (lex_err (unexpected_character c) l)
  op_or_error c l (some (t, end)) = ok (t ∷ [], end)

  -- One round of `tokens` at the character `c` with `cs` behind it: the tokens pushed, and the
  -- cursor behind what was read.
  unfoldable pub round : (Text → F) → ℕ → Text → Lexer → Reads (List (Token F))
  round parse_f64 c cs l =
      if is_space c
      then ok ([], advance c cs l)
      else if c == b'#'
      then ok ([], skip_while not_newline l.rest l)
      else if c == b'$'
      then one_token (read_string c cs l)
      else if c == b'['
      then bracket lbrack l (advance c cs l)
      else if c == b']'
      then bracket rbrack l (advance c cs l)
      else if c == b':'
      then one_token (read_bind c cs l)
      else if c == b'\''
      then one_token (read_named move c cs l)
      else if c == b'`'
      then one_token (read_named cap c cs l)
      else if is_digit c
      then one_token (read_number parse_f64 l)
      else if is_ident_start c
      then one_token (read_ident l)
      else if c == b'~'
      then one_token (read_lane c cs l)
      else op_or_error c l (read_op c cs l)

  -- The loop of `tokens`; a round reads a character at least.
  unfoldable pub tokens_loop :
      (Text → F) → ℕ → Text → Lexer → List (Token F) → Outcome LexError (List (Token F))
  tokens_loop parse_f64 fuel [] l out = ok (out ++ token_at eof l l ∷ [])
  tokens_loop parse_f64 zero (c ∷ cs) l out = out_of_fuel
  tokens_loop parse_f64 (suc fuel) (c ∷ cs) l out = do
    (ts, l') ← round parse_f64 c cs l
    tokens_loop parse_f64 fuel l'.rest l' (out ++ ts)

  unfoldable pub tokens : (Text → F) → Lexer → Outcome LexError (List (Token F))
  tokens parse_f64 l = tokens_loop parse_f64 (length l.rest) l.rest l []

  unfoldable pub lex : (Text → F) → Text → Outcome LexError (List (Token F))
  lex parse_f64 src = tokens parse_f64 (new src)
