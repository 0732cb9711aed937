-- ===== src/Parser/Source.antt =====
-- `parse` on any source: the lexer and the parser together.
use zown.Prelude.{refl, List, [], Text}
use zown.Prelude.Outcome.{Outcome, Ends, value, error, Ends-map, Ends-bind}
use zown.Syntax.{Token, TokenKind, eof}
use zown.Lexer.{LexError}
use zown.Lexer.Spelling.{Spells, Tokenizes, end, gap, token}
use zown.Lexer.Sound.{lex-Ends}
use zown.Parser.{lexed, parse}
use zown.Parser.Printed.{IsEnded, EndedAt}
use zown.Parser.Sound.{parse_tokens-Ends}
use zown.Parser.Complete.{PrintOf}

module _ {F : Type 0} (parse_f64 : Text → F) where
  EndedAt_of_Spells :
      (x : Text) (k : TokenKind F) (ts : List (Token F))
      → Spells parse_f64 x k
      → IsEnded ts
      → EndedAt k ts (IsEnded ts)
  EndedAt_of_Spells x eof ts s w = absurd s
  EndedAt_of_Spells x _ ts s w = w

  Tokenizes-IsEnded :
      {b rest : Text} {ts : List (Token F)} → Tokenizes parse_f64 b rest ts → IsEnded ts
  Tokenizes-IsEnded end = refl
  Tokenizes-IsEnded (gap x e g t) = Tokenizes-IsEnded t
  Tokenizes-IsEnded (token {ts = ts} x k e s t) = EndedAt_of_Spells x k ts s (Tokenizes-IsEnded t)

  lexed-Ends :
      {P : List (Token F) → Type 0} {m : Outcome LexError (List (Token F))}
      → Ends P m
      → Ends P (lexed m)
  lexed-Ends (value h) = value h
  lexed-Ends error = error

  -- Lexing and parsing end on every source, with no index out of range: in an error, or in a
  -- program whose print is made of the tokens that the source is covered by.
  pub parse-Ends :
      (src : Text)
      → Ends
          (λ ns. (ts : List (Token F)) × Tokenizes parse_f64 [] src ts × PrintOf ns ts)
          (parse parse_f64 src)
  unfolding parse
  parse-Ends src =
      Ends-bind (lexed-Ends (lex-Ends parse_f64 src))
        λ ts t. Ends-map (λ ns p. (ts, t, p)) (parse_tokens-Ends ts (Tokenizes-IsEnded t))
