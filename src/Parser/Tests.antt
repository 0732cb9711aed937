-- ===== src/Parser/Tests.antt =====
-- Concrete runs of the parser, and its theorems at concrete inputs.
use zown.Prelude.{ℕ, ◌≡◌, ◌↔◌, refl, List, [], ◌∷◌, Text, text}
use zown.Prelude.Int.{pos as pos_int}
use zown.Prelude.Outcome.{ok, Ends}
use zown.Syntax.{
  Pos, Token, TokenKind, NodeKind, Nodes, node, nil, cons, lbrack, rbrack, eof, blk, int,
}
use zown.Lexer.Spelling.{Tokenizes}
use zown.Parser.{parse_tokens, sequence, sequence_round, parse_node, parse}
use zown.Parser.Sound.{parse_tokens-Ends}
use zown.Parser.Complete.{PrintOf, parse_tokens-eq-ok_iff}
use zown.Parser.Source.{parse-Ends}

abbrev at : ℕ → Pos
at n = record { line = 1; col = n; offset = n }

abbrev token_of : TokenKind Text → ℕ → Token Text
token_of k n = record { kind = k; pos = at n; span = (n, 1) }

-- `[[7]];`
abbrev nested : List (Token Text)
nested =
    token_of lbrack 0
    ∷ token_of lbrack 1
    ∷ token_of (int (pos_int 7)) 2
    ∷ token_of rbrack 3
    ∷ token_of rbrack 4
    ∷ token_of (TokenKind.op (text ";")) 5
    ∷ token_of eof 6
    ∷ []

abbrev program : Nodes Text
program = cons (node (blk inner) (at 0)) (cons (node (NodeKind.op (text ";")) (at 5)) nil)
  where
    inner : Nodes Text
    inner = cons (node (blk (cons (node (int (pos_int 7)) (at 2)) nil)) (at 1)) nil

parses_nested : parse_tokens nested ≡ ok program
unfolding parse_tokens sequence sequence_round parse_node
parses_nested = refl

parse_tokens-eq-ok_iff_example : (parse_tokens nested ≡ ok program) ↔ PrintOf program nested
parse_tokens-eq-ok_iff_example = parse_tokens-eq-ok_iff nested program refl

parse_tokens-Ends_example : Ends (λ ns. PrintOf ns nested) (parse_tokens nested)
parse_tokens-Ends_example = parse_tokens-Ends nested refl

abbrev parse_text : Text → Text
parse_text s = s

parse-Ends_example :
    Ends
      (λ ns.
        (ts : List (Token Text)) × Tokenizes parse_text [] (text "[ 1.5 ] # x") ts × PrintOf ns ts)
      (parse parse_text (text "[ 1.5 ] # x"))
parse-Ends_example = parse-Ends parse_text (text "[ 1.5 ] # x")
