-- ===== src/Lexer/Tests.antt =====
-- Runs of the lexer on the inputs of the source's own tests.
use zown.Prelude.{◌≡◌, refl, List, [], ◌∷◌, map, Text, text}
use zown.Prelude.Int.{pos as pos_int}
use zown.Prelude.Outcome.{Outcome, ok, err, panic, out_of_fuel}
use zown.Syntax.{TokenKind, int, str, ident, bind, move, cap, op, float, lbrack, rbrack, eof}
use zown.Lexer.State.{
  Code, repair_syntax, overflow, advance, skip_while, is_digit, is_ident_start, is_ident_cont,
  is_space, contains_char, contains_text,
}
use zown.Lexer.Read.{
  string_loop, name_or, decimal, read_string, read_bind, read_named, read_lane, read_ident,
  int_token, read_number, one_char_op, read_op,
}
use zown.Prelude.Outcome.{Ends}
use zown.Lexer.Spelling.{Tokenizes}
use zown.Lexer.Sound.{lex-Ends}
use zown.Lexer.Loop.{round, tokens_loop, tokens, lex}

abbrev parse_text : Text → Text
parse_text s = s

kinds : Text → Outcome Code (List (TokenKind Text))
unfolding lex tokens tokens_loop round string_loop name_or decimal read_string read_bind read_named
    read_lane read_ident int_token read_number one_char_op read_op advance skip_while is_digit
    is_ident_start is_ident_cont is_space contains_char contains_text
kinds s = elim (lex parse_text s) [
  | ok ts ↦ ok (map (λ t. t.kind) ts)
  | err e ↦ err e.code
  | panic ↦ panic
  | out_of_fuel ↦ out_of_fuel
]

hello_world :
    kinds (text "[$Hello, World!$.]:h h@")
    ≡ ok (
        lbrack
        ∷ str (text "Hello, World!")
        ∷ op (text ".")
        ∷ rbrack
        ∷ bind (text "h")
        ∷ ident (text "h")
        ∷ op (text "@")
        ∷ eof
        ∷ [])
unfolding kinds
hello_world = refl

dots :
    kinds (text "5.5. 7 ?? || | »")
    ≡ ok (
        float (text "5.5")
        ∷ op (text ".")
        ∷ int (pos_int 7)
        ∷ op (text "??")
        ∷ op (text "||")
        ∷ op (text "|")
        ∷ op (text "»")
        ∷ eof
        ∷ [])
unfolding kinds
dots = refl

sigils :
    kinds (text "`s 'x ~m # end")
    ≡ ok (cap (text "s") ∷ move (text "x") ∷ op (text "~m") ∷ eof ∷ [])
unfolding kinds
sigils = refl

faults :
    (kinds (text "9223372036854775808") ≡ err overflow)
    × (kinds (text "9223372036854775807") ≡ ok (int (pos_int 9223372036854775807) ∷ eof ∷ []))
    × (kinds (text "~1") ≡ err repair_syntax)
    × (kinds (text "(") ≡ err repair_syntax)
    × (kinds (text "$a") ≡ err repair_syntax)
unfolding kinds
faults = (refl, refl, refl, refl, refl)

lex-Ends_example :
    Ends (Tokenizes parse_text [] (text "1.5 [$a$] 'x #")) (lex parse_text (text "1.5 [$a$] 'x #"))
lex-Ends_example = lex-Ends parse_text (text "1.5 [$a$] 'x #")
