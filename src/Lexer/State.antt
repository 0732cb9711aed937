-- ===== src/Lexer/State.antt =====
-- The cursor of the lexer, its errors and the character classes.
use zown.Prelude.{
  ℕ, ◌+◌, ◌-◌, ◌%◌, ◌^◌, Bool, true, false, ◌&&◌, ◌||◌, List, [], ◌∷◌, Text, text, text_eq, take,
  leb, ◌==◌, if◌then◌else◌,
}
use zown.Syntax.{Pos}

-- The error codes.
pub data Code : Type 0 where
  repair_syntax overflow : Code

-- A constructor stands for a message of the source with its hint.
pub data LexMsg : Type 0 where
  unexpected_character : ℕ → LexMsg
  unterminated_string expected_bind_name expected_lane_name : LexMsg
  expected_name : ℕ → LexMsg
  int_too_wide : Text → LexMsg

pub record LexError : Type 0 where
  pub code : Code
  pub msg : LexMsg
  pub pos : Pos

-- `rest` is `src[i..]`: the source text is never written, and the cursor only moves on.
pub record Lexer : Type 0 where
  pub rest : Text
  pub i : ℕ
  pub line : ℕ
  pub col : ℕ

abbrev pub new : Text → Lexer
new src = record { rest = src; i = 0; line = 1; col = 1 }

abbrev pub u32 : ℕ → ℕ
u32 n = n % 2 ^ 32

-- `advance` at a character `c` with `cs` behind it; every call of the source stands behind a test
-- that there is a character. The counters are `u32`s, which wrap in a release build.
unfoldable pub advance : ℕ → Text → Lexer → Lexer
advance c cs l =
    if c == b'\n'
    then record { rest = cs; i = l.i + 1; line = u32 (l.line + 1); col = 1 }
    else record { rest = cs; i = l.i + 1; line = l.line; col = u32 (l.col + 1) }

-- `while peek(0) satisfies p { advance() }`, over the rest of the source
unfoldable pub skip_while : (ℕ → Bool) → Text → Lexer → Lexer
skip_while p [] l = l
skip_while p (c ∷ cs) l = elim (p c) [ true ↦ skip_while p cs (advance c cs l) | false ↦ l ]

abbrev pub pos : Lexer → Pos
pos l = record { line = l.line; col = l.col; offset = l.i }

-- `src[start..self.i]`, for a lexer that was at `start` and is at `end` now
abbrev pub slice : Lexer → Lexer → Text
slice start end = take (end.i - start.i) start.rest

abbrev pub lex_err : LexMsg → Lexer → LexError
lex_err m l = record { code = repair_syntax; msg = m; pos = pos l }

unfoldable pub is_digit : ℕ → Bool
is_digit c = leb b'0' c && leb c b'9'

unfoldable pub is_ident_start : ℕ → Bool
is_ident_start c = (leb b'A' c && leb c b'Z') || (leb b'a' c && leb c b'z')

unfoldable pub is_ident_cont : ℕ → Bool
is_ident_cont c = is_ident_start c || is_digit c

unfoldable pub is_space : ℕ → Bool
is_space c = c == b' ' || c == b'\t' || c == b'\r' || c == b'\n'

unfoldable pub contains_char : Text → ℕ → Bool
contains_char [] c = false
contains_char (d ∷ ds) c = d == c || contains_char ds c

unfoldable pub contains_text : List Text → Text → Bool
contains_text [] s = false
contains_text (t ∷ ts) s = text_eq t s || contains_text ts s

abbrev pub two_char_ops : List Text
two_char_ops =
    text "==" ∷ text "!=" ∷ text "<=" ∷ text ">=" ∷ text "&&" ∷ text "||" ∷ text "??" ∷ []

abbrev pub one_char_ops : Text
one_char_ops = text "@.,=\\&+-*/%<>!?;_|^»«→"
