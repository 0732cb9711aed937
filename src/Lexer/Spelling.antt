-- ===== src/Lexer/Spelling.antt =====
-- What each token is spelled like in a source, stated apart from the lexer.
use zown.Prelude.{
  ℕ, ◌^◌, ◌<◌, ◌≡◌, ◌⊎◌, Bool, true, false, ◌&&◌, ◌||◌, List, [], ◌∷◌, ◌++◌, Option, none, some,
  Text, length, ◌==◌, if◌then◌else◌,
}
use zown.Prelude.Int.{pos}
use zown.Syntax.{Token, TokenKind, int, float, str, ident, bind, move, cap, op, lbrack, rbrack, eof}
use zown.Lexer.State.{
  is_digit, is_ident_start, is_ident_cont, is_space, contains_char, contains_text, two_char_ops,
  one_char_ops,
}
use zown.Lexer.Read.{unescape, decimal}
use zown.Lexer.Cursor.{place}

abbrev pub all : (ℕ → Bool) → Text → Bool
all p [] = true
all p (c ∷ cs) = p c && all p cs

-- a letter, then letters and digits
abbrev pub is_name : Text → Bool
is_name [] = false
is_name (c ∷ cs) = is_ident_start c && all is_ident_cont cs

abbrev pub is_number : Text → Bool
is_number [] = false
is_number (c ∷ cs) = is_digit c && all is_digit cs

abbrev pub is_lane : Text → Bool
is_lane [] = false
is_lane (c ∷ cs) = c == b'~' && is_name cs

abbrev pub is_one_char_op : Text → Bool
is_one_char_op (c ∷ []) = contains_char one_char_ops c
is_one_char_op _ = false

abbrev pub is_op : Text → Bool
is_op s = contains_text two_char_ops s || (is_one_char_op s || is_lane s)

abbrev pub prepend : ℕ → Option Text → Option Text
prepend c none = none
prepend c (some s) = some (c ∷ s)

-- The value of the text between two `$`: none if it holds a bare `$` or ends in a backslash.
unfoldable pub unquote : Text → Option Text
unquote [] = some []
unquote (c ∷ []) = if c == b'\\' || c == b'$' then none else some (c ∷ [])
unquote (c ∷ d ∷ ds) =
    let escaped = prepend (unescape d) (unquote ds) in
    let plain = prepend c (unquote (d ∷ ds)) in
    if c == b'\\' then escaped else if c == b'$' then none else plain

-- The text `x` spells a token of the kind; `parse_f64` reads a decimal fraction.
abbrev pub Spells : {F : Type 0} → (Text → F) → Text → TokenKind F → Type 0
Spells parse_f64 x (int v) = (is_number x ≡ true) × (v ≡ pos (decimal 0 x)) × (decimal 0 x < 2 ^ 63)
Spells parse_f64 x (float v) =
    (whole : Text) × (part : Text) × (x ≡ whole ++ b'.' ∷ part)
    × (is_number whole ≡ true)
    × (is_number part ≡ true)
    × (v ≡ parse_f64 x)
Spells parse_f64 x (str s) = (raw : Text) × (x ≡ b'$' ∷ (raw ++ b'$' ∷ [])) × (unquote raw ≡ some s)
Spells parse_f64 x (ident s) = (x ≡ s) × (is_name s ≡ true)
Spells parse_f64 x (bind s) = (x ≡ b':' ∷ s) × (is_name s ≡ true)
Spells parse_f64 x (move s) = (x ≡ b'\'' ∷ s) × (is_name s ≡ true)
Spells parse_f64 x (cap s) = (x ≡ b'`' ∷ s) × (is_name s ≡ true)
Spells parse_f64 x (op s) = (x ≡ s) × (is_op s ≡ true)
Spells parse_f64 x lbrack = x ≡ b'[' ∷ []
Spells parse_f64 x rbrack = x ≡ b']' ∷ []
Spells parse_f64 x eof = ⊥

-- A space, or a comment up to the end of its line.
abbrev pub IsGap : Text → Type 0
IsGap x =
    ((c : ℕ) × (x ≡ c ∷ []) × (is_space c ≡ true))
    ⊎ ((cs : Text) × (x ≡ b'#' ∷ cs) × (contains_char cs b'\n' ≡ false))

-- The token of kind `k` spelled `x` behind the text `before`.
abbrev pub spelled : {F : Type 0} → TokenKind F → Text → Text → Token F
spelled k before x = record { kind = k; pos = place before; span = (length before, length x) }

-- The tokens of the text `rest` behind `before`: they and the gaps between them make up the text,
-- and the last is `eof` at its end.
pub data Tokenizes {F : Type 0} (parse_f64 : Text → F) : Text → Text → List (Token F) → Type 0 where
  end : {before : Text} → Tokenizes parse_f64 before [] (spelled eof before [] ∷ [])
  gap :
      {before rest more : Text} {ts : List (Token F)} (x : Text)
      → rest ≡ x ++ more
      → IsGap x
      → Tokenizes parse_f64 (before ++ x) more ts
      → Tokenizes parse_f64 before rest ts
  token :
      {before rest more : Text} {ts : List (Token F)} (x : Text) (k : TokenKind F)
      → rest ≡ x ++ more
      → Spells parse_f64 x k
      → Tokenizes parse_f64 (before ++ x) more ts
      → Tokenizes parse_f64 before rest (spelled k before x ∷ ts)
