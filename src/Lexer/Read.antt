-- ===== src/Lexer/Read.antt =====
-- The methods `read_*`: each reads one token at the cursor, which stands on the character `c` with
-- `cs` behind it.
use zown.Prelude.{
  ℕ, ◌+◌, ◌-◌, ◌*◌, ◌^◌, Bool, false, ◌&&◌, [], ◌∷◌, ◌++◌, Option, none, some, Text, ltb, ◌==◌,
  if◌then◌else◌,
}
use zown.Prelude.Int.{pos as pos_int}
use zown.Prelude.Outcome.{Outcome, ok, err, ◌>>=◌}
use zown.Syntax.{Token, TokenKind, int, float, str, ident, bind, op}
use zown.Lexer.State.{
  overflow, LexMsg, unterminated_string, expected_bind_name, expected_lane_name, expected_name,
  int_too_wide, LexError, Lexer, advance, skip_while, pos, slice, lex_err, is_digit, is_ident_start,
  is_ident_cont, contains_char, contains_text, two_char_ops, one_char_ops,
}

abbrev pub Reads : Type 0 → Type 0
Reads A = Outcome LexError (A × Lexer)

-- the token of kind `k` that was read from `start` to `end`
abbrev pub token_at : {F : Type 0} → TokenKind F → Lexer → Lexer → Token F
token_at k start end = record { kind = k; pos = pos start; span = (start.i, end.i - start.i) }

-- `match nxt` after a backslash
abbrev pub unescape : ℕ → ℕ
unescape c =
    if c == b'n'
    then b'\n'
    else if c == b't'
    then b'\t'
    else if c == b'r'
    then b'\r'
    else if c == b'0'
    then 0
    else c

-- the loop of `read_string`
unfoldable pub string_loop : Text → Text → Lexer → Reads Text
string_loop [] buf l = err (lex_err unterminated_string l)
string_loop (c ∷ []) buf l =
    if c == b'$'
    then ok (buf, advance c [] l)
    else err (lex_err unterminated_string (advance c [] l))
string_loop (c ∷ d ∷ ds) buf l =
    let escaped = string_loop ds (buf ++ unescape d ∷ []) (advance d ds (advance c (d ∷ ds) l)) in
    let plain = string_loop (d ∷ ds) (buf ++ c ∷ []) (advance c (d ∷ ds) l) in
    if c == b'\\' then escaped else if c == b'$' then ok (buf, advance c (d ∷ ds) l) else plain

-- the name behind a sigil, or the error `m`
unfoldable pub name_or : LexMsg → Text → Lexer → Reads Text
name_or m [] l = err (lex_err m l)
name_or m (c ∷ cs) l =
    let end = skip_while is_ident_cont l.rest l in
    if is_ident_start c then ok (slice l end, end) else err (lex_err m l)

-- the decimal value of a run of digits
unfoldable pub decimal : ℕ → Text → ℕ
decimal acc [] = acc
decimal acc (c ∷ cs) = decimal (acc * 10 + (c - b'0')) cs

-- `peek(0) == Some('.') && matches!(peek(1), Some(c) if c.is_ascii_digit())`
abbrev pub decimal_point : Text → Bool
decimal_point [] = false
decimal_point (c ∷ []) = false
decimal_point (c ∷ d ∷ ds) = c == b'.' && is_digit d

-- the fraction behind an integer part: the point, then digits
abbrev pub fraction_end : Text → Lexer → Lexer
fraction_end [] l = l
fraction_end (c ∷ cs) l = skip_while is_digit cs (advance c cs l)

module _ {F : Type 0} where
  unfoldable pub read_string : ℕ → Text → Lexer → Reads (Token F)
  read_string c cs l = do
    (s, end) ← string_loop cs [] (advance c cs l)
    ok (token_at (str s) l end, end)

  unfoldable pub read_bind : ℕ → Text → Lexer → Reads (Token F)
  read_bind c cs l = do
    (s, end) ← name_or expected_bind_name cs (advance c cs l)
    ok (token_at (bind s) l end, end)

  -- `read_move` and `read_cap`, through `read_named` at their sigil
  unfoldable pub read_named : (Text → TokenKind F) → ℕ → Text → Lexer → Reads (Token F)
  read_named kind c cs l = do
    (s, end) ← name_or (expected_name c) cs (advance c cs l)
    ok (token_at (kind s) l end, end)

  unfoldable pub read_lane : ℕ → Text → Lexer → Reads (Token F)
  read_lane c cs l = do
    (s, end) ← name_or expected_lane_name cs (advance c cs l)
    ok (token_at (op (slice l end)) l end, end)

  unfoldable pub read_ident : Lexer → Reads (Token F)
  read_ident l =
      let end = skip_while is_ident_cont l.rest l in ok (token_at (ident (slice l end)) l end, end)

  -- `text.parse::<i64>()` of a run of digits
  unfoldable pub int_token : Lexer → Lexer → Reads (Token F)
  int_token l end =
      let n = decimal 0 (slice l end) in
      if ltb n (2 ^ 63)
      then ok (token_at (int (pos_int n)) l end, end)
      else err (record { code = overflow; msg = int_too_wide (slice l end); pos = pos end })

  -- `text.parse::<f64>()` is `parse_f64`
  unfoldable pub read_number : (Text → F) → Lexer → Reads (Token F)
  read_number parse_f64 l =
      let whole = skip_while is_digit l.rest l in
      let end = fraction_end whole.rest whole in
      if decimal_point whole.rest
      then ok (token_at (float (parse_f64 (slice l end))) l end, end)
      else int_token l whole

  unfoldable pub one_char_op : ℕ → Text → Lexer → Option (Token F × Lexer)
  one_char_op c cs l =
      let end = advance c cs l in
      if contains_char one_char_ops c then some (token_at (op (c ∷ [])) l end, end) else none

  -- `read_op`; `none` if no operator stands here
  unfoldable pub read_op : ℕ → Text → Lexer → Option (Token F × Lexer)
  read_op c [] l = one_char_op c [] l
  read_op c (d ∷ ds) l =
      let end = advance d ds (advance c (d ∷ ds) l) in
      if contains_text two_char_ops (c ∷ d ∷ [])
      then some (token_at (op (c ∷ d ∷ [])) l end, end)
      else one_char_op c (d ∷ ds) l
