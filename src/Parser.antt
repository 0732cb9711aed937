-- ===== src/Parser.antt =====
-- zownc/crates/zown-parser/src/lib.rs: from tokens to a program. The list is `toks[i..]`.
pub mod Printed
pub mod Sound
pub mod Complete
pub mod Source
mod Tests
use zown.Prelude.{ℕ, zero, suc, Bool, true, false, List, [], ◌∷◌, Text, length, if◌then◌else◌}
use zown.Prelude.Outcome.{Outcome, ok, err, panic, out_of_fuel, ◌>>=◌}
use zown.Syntax.{
  Pos, Token, TokenKind, Node, NodeKind, Nodes, node, nil, cons, ident, lbrack, rbrack, eof, name,
  blk,
}
use zown.Lexer.{Code, repair_syntax, LexMsg, LexError, lex}

-- A constructor stands for a message of the source with its hint.
pub data ParseMsg (F : Type 0) : Type 0 where
  unclosed_block unexpected_rbrack : ParseMsg F
  unexpected_token : TokenKind F → ParseMsg F
  lexical : LexMsg → ParseMsg F

pub data Phase : Type 0 where
  lexing parsing : Phase

pub record ParseError (F : Type 0) : Type 0 where
  pub code : Code
  pub msg : ParseMsg F
  pub kind : Phase
  pub pos : Pos

-- The program's `Result`, with the parser as it is then: `self.toks[self.i..]`.
abbrev pub Parses : Type 0 → Type 0 → Type 0
Parses F A = Outcome (ParseError F) (A × List (Token F))

abbrev pub Sequence : Type 0 → Type 0
Sequence F = Bool → List (Token F) → Parses F (Nodes F)

module _ {F : Type 0} where
  -- `impl From<LexError> for ParseError`
  abbrev pub from_lex : LexError → ParseError F
  from_lex e = record { code = e.code; msg = lexical e.msg; kind = lexing; pos = e.pos }

  abbrev pub parse_err : ParseMsg F → Pos → ParseError F
  parse_err m p = record { code = repair_syntax; msg = m; kind = parsing; pos = p }

  abbrev leaf : NodeKind F → Pos → List (Token F) → Parses F (Node F)
  leaf k p ts = ok (node k p, ts)

  -- `node`, behind its `advance`: the token's kind and position, and the tokens that follow it.
  -- `sequence` is the call of the method of that name.
  unfoldable pub parse_node : Sequence F → TokenKind F → Pos → List (Token F) → Parses F (Node F)
  parse_node sequence (TokenKind.int v) p ts = leaf (NodeKind.int v) p ts
  parse_node sequence (TokenKind.float v) p ts = leaf (NodeKind.float v) p ts
  parse_node sequence (TokenKind.str s) p ts = leaf (NodeKind.str s) p ts
  parse_node sequence (ident s) p ts = leaf (name s) p ts
  parse_node sequence (TokenKind.bind s) p ts = leaf (NodeKind.bind s) p ts
  parse_node sequence (TokenKind.move s) p ts = leaf (NodeKind.move s) p ts
  parse_node sequence (TokenKind.cap s) p ts = leaf (NodeKind.cap s) p ts
  parse_node sequence (TokenKind.op s) p ts = leaf (NodeKind.op s) p ts
  parse_node sequence lbrack p ts = do
    (inner, more) ← sequence false ts
    ok (node (blk inner) p, more)
  parse_node sequence rbrack p ts = err (parse_err (unexpected_token rbrack) p)
  parse_node sequence eof p ts = err (parse_err (unexpected_token eof) p)

  -- A round of the loop of `sequence` at the token `t` of the given kind; the rounds that follow it
  -- are a call of `sequence`, whose nodes stand behind this round's.
  unfoldable pub sequence_round :
      Sequence F → Bool → TokenKind F → Token F → List (Token F) → Parses F (Nodes F)
  sequence_round sequence top eof t ts =
      if top then ok (nil, t ∷ ts) else err (parse_err unclosed_block t.pos)
  sequence_round sequence top rbrack t ts =
      if top then err (parse_err unexpected_rbrack t.pos) else ok (nil, ts)
  sequence_round sequence top k t ts = do
    (n, more) ← parse_node sequence k t.pos ts
    (ns, rest) ← sequence top more
    ok (cons n ns, rest)

  -- `peek` past the end of the tokens panics.
  unfoldable pub sequence : ℕ → Sequence F
  sequence zero top ts = out_of_fuel
  sequence (suc f) top [] = panic
  sequence (suc f) top (t ∷ ts) = sequence_round (sequence f) top t.kind t ts

  -- Each call of `sequence` in `sequence` has a token less before it.
  unfoldable pub parse_tokens : List (Token F) → Outcome (ParseError F) (Nodes F)
  parse_tokens ts = do (ns, _) ← sequence (suc (length ts)) true ts; ok ns

  abbrev pub lexed : Outcome LexError (List (Token F)) → Outcome (ParseError F) (List (Token F))
  lexed (ok ts) = ok ts
  lexed (err e) = err (from_lex e)
  lexed panic = panic
  lexed out_of_fuel = out_of_fuel

  unfoldable pub parse : (Text → F) → Text → Outcome (ParseError F) (Nodes F)
  parse parse_f64 src = do ts ← lexed (lex parse_f64 src); parse_tokens ts
