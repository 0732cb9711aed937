-- ===== src/Parser/Printed.antt =====
-- The tokens of a program, and the token lists that a lexer hands over.
use zown.Prelude.{◌≡◌, List, [], ◌∷◌, ◌++◌, Option, none, some}
use zown.Syntax.{
  Pos, Token, TokenKind, Node, NodeKind, Nodes, node, nil, cons, ident, lbrack, rbrack, eof, name,
  blk,
}

-- A token without its span; a closing bracket leaves no position in the program.
abbrev pub Mark : Type 0 → Type 0
Mark F = TokenKind F × Option Pos

module _ {F : Type 0} where
  abbrev pub place : TokenKind F → Pos → Option Pos
  place rbrack p = none
  place _ p = some p

  abbrev pub mark : Token F → Mark F
  mark t = (t.kind, place t.kind t.pos)

  unfoldable mutual
    pub print : Node F → List (Mark F)
    print (node k p) = print_kind k p

    pub print_kind : NodeKind F → Pos → List (Mark F)
    print_kind (NodeKind.int v) p = (TokenKind.int v, some p) ∷ []
    print_kind (NodeKind.float v) p = (TokenKind.float v, some p) ∷ []
    print_kind (NodeKind.str s) p = (TokenKind.str s, some p) ∷ []
    print_kind (name s) p = (ident s, some p) ∷ []
    print_kind (NodeKind.bind s) p = (TokenKind.bind s, some p) ∷ []
    print_kind (NodeKind.move s) p = (TokenKind.move s, some p) ∷ []
    print_kind (NodeKind.cap s) p = (TokenKind.cap s, some p) ∷ []
    print_kind (NodeKind.op s) p = (TokenKind.op s, some p) ∷ []
    print_kind (blk inner) p = (lbrack, some p) ∷ (print_nodes inner ++ (rbrack, none) ∷ [])

    pub print_nodes : Nodes F → List (Mark F)
    print_nodes nil = []
    print_nodes (cons n ns) = print n ++ print_nodes ns

  -- An `eof` has nothing behind it; behind any other token `P` holds.
  abbrev pub EndedAt : TokenKind F → List (Token F) → Type 0 → Type 0
  EndedAt eof ts P = ts ≡ []
  EndedAt _ ts P = P

  -- One `eof`, at the end.
  abbrev pub IsEnded : List (Token F) → Type 0
  IsEnded [] = ⊥
  IsEnded (t ∷ ts) = EndedAt t.kind ts (IsEnded ts)
