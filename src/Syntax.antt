-- ===== src/Syntax.antt =====
-- zownc/crates/zown-lexer/src/lib.rs and zownc/crates/zown-ast/src/lib.rs: tokens and program
-- nodes. The type `F` stands for `f64`.
use zown.Prelude.{ℕ, Text}
use zown.Prelude.Int.{ℤ}

pub record Pos : Type 0 where
  pub line : ℕ
  pub col : ℕ
  pub offset : ℕ

-- `Pos::default()`
abbrev pub no_pos : Pos
no_pos = record { line = 0; col = 0; offset = 0 }

pub data TokenKind (F : Type 0) : Type 0 where
  int : ℤ → TokenKind F
  float : F → TokenKind F
  str ident bind move cap op : Text → TokenKind F
  lbrack rbrack eof : TokenKind F

pub record Token (F : Type 0) : Type 0 where
  pub kind : TokenKind F
  pub pos : Pos
  pub span : ℕ × ℕ

-- A program is a list of nodes; a block holds a program, so the lists stand in the block.
mutual
  pub data Node (F : Type 0) : Type 0 where
    node : NodeKind F → Pos → Node F

  pub data NodeKind (F : Type 0) : Type 0 where
    int : ℤ → NodeKind F
    float : F → NodeKind F
    str name bind move cap op : Text → NodeKind F
    blk : Nodes F → NodeKind F

  pub data Nodes (F : Type 0) : Type 0 where
    nil : Nodes F
    cons : Node F → Nodes F → Nodes F

module _ {F : Type 0} where
  -- `Node::eq` compares kinds alone, at every depth: two nodes are equal exactly when they are one
  -- after their positions are put to the default.
  unfoldable mutual
    pub erase : Node F → Node F
    erase (node k p) = node (erase_kind k) no_pos

    pub erase_kind : NodeKind F → NodeKind F
    erase_kind (blk ns) = blk (erase_nodes ns)
    erase_kind (int v) = int v
    erase_kind (float v) = float v
    erase_kind (str s) = str s
    erase_kind (name s) = name s
    erase_kind (bind s) = bind s
    erase_kind (move s) = move s
    erase_kind (cap s) = cap s
    erase_kind (op s) = op s

    pub erase_nodes : Nodes F → Nodes F
    erase_nodes nil = nil
    erase_nodes (cons n ns) = cons (erase n) (erase_nodes ns)
