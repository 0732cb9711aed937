-- ===== src/Parser/Complete.antt =====
-- The print of a program parses to the program.
use zown.Prelude.{
  ℕ, zero, suc, ◌<◌, ◌≡◌, ◌≢◌, refl, sym, ap, ◌∙◌, Bool, true, false, List, [], ◌∷◌, ◌++◌,
  append_assoc, Option, none, some, map, arith, length, length-append, map-eq-append, ◌↔◌,
}
use zown.Prelude.Outcome.{ok, ◌>>=◌, Ends-ok}
use zown.Syntax.{
  Pos, Token, TokenKind, Node, NodeKind, Nodes, node, nil, cons, ident, lbrack, rbrack, eof, name,
  blk,
}
use zown.Parser.Sound.{parse_tokens-Ends}
use zown.Parser.{Sequence, Parses, parse_node, sequence_round, sequence, parse_tokens}
use zown.Parser.Printed.{place, mark, print, print_kind, print_nodes, IsEnded}

module _ {F : Type 0} where
  -- the token that ends a sequence, and what is left at the end
  data Closes : Bool → List (Token F) → List (Token F) → Type 0 where
    at_end :
        {r r' : List (Token F)} (e : Token F)
        → e.kind ≡ eof
        → r ≡ e ∷ []
        → r' ≡ e ∷ []
        → Closes true r r'
    at_bracket :
        {r r' : List (Token F)} (c : Token F) → c.kind ≡ rbrack → r ≡ c ∷ r' → Closes false r r'

  abbrev then_sequence : ℕ → Bool → Node F → List (Token F) → Parses F (Nodes F)
  then_sequence f top n more = sequence f top more >>= λ (ns, rest). ok (cons n ns, rest)

  place-pos : (k : TokenKind F) (q p : Pos) → place k q ≡ some p → q ≡ p
  place-pos rbrack q p e = cc
  place-pos _ q p e = cc

  -- a token that is a node by itself
  leaf_round :
      (f : ℕ) (top : Bool) (k : TokenKind F) (n : NodeKind F) (p : Pos) (fs more : List (Token F))
      → map mark fs ≡ (k, some p) ∷ []
      → ((rec : Sequence F) (t : Token F)
          → sequence_round rec top k t more
            ≡ (rec top more >>= λ (ns, rest). ok (cons (node n t.pos) ns, rest)))
      → sequence (suc f) top (fs ++ more) ≡ then_sequence f top (node n p) more
  unfolding sequence
  leaf_round f top k n p [] more e step = cc
  leaf_round f top k n p (t ∷ []) more e step =
      let kind : t.kind ≡ k = cc in
      let at : t.pos ≡ p = place-pos t.kind t.pos p (cc) in
      ap (λ k'. sequence_round (sequence f) top k' t more) kind
      ∙ step (sequence f) t
      ∙ ap (λ q. then_sequence f top (node n q) more) at
  leaf_round f top k n p (t ∷ u ∷ fs) more e step = cc

  singleton :
      (fs : List (Token F)) (k : TokenKind F) (o : Option Pos)
      → map mark fs ≡ (k, o) ∷ []
      → (c : Token F) × (fs ≡ c ∷ []) × (c.kind ≡ k)
  singleton [] k o e = cc
  singleton (c ∷ []) k o e = (c, refl, cc)
  singleton (c ∷ d ∷ fs) k o e = cc

  -- a block, once what it holds reads back
  block_round :
      (f : ℕ) (top : Bool) (inner : Nodes F) (p : Pos) (fs more : List (Token F))
      → map mark fs ≡ (lbrack, some p) ∷ (print_nodes inner ++ (rbrack, none) ∷ [])
      → length (fs ++ more) < suc f
      → ((gs : List (Token F)) (c : Token F)
          → map mark gs ≡ print_nodes inner
          → length (gs ++ c ∷ more) < f
          → c.kind ≡ rbrack
          → sequence f false (gs ++ c ∷ more) ≡ ok (inner, more))
      → sequence (suc f) top (fs ++ more) ≡ then_sequence f top (node (blk inner) p) more
  unfolding sequence sequence_round parse_node
  block_round f top inner p [] more e h ih = cc
  block_round f top inner p (t ∷ fs) more e h ih =
      let kind : t.kind ≡ lbrack = cc in
      let at : t.pos ≡ p = place-pos t.kind t.pos p (cc) in
      let (gs, gs', q, q₁, q₂) =
        map-eq-append mark fs (print_nodes inner) ((rbrack, none) ∷ []) (cc) in
      let (c, q₃, k) = singleton gs' rbrack none q₂ in
      let split : fs ++ more ≡ gs ++ c ∷ more =
        ap (λ l. l ++ more) (q ∙ ap (λ l. gs ++ l) q₃) ∙ append_assoc gs (c ∷ []) more in
      let read = ih gs c q₁ (omega (arith, ap length split)) k in
      ap (λ k'. sequence_round (sequence f) top k' t (fs ++ more)) kind
      ∙ ap
          (λ m.
            m >>= (λ (ns, l). ok (node (blk ns) t.pos, l)) >>= λ (n, l). then_sequence f top n l)
          (ap (sequence f false) split ∙ read)
      ∙ ap (λ q. then_sequence f top (node (blk inner) q) more) at

  print_kind-ne_nil : (k : NodeKind F) (p : Pos) → print_kind k p ≢ []
  unfolding print
  print_kind-ne_nil (name s) p = cc
  print_kind-ne_nil _ p = cc

  takes_a_token :
      (k : NodeKind F) (p : Pos) (fs : List (Token F))
      → map mark fs ≡ print_kind k p
      → 0 < length fs
  takes_a_token k p [] e = absurd (print_kind-ne_nil k p (sym e))
  takes_a_token k p (t ∷ fs) e = omega arith

  mutual
    unfolding print sequence_round parse_node sequence

    kind_reads :
        (k : NodeKind F) (p : Pos) (f : ℕ) (top : Bool) (fs more : List (Token F))
        → map mark fs ≡ print_kind k p
        → length (fs ++ more) < suc f
        → sequence (suc f) top (fs ++ more) ≡ then_sequence f top (node k p) more
    kind_reads (NodeKind.int v) p f top fs more e h =
        leaf_round f top (TokenKind.int v) _ p fs more e (λ rec t. refl)
    kind_reads (NodeKind.float v) p f top fs more e h =
        leaf_round f top (TokenKind.float v) _ p fs more e (λ rec t. refl)
    kind_reads (NodeKind.str s) p f top fs more e h =
        leaf_round f top (TokenKind.str s) _ p fs more e (λ rec t. refl)
    kind_reads (name s) p f top fs more e h =
        leaf_round f top (ident s) _ p fs more e (λ rec t. refl)
    kind_reads (NodeKind.bind s) p f top fs more e h =
        leaf_round f top (TokenKind.bind s) _ p fs more e (λ rec t. refl)
    kind_reads (NodeKind.move s) p f top fs more e h =
        leaf_round f top (TokenKind.move s) _ p fs more e (λ rec t. refl)
    kind_reads (NodeKind.cap s) p f top fs more e h =
        leaf_round f top (TokenKind.cap s) _ p fs more e (λ rec t. refl)
    kind_reads (NodeKind.op s) p f top fs more e h =
        leaf_round f top (TokenKind.op s) _ p fs more e (λ rec t. refl)
    kind_reads (blk inner) p f top fs more e h =
        block_round f top inner p fs more e h
          λ gs c q l k. nodes_reads inner f false gs (c ∷ more) more q l (at_bracket c k refl)

    nodes_reads :
        (ns : Nodes F) (f : ℕ) (top : Bool) (fs r r' : List (Token F))
        → map mark fs ≡ print_nodes ns
        → length (fs ++ r) < f
        → Closes top r r'
        → sequence f top (fs ++ r) ≡ ok (ns, r')
    nodes_reads nil zero top fs r r' e h w = absurd (omega arith)
    nodes_reads nil (suc f) top (t ∷ fs) r r' e h w = cc
    nodes_reads nil (suc f) top [] r r' e h (at_end t k q q') = rw (q, q') (rw k)
    nodes_reads nil (suc f) top [] r r' e h (at_bracket t k q) = rw q (rw k)
    nodes_reads (cons n ns) zero top fs r r' e h w = absurd (omega arith)
    nodes_reads (cons (node k p) ns) (suc f) top fs r r' e h w =
        let (gs, gs', q, q₁, q₂) = map-eq-append mark fs (print_kind k p) (print_nodes ns) e in
        let split : fs ++ r ≡ gs ++ (gs' ++ r) = ap (λ l. l ++ r) q ∙ append_assoc gs gs' r in
        let size = ap length split in
        rw (split, kind_reads k p f top gs (gs' ++ r) q₁ (omega (arith, size)))
          (rw (
            nodes_reads ns f top gs' r r' q₂
              (omega (arith, size, length-append gs (gs' ++ r), takes_a_token k p gs q₁)) w))

  abbrev pub PrintOf : Nodes F → List (Token F) → Type 0
  PrintOf ns ts = (e : Token F) × (e.kind ≡ eof) × (map mark ts ≡ print_nodes ns ++ mark e ∷ [])

  parse_tokens-print :
      (ns : Nodes F) (ts : List (Token F)) → PrintOf ns ts → parse_tokens ts ≡ ok ns
  unfolding parse_tokens
  parse_tokens-print ns ts (e, k, p) =
      let (fs, r, q, q₁, q₂) = map-eq-append mark ts (print_nodes ns) (mark e ∷ []) p in
      let (t, q₃, k') = singleton r e.kind (place e.kind e.pos) q₂ in
      let read =
        nodes_reads ns (suc (length (fs ++ t ∷ []))) true fs (t ∷ []) (t ∷ []) q₁ (omega arith)
          (at_end t (k' ∙ k) refl refl) in
      rw (q, q₃) (rw read)

  -- Of token lists with one `eof`, at their end, the parser accepts exactly the prints of programs,
  -- and gives the program printed, its positions included.
  pub parse_tokens-eq-ok_iff :
      (ts : List (Token F)) (ns : Nodes F) → IsEnded ts → (parse_tokens ts ≡ ok ns) ↔ PrintOf ns ts
  parse_tokens-eq-ok_iff ts ns w = (Ends-ok (parse_tokens-Ends ts w), parse_tokens-print ns ts)
