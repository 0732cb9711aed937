-- ===== src/Parser/Sound.antt =====
-- `parse_tokens` on any tokens that a lexer hands over: it ends, and what it accepts is the print of
-- the program that it gives.
use zown.Prelude.{
  ℕ, zero, suc, ◌≤◌, ◌<◌, ◌≡◌, refl, sym, ap, ◌∙◌, Bool, true, false, List, [], ◌∷◌, ◌++◌,
  append_assoc, none, some, map, arith, length,
}
use zown.Prelude.Outcome.{ok, ◌>>=◌, Ends, value, error, Ends-map, Ends-bind}
use zown.Syntax.{Pos, Token, TokenKind, Node, Nodes, cons, lbrack, rbrack, eof}
use zown.Parser.{Sequence, parse_node, sequence_round, sequence, parse_tokens}
use zown.Parser.Printed.{Mark, place, mark, print, print_nodes, EndedAt, IsEnded}

module _ {F : Type 0} where
  abbrev closing : Bool → List (Mark F)
  closing true = []
  closing false = (rbrack, none) ∷ []

  -- where `sequence` leaves the tokens
  abbrev Stopped : Bool → List (Token F) → Type 0
  Stopped true rest = (e : Token F) × (rest ≡ e ∷ []) × (e.kind ≡ eof)
  Stopped false rest = IsEnded rest

  -- `ms` are the marks of the tokens before, `m` bounds the tokens after
  abbrev Sequenced : Bool → List (Mark F) → ℕ → Nodes F × List (Token F) → Type 0
  Sequenced top ms m (ns, rest) =
      (ms ≡ print_nodes ns ++ (closing top ++ map mark rest)) × Stopped top rest × (length rest ≤ m)

  abbrev Noded : List (Mark F) → ℕ → Node F × List (Token F) → Type 0
  Noded ms m (n, rest) = (ms ≡ print n ++ map mark rest) × IsEnded rest × (length rest ≤ m)

  module _ (f : ℕ) (rec : Sequence F)
      (rec-Ends : (top : Bool) (ts : List (Token F))
        → length ts < f
        → IsEnded ts
        → Ends (Sequenced top (map mark ts) (length ts)) (rec top ts)) where
    parse_node-Ends :
        (k : TokenKind F) (p : Pos) (ts : List (Token F))
        → length ts < f
        → EndedAt k ts (IsEnded ts)
        → Ends (Noded ((k, place k p) ∷ map mark ts) (length ts)) (parse_node rec k p ts)
    unfolding parse_node print
    parse_node-Ends lbrack p ts h w = Ends-bind (rec-Ends false ts h w) λ (ns, rest) (e, z, l).
        value (
          ap (λ t. (lbrack, some p) ∷ t)
              (e ∙ sym (append_assoc (print_nodes ns) ((rbrack, none) ∷ []) (map mark rest))),
          z,
          l,
        )
    parse_node-Ends rbrack p ts h w = error
    parse_node-Ends eof p ts h w = error
    parse_node-Ends (TokenKind.int v) p ts h w = value (refl, w, omega arith)
    parse_node-Ends _ p ts h w = value (refl, w, omega arith)

    node_then_sequence :
        (top : Bool) (k : TokenKind F) (p : Pos) (ts : List (Token F))
        → length ts < f
        → EndedAt k ts (IsEnded ts)
        → Ends (Sequenced top ((k, place k p) ∷ map mark ts) (length ts)) (
            parse_node rec k p ts >>= λ (n, more).
            rec top more >>= λ (ns, rest). ok (cons n ns, rest))
    unfolding print
    node_then_sequence top k p ts h w =
        Ends-bind (parse_node-Ends k p ts h w) λ (n, more) (e, z, l).
          Ends-bind (rec-Ends top more (omega arith) z) λ (ns, rest) (e', z', l'). value (
            e
                ∙ ap (λ t. print n ++ t) e'
                ∙ sym (append_assoc (print n) (print_nodes ns) (closing top ++ map mark rest)),
            z',
            omega arith,
          )

    sequence_round-Ends :
        (top : Bool) (k : TokenKind F) (t : Token F) (ts : List (Token F))
        → t.kind ≡ k
        → length ts < f
        → EndedAt k ts (IsEnded ts)
        → Ends
            (Sequenced top ((k, place k t.pos) ∷ map mark ts) (suc (length ts)))
            (sequence_round rec top k t ts)
    unfolding sequence_round print
    sequence_round-Ends true eof t ts q h w =
        value (
          ap (λ k. (k, place k t.pos) ∷ map mark ts) (sym q),
          (t, ap (λ l. t ∷ l) w, q),
          omega arith,
        )
    sequence_round-Ends false eof t ts q h w = error
    sequence_round-Ends true rbrack t ts q h w = error
    sequence_round-Ends false rbrack t ts q h w = value (refl, w, omega arith)
    sequence_round-Ends top k t ts q h w =
        Ends-map (λ (ns, rest) (e, z, l). (e, z, omega arith))
          (node_then_sequence top k t.pos ts h w)

  sequence-Ends :
      (f : ℕ) (top : Bool) (ts : List (Token F))
      → length ts < f
      → IsEnded ts
      → Ends (Sequenced top (map mark ts) (length ts)) (sequence f top ts)
  unfolding sequence
  sequence-Ends zero top ts h w = absurd (omega arith)
  sequence-Ends (suc f) top [] h w = absurd w
  sequence-Ends (suc f) top (t ∷ ts) h w =
      sequence_round-Ends f (sequence f) (sequence-Ends f) top t.kind t ts refl (omega arith) w

  -- On tokens with one `eof`, at their end, parsing ends, in an error or in a program, with no index
  -- out of range. If it gives a program, the tokens before the `eof` are the print of the program:
  -- each node's token has the node's position, and each block stands between its brackets.
  pub parse_tokens-Ends :
      (ts : List (Token F))
      → IsEnded ts
      → Ends
          (λ ns. (e : Token F) × (e.kind ≡ eof) × (map mark ts ≡ print_nodes ns ++ mark e ∷ []))
          (parse_tokens ts)
  unfolding parse_tokens
  parse_tokens-Ends ts w =
      Ends-bind (sequence-Ends (suc (length ts)) true ts (omega arith) w)
        λ (ns, rest) (e, (t, q, k), l). value (t, k, rw q at e)
