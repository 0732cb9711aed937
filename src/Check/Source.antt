-- ===== src/Check/Source.antt =====
-- `check_src` on any source, and the text of findings.
use zown.Prelude.{List, [], ◌∷◌, ◌++◌, Option, Text, text, ◌≡◌, ◌↔◌, refl}
use zown.Prelude.Outcome.{Ends, value, Ends-bind}
use zown.Syntax.{Nodes, Token}
use zown.Lexer.Spelling.{Tokenizes}
use zown.Parser.Complete.{PrintOf}
use zown.Parser.Source.{parse-Ends}
use zown.Check.State.{
  Diag, Code, code_text, spaced, all_lines, name_unresolved, cap_denied, bad_pattern, no_match,
  type_mismatch, render_lines,
}
use zown.Check.Walk.{check_src}
use zown.Check.Known.{NamesOk}
use zown.Check.Names.{check-NamesOk}

module _ {F : Type 0} (parse_f64 : Text → F) where
  -- Checking ends on every source, with no index out of range: in an error of the lexer or the
  -- parser, or in the findings of a program whose print covers the source. If there is no finding,
  -- each name that runs there is bound, a builtin, or a word that unbound `wd` defines before it,
  -- and each name moved out is bound.
  pub check_src-Ends :
      (src : Text) (file : Option Text)
      → Ends
          (λ ds.
            (ns : Nodes F) × (ts : List (Token F)) × Tokenizes parse_f64 [] src ts
            × PrintOf ns ts
            × (ds ≡ [] → NamesOk ns))
          (check_src parse_f64 src file)
  unfolding check_src
  check_src-Ends src file =
      Ends-bind (parse-Ends parse_f64 src)
        (λ ns (ts, t, p). value (ns, ts, t, p, check-NamesOk ns file))

code_starts : (k : Code) (a b c d : Text) → ¬ (code_text k ++ a ++ b ++ c ++ d ≡ text "ok\n")
code_starts name_unresolved a b c d e = cc
code_starts cap_denied a b c d e = cc
code_starts bad_pattern a b c d e = cc
code_starts no_match a b c d e = cc
code_starts type_mismatch a b c d e = cc

-- The report is `ok` exactly if there are no findings.
pub render_lines-eq-ok_iff : (ds : List Diag) → (render_lines ds ≡ text "ok\n") ↔ (ds ≡ [])
unfolding render_lines
render_lines-eq-ok_iff ds = (silent ds, λ e. rw e refl)
  where
    silent : (ds : List Diag) → render_lines ds ≡ text "ok\n" → ds ≡ []
    silent [] e = refl
    silent (d ∷ ds) e =
        absurd
          (code_starts d.code (spaced d.word) (spaced d.cap_name) (b'\n' ∷ []) (all_lines ds) e)
