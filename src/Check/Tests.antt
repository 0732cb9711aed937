-- ===== src/Check/Tests.antt =====
-- Concrete runs of the checker, and its theorems at concrete inputs.
use zown.Prelude.{true, false, List, [], none, Text, text, ◌≡◌, ◌↔◌, refl}
use zown.Prelude.Int.{pos}
use zown.Prelude.Outcome.{Ends}
use zown.Syntax.{Nodes, Token, no_pos, node, nil, cons, int, str, blk, name, bind, move}
use zown.Lexer.Spelling.{Tokenizes}
use zown.Parser.Complete.{PrintOf}
use zown.Check.Sets.{contains, insert, remove}
use zown.Check.Words.{is_builtin, builtins, host_cap, wd_name}
use zown.Check.State.{
  diag, new, render_lines, collect_binds, uses_word, scan_free_caps, collect_offers,
}
use zown.Check.Visit.{visit_name, resolve, define, visit_move}
use zown.Check.Walk.{use_of, walk, check, check_src}
use zown.Check.Binds.{binds}
use zown.Check.Known.{NamesIn, NamesOk}
use zown.Check.Names.{check-NamesOk}
use zown.Check.Source.{check_src-Ends, render_lines-eq-ok_iff}

abbrev parse_text : Text → Text
parse_text s = s

-- `5 :x x 'x`
abbrev tidy : Nodes Text
tidy = cons (node (int (pos 5)) no_pos) (
    cons (node (bind (text "x")) no_pos)
      (cons (node (name (text "x")) no_pos) (cons (node (move (text "x")) no_pos) nil)))

-- `5 :x 'x x`: the name is moved out before it runs
abbrev moved_away : Nodes Text
moved_away = cons (node (int (pos 5)) no_pos) (
    cons (node (bind (text "x")) no_pos)
      (cons (node (move (text "x")) no_pos) (cons (node (name (text "x")) no_pos) nil)))

moved_away-reported : render_lines (check moved_away (new none)) ≡ text "NAME_UNRESOLVED x\n"
unfolding check walk collect_binds uses_word scan_free_caps collect_offers visit_name resolve define
    visit_move contains insert remove is_builtin builtins host_cap diag render_lines
moved_away-reported = refl

tidy-clean : check tidy (new none) ≡ []
unfolding check walk collect_binds uses_word scan_free_caps collect_offers visit_name resolve define
    visit_move contains insert remove is_builtin builtins host_cap diag
tidy-clean = refl

-- `[ 5 ] $foo$ wd foo 'x`, with `:x` before it
abbrev defining : Nodes Text
defining = cons (node (int (pos 7)) no_pos) (
    cons (node (bind (text "x")) no_pos) (
      cons (node (blk (cons (node (int (pos 5)) no_pos) nil)) no_pos) (
        cons (node (str (text "foo")) no_pos) (
          cons (node (name (text "wd")) no_pos)
            (cons (node (name (text "foo")) no_pos) (cons (node (move (text "x")) no_pos) nil))))))

defining-clean : check defining (new none) ≡ []
unfolding check walk collect_binds uses_word scan_free_caps collect_offers visit_name resolve define
    visit_move contains insert remove is_builtin builtins host_cap diag use_of wd_name
defining-clean = refl

-- `5 :wd $foo$ wd foo`: where `wd` is bound it defines no word
abbrev shadowing : Nodes Text
shadowing = cons (node (int (pos 5)) no_pos) (
    cons (node (bind (text "wd")) no_pos) (
      cons (node (str (text "foo")) no_pos)
        (cons (node (name (text "wd")) no_pos) (cons (node (name (text "foo")) no_pos) nil))))

shadowing-reported : render_lines (check shadowing (new none)) ≡ text "NAME_UNRESOLVED foo\n"
unfolding check walk collect_binds uses_word scan_free_caps collect_offers visit_name resolve define
    visit_move contains insert remove is_builtin builtins host_cap diag render_lines
shadowing-reported = refl

-- `foo $foo$ wd`: the word stands before it is defined
abbrev early : Nodes Text
early =
    cons (node (name (text "foo")) no_pos)
      (cons (node (str (text "foo")) no_pos) (cons (node (name (text "wd")) no_pos) nil))

early-not_NamesOk : ¬ NamesOk early
unfolding NamesIn binds contains is_builtin builtins
early-not_NamesOk h = let unknown : false ≡ true = h.0 in cc

check-NamesOk_example : NamesOk defining
check-NamesOk_example = check-NamesOk defining none defining-clean

check_src-Ends_example :
    Ends
      (λ ds.
        (ns : Nodes Text) × (ts : List (Token Text)) × Tokenizes parse_text []
          (text "[ $a$ ] :f f @ q")
          ts
        × PrintOf ns ts
        × (ds ≡ [] → NamesOk ns))
      (check_src parse_text (text "[ $a$ ] :f f @ q") none)
check_src-Ends_example = check_src-Ends parse_text (text "[ $a$ ] :f f @ q") none

render_lines-eq-ok_iff_example :
    (render_lines (check moved_away (new none)) ≡ text "ok\n") ↔ (check moved_away (new none) ≡ [])
render_lines-eq-ok_iff_example = render_lines-eq-ok_iff (check moved_away (new none))
