-- ===== src/Lexer/Took.antt =====
-- What a read takes off the source: the rules, and the loops of the lexer.
use zown.Prelude.{
  ℕ, ◌≡◌, refl, sym, ap, ◌∙◌, Bool, true, false, [], ◌∷◌, ◌++◌, append_assoc, append-nil, some,
  arith, Text, ◌==◌, if◌then◌else◌,
}
use zown.Prelude.Outcome.{ok, err}
use zown.Lexer.State.{LexError, LexMsg, Lexer, skip_while, slice, is_ident_start, is_ident_cont}
use zown.Lexer.Read.{Reads, unescape, string_loop, name_or}
use zown.Lexer.Cursor.{
  cursor, advance-cursor, run, behind, run-append-behind, skip_while-cursor, slice-cursor,
}
use zown.Lexer.Spelling.{all, is_name, unquote}

-- A read from the cursor behind `b`, with `rest` to come, failed, or took a text `x` off the rest
-- and gave a value that fits `x`.
pub data Took {A : Type 0} (P : Text → A → Type 0) (b rest : Text) : Reads A → Type 0 where
  took :
      {a : A} {l : Lexer} (x r : Text)
      → rest ≡ x ++ r
      → l ≡ cursor (b ++ x) r
      → P x a
      → Took P b rest (ok (a, l))
  fault : {e : LexError} → Took P b rest (err e)

module _ {A : Type 0} {P : Text → A → Type 0} {b rest : Text} where
  pub Took-if :
      (t : Bool) {m n : Reads A}
      → (t ≡ true → Took P b rest m)
      → (t ≡ false → Took P b rest n)
      → Took P b rest (if t then m else n)
  Took-if true h k = h refl
  Took-if false h k = k refl

-- A read that follows the text `y`.
pub Took-behind :
    {A : Type 0} {P Q : Text → A → Type 0} {b rest : Text} {m : Reads A} (y : Text)
    → ((x : Text) (a : A) → P x a → Q (y ++ x) a)
    → Took P (b ++ y) rest m
    → Took Q b (y ++ rest) m
Took-behind {b = b} y k (took {a} x r e l h) =
    took (y ++ x) r (ap (λ t. y ++ t) e ∙ sym (append_assoc y x r))
      (l ∙ ap (λ t. cursor t r) (append_assoc b y x)) (k x a h)
Took-behind y k fault = fault

pub Took-map :
    {A : Type 0} {P Q : Text → A → Type 0} {b rest : Text} {m : Reads A}
    → ((x : Text) (a : A) → P x a → Q x a)
    → Took P b rest m
    → Took Q b rest m
Took-map k (took {a} x r e l h) = took x r e l (k x a h)
Took-map k fault = fault

pub eq_of_test : (c d : ℕ) → (c == d) ≡ true → c ≡ d
eq_of_test c d h = ground arith

-- the text of a string behind its opening `$`
abbrev pub Quoted : Text → Text → Text → Type 0
Quoted buf x s =
    (raw : Text) × (t : Text) × (x ≡ raw ++ b'$' ∷ []) × (unquote raw ≡ some t) × (s ≡ buf ++ t)

unquote_escape :
    (c d : ℕ) (ds t : Text)
    → (c == b'\\') ≡ true
    → unquote ds ≡ some t
    → unquote (c ∷ d ∷ ds) ≡ some (unescape d ∷ t)
unfolding unquote
unquote_escape c d ds t e h = rw e (rw h)

unquote_plain :
    (c : ℕ) (ds t : Text)
    → (c == b'\\') ≡ false
    → (c == b'$') ≡ false
    → unquote ds ≡ some t
    → unquote (c ∷ ds) ≡ some (c ∷ t)
unfolding unquote
unquote_plain c [] t e n h = rw (e, n) (ground arith)
unquote_plain c (d ∷ ds) t e n h = rw (e, n) (rw h)

pub string_loop-Took : (cs buf b : Text) → Took (Quoted buf) b cs (string_loop cs buf (cursor b cs))
unfolding string_loop
string_loop-Took [] buf b = fault
string_loop-Took (c ∷ []) buf b =
    Took-if (c == b'$')
      (λ e.
        took (c ∷ []) [] refl (advance-cursor c [] b)
          ([], [], rw (eq_of_test c b'$' e), unfold unquote in refl, sym (append-nil buf)))
      (λ e. fault)
string_loop-Took (c ∷ d ∷ ds) buf b =
    Took-if (c == b'\\')
      (λ e. rw (advance-cursor c (d ∷ ds) b) (
        rw (advance-cursor d ds (b ++ c ∷ [])) (
          Took-behind (c ∷ []) (λ x a h. h)
            (Took-behind (d ∷ [])
              (λ x s (raw, t, p, q, r). (
                c ∷ d ∷ raw,
                unescape d ∷ t,
                rw p,
                unquote_escape c d raw t e q,
                rw r (append_assoc buf (unescape d ∷ []) t),
              ))
              (string_loop-Took ds (buf ++ unescape d ∷ []) ((b ++ c ∷ []) ++ d ∷ []))))))
      (λ n.
        Took-if (c == b'$')
          (λ e.
            took (c ∷ []) (d ∷ ds) refl (advance-cursor c (d ∷ ds) b)
              ([], [], rw (eq_of_test c b'$' e), unfold unquote in refl, sym (append-nil buf)))
          (λ e. rw (advance-cursor c (d ∷ ds) b) (
            Took-behind (c ∷ [])
              (λ x s (raw, t, p, q, r). (
                c ∷ raw,
                c ∷ t,
                rw p,
                unquote_plain c raw t n e q,
                rw r (append_assoc buf (c ∷ []) t),
              ))
              (string_loop-Took (d ∷ ds) (buf ++ c ∷ []) (b ++ c ∷ [])))))

pub all-run : (p : ℕ → Bool) (cs : Text) → all p (run p cs) ≡ true
all-run p [] = refl
all-run p (c ∷ cs) = ground (arith, all-run p cs)

pub slice-took :
    (b rest x r : Text) (l : Lexer)
    → rest ≡ x ++ r
    → l ≡ cursor (b ++ x) r
    → slice (cursor b rest) l ≡ x
slice-took b rest x r l e h = rw (e, h) (slice-cursor b x r)

-- the characters of `p` from a first one on
pub skip_while-Took :
    (p : ℕ → Bool) (c : ℕ) (cs b : Text)
    → p c ≡ true
    → let stop = skip_while p (c ∷ cs) (cursor b (c ∷ cs)) in
      Took
        (λ x s. (x ≡ s) × (x ≡ c ∷ run p cs))
        b
        (c ∷ cs)
        (ok (slice (cursor b (c ∷ cs)) stop, stop))
skip_while-Took p c cs b e =
    let x = run p (c ∷ cs) in
    let r = behind p (c ∷ cs) in
    let split : c ∷ cs ≡ x ++ r = sym (run-append-behind p (c ∷ cs)) in
    let stop = skip_while-cursor p (c ∷ cs) b in
    took x r split stop (sym (slice-took b _ x r _ split stop), rw e)

pub name_start : (c : ℕ) → is_ident_start c ≡ true → is_ident_cont c ≡ true
unfolding is_ident_cont
name_start c e = rw e

pub name_or-Took :
    (m : LexMsg) (cs b : Text)
    → Took (λ x s. (x ≡ s) × (is_name x ≡ true)) b cs (name_or m cs (cursor b cs))
unfolding name_or
name_or-Took m [] b = fault
name_or-Took m (c ∷ cs) b =
    Took-if (is_ident_start c)
      (λ e.
        Took-map (λ x s (p, q). (p, rw q (rw (e, all-run is_ident_cont cs))))
          (skip_while-Took is_ident_cont c cs b (name_start c e)))
      (λ e. fault)
