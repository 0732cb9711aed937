-- ===== src/Lexer/Cursor.antt =====
-- The cursor as a function of the text before and behind it, and how the loops move it.
use zown.Prelude.{
  ℕ, ◌+◌, ◌-◌, ◌≡◌, refl, ap, ◌∙◌, Bool, [], ◌∷◌, ◌++◌, append_assoc, append-nil, Text, arith,
  length, length-append, take-append_length, ◌==◌, if◌then◌else◌, Bool-cases, inl, inr,
}
use zown.Syntax.{Pos}
use zown.Lexer.State.{Lexer, new, advance, skip_while, slice, u32}

-- Line feeds of a text.
unfoldable pub newlines : Text → ℕ
newlines [] = 0
newlines (c ∷ cs) = (if c == b'\n' then 1 else 0) + newlines cs

-- The column behind a text that begins in column `k`.
unfoldable pub column : ℕ → Text → ℕ
column k [] = k
column k (c ∷ cs) = column (if c == b'\n' then 1 else k + 1) cs

-- The place behind the text `before` of a source.
abbrev pub place : Text → Pos
place before = record {
  line = u32 (1 + newlines before);
  col = u32 (column 1 before);
  offset = length before;
}

abbrev pub cursor : Text → Text → Lexer
cursor before rest = record {
  rest = rest;
  i = length before;
  line = u32 (1 + newlines before);
  col = u32 (column 1 before);
}

newlines-snoc :
    (b : Text) (c : ℕ) → newlines (b ++ c ∷ []) ≡ newlines b + (if c == b'\n' then 1 else 0)
unfolding newlines
newlines-snoc [] c = omega arith
newlines-snoc (d ∷ b) c = omega (arith, newlines-snoc b c)

column-snoc :
    (b : Text) (k c : ℕ) → column k (b ++ c ∷ []) ≡ (if c == b'\n' then 1 else column k b + 1)
unfolding column
column-snoc [] k c = refl
column-snoc (d ∷ b) k c = column-snoc b _ c

pub advance-cursor :
    (c : ℕ) (cs b : Text) → advance c cs (cursor b (c ∷ cs)) ≡ cursor (b ++ c ∷ []) cs
unfolding advance
advance-cursor c cs b = rw (newlines-snoc, column-snoc, length-append) (ground arith)

pub new-cursor : (src : Text) → new src ≡ cursor [] src
unfolding newlines column
new-cursor src = refl

-- The longest run of characters in `p` at the front, and what is behind it.
abbrev pub run : (ℕ → Bool) → Text → Text
run p [] = []
run p (c ∷ cs) = if p c then c ∷ run p cs else []

abbrev pub behind : (ℕ → Bool) → Text → Text
behind p [] = []
behind p (c ∷ cs) = if p c then behind p cs else c ∷ cs

pub run-append-behind : (p : ℕ → Bool) (cs : Text) → run p cs ++ behind p cs ≡ cs
run-append-behind p [] = refl
run-append-behind p (c ∷ cs) = ground (arith, run-append-behind p cs)

pub skip_while-cursor :
    (p : ℕ → Bool) (cs b : Text)
    → skip_while p cs (cursor b cs) ≡ cursor (b ++ run p cs) (behind p cs)
unfolding skip_while
skip_while-cursor p [] b = rw (append-nil b)
skip_while-cursor p (c ∷ cs) b = elim (Bool-cases (p c)) [
  | inl e ↦
      rw (e, skip_while)
        (rw advance-cursor (
          skip_while-cursor p cs (b ++ c ∷ [])
          ∙ ap (λ t. cursor t (behind p cs)) (append_assoc b (c ∷ []) (run p cs))))
  | inr e ↦ rw (e, skip_while) (rw (append-nil b))
]

pub slice-cursor : (b x r : Text) → slice (cursor b (x ++ r)) (cursor (b ++ x) r) ≡ x
slice-cursor b x r =
    let n : length (b ++ x) - length b ≡ length x = omega (arith, length-append b x) in
    rw n (take-append_length x r)
