-- ===== src/Prelude/Action.antt =====
-- Runs that change a state, also where they end in a fault.
use zown.Prelude.Outcome.{Outcome, ok, err, panic, out_of_fuel, Ends, value, error}

abbrev pub Action : Type 0 → Type 0 → Type 0 → Type 0
Action V E A = V → V × Outcome E A

module _ {V E A B : Type 0} where
  abbrev pub continue : V × Outcome E A → (A → Action V E B) → V × Outcome E B
  continue (v, ok a) k = k a v
  continue (v, err e) k = (v, err e)
  continue (v, panic) k = (v, panic)
  continue (v, out_of_fuel) k = (v, out_of_fuel)

  infixl 5 ◌>>=◌
  abbrev pub ◌>>=◌ : Action V E A → (A → Action V E B) → Action V E B
  (m >>= k) v = continue (m v) k

abbrev pub pure : {V E A : Type 0} → A → Action V E A
pure a v = (v, ok a)

abbrev pub panicked : {V E A : Type 0} → Action V E A
panicked v = (v, panic)

-- a run that reads nothing of the state and leaves it
abbrev pub lift : {V E A : Type 0} → Outcome E A → Action V E A
lift o v = (v, o)

-- The run ends, and does not panic. It leaves a state with `I`; it gives a value with `P`, or an
-- error.
pub data Keeps {V E A : Type 0} (I : V → Type 0) (P : A → V → Type 0)
    : V × Outcome E A → Type 0 where
  gave : {v : V} {a : A} → I v → P a v → Keeps I P (v, ok a)
  failed : {v : V} {e : E} → I v → Keeps I P (v, err e)

module _ {V E A B : Type 0} {I : V → Type 0} {Q : B → V → Type 0} where
  pub Keeps-continue :
      {P : A → V → Type 0} {m : V × Outcome E A} {k : A → Action V E B}
      → Keeps I P m
      → ((a : A) (v : V) → I v → P a v → Keeps I Q (k a v))
      → Keeps I Q (continue m k)
  Keeps-continue (gave {v} {a} h p) k = k a v h p
  Keeps-continue (failed h) k = failed h

  -- a step that leaves the state as it is
  pub Keeps-reading :
      {P : A → Type 0} {o : Outcome E A} {v : V} (k : A → Action V E B)
      → I v
      → Ends P o
      → ((a : A) → P a → Keeps I Q (k a v))
      → Keeps I Q (continue (v, o) k)
  Keeps-reading k h (value {a} p) next = next a p
  Keeps-reading k h error next = failed h
