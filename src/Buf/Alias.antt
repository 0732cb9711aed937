-- ===== src/Buf/Alias.antt =====
-- Buf: several values of one allocation, its owner and the borrows.
use zown.Prelude.{
  eq-or-ne, ℕ, ◌<◌, ◌≡◌, ◌≢◌, refl, ap, sym, ◌∙◌, Bool, true, false, List, ◌∷◌, none, some, text,
  length, get_elem?, arith, ltb, ◌==◌, if◌then◌else◌, inl, inr,
}
use mathlib.Core.Path.{subst}
use zown.Prelude.Int.{ℤ, pos}
use zown.Prelude.Outcome.{ok, err}
use zown.Buf.{
  Value, int, buf, Alloc, Vm, bounds, was_freed, bg, bp, drop, run, b_bg, b_bp, pop_buf_int, pop,
  last_buffer, op_drop, write_alloc, borrow, deref, set_elem?,
}
use zown.Buf.Lists.{get-All, set_elem?_lem}
use zown.Buf.Safe.{IsVm, IsAlloc}

abbrev pub vm : List Value → List Alloc → Vm
vm s m = record { stack = s; heap = m }

abbrev pub holds : List ℕ → ℕ → Alloc
holds d n = record { data_ = some d; n = n }

in_range_lt : (i n : ℕ) → i < n → ltb i n ≡ true
in_range_lt i n h = ground arith

borrow_lem : (v : Vm) (r : ℕ) (a : Alloc) → get_elem? v.heap r ≡ some a → borrow r v ≡ (v, ok a)
borrow_lem v r a at = ap (λ o. deref o v) at

byte_fits : (b : ℕ) → b < 256 → ltb 255 b ≡ false
byte_fits b h = ground arith

bg-live :
    (t : List Value) (m : List Alloc) (r : ℕ) (e : Bool) (d : List ℕ) (n i b : ℕ)
    → get_elem? m r ≡ some (holds d n)
    → i < length d
    → get_elem? d i ≡ some b
    → run bg (vm (int (pos i) ∷ buf r e ∷ t) m) ≡ (vm (int (pos b) ∷ buf r e ∷ t) m, ok tt)
unfolding b_bg pop_buf_int pop last_buffer
bg-live t m r e d n i b at lt byte =
    rw
      (
        borrow_lem (vm (buf r e ∷ t) m) r _ at,
        in_range_lt i (length d) lt,
        byte,
        borrow_lem (vm (buf r e ∷ t) m) r _ at,
      )
      refl

write_alloc_lem :
    (s : List Value) (m : List Alloc) (r : ℕ) (a : Alloc)
    → r < length m
    → (m' : List Alloc) × (write_alloc r a (vm s m) ≡ (vm s m', ok tt))
      × (get_elem? m' r ≡ some a)
      × ((q : ℕ) → q ≢ r → get_elem? m' q ≡ get_elem? m q)
write_alloc_lem s m r a lt =
    let (m', e, l, g, o, p) = set_elem?_lem m r a lt in (m', rw e refl, g, o)

bp-live :
    (s : List Value) (m : List Alloc) (r : ℕ) (d d' : List ℕ) (n i b : ℕ)
    → get_elem? m r ≡ some (holds d n)
    → i < n
    → b < 256
    → set_elem? d i b ≡ some d'
    → run bp (vm (int (pos b) ∷ int (pos i) ∷ buf r true ∷ s) m)
      ≡ write_alloc r (holds d' n) (vm (buf r true ∷ s) m)
unfolding b_bp pop_buf_int pop last_buffer
bp-live s m r d d' n i b at lt small set =
    rw
      (
        byte_fits b small,
        borrow_lem (vm (buf r true ∷ s) m) r _ at,
        in_range_lt i n lt,
        set,
        borrow_lem (vm (buf r true ∷ s) m) r _ at,
      )
      refl

if_self : (i b c : ℕ) → b ≡ (if i == i then b else c)
if_self i b c = ground arith

if_other : (i j b c : ℕ) → j ≢ i → c ≡ (if j == i then b else c)
if_other i j b c ne = ground arith

bg-freed :
    (t : List Value) (m : List Alloc) (r : ℕ) (e : Bool) (i : ℤ) (n : ℕ)
    → get_elem? m r ≡ some (record { data_ = none; n = n })
    → run bg (vm (int i ∷ buf r e ∷ t) m)
      ≡ (vm (buf r e ∷ t) m, err (record { code = bounds; msg = was_freed; word = text "bg" }))
unfolding b_bg pop_buf_int pop last_buffer
bg-freed t m r e i n now = let at = borrow_lem (vm (buf r e ∷ t) m) r _ now in rw (at, at) refl

bp-freed :
    (t : List Value) (m : List Alloc) (r : ℕ) (i : ℤ) (b n : ℕ)
    → get_elem? m r ≡ some (record { data_ = none; n = n })
    → b < 256
    → run bp (vm (int (pos b) ∷ int i ∷ buf r true ∷ t) m)
      ≡ (vm (buf r true ∷ t) m, err (record { code = bounds; msg = was_freed; word = text "bp" }))
unfolding b_bp pop_buf_int pop last_buffer
bp-freed t m r i b n now small =
    let at = borrow_lem (vm (buf r true ∷ t) m) r _ now in rw (byte_fits b small, at, at) refl

-- a drop of an owner, with the heap after it
freed :
    (s : List Value) (m : List Alloc) (r : ℕ)
    → IsVm false (vm (buf r true ∷ s) m)
    → (m' : List Alloc) × (run drop (vm (buf r true ∷ s) m) ≡ (vm s m', ok tt))
      × ((n : ℕ) × (get_elem? m' r ≡ some (record { data_ = none; n = n })))
      × ((q : ℕ) → q ≢ r → get_elem? m' q ≡ get_elem? m q)
unfolding pop op_drop
freed s m r h =
    let (a, at, p) = get-All IsAlloc m r h.allocs h.refs.0 in
    let (m', put, now, rest) = write_alloc_lem s m r (record { data_ = none; n = a.n }) h.refs.0 in
    (m', rw (borrow_lem (vm s m) r a at, borrow_lem (vm s m) r a at) put, (a.n, now), rest)

-- a write in range, with the heap after it
wrote :
    (s : List Value) (m : List Alloc) (r : ℕ) (d : List ℕ) (n i b : ℕ)
    → r < length m
    → get_elem? m r ≡ some (holds d n)
    → length d ≡ n
    → i < n
    → b < 256
    → (m' : List Alloc) × (d' : List ℕ) × (run bp
          (vm (int (pos b) ∷ int (pos i) ∷ buf r true ∷ s) m)
        ≡ (vm (buf r true ∷ s) m', ok tt))
      × (get_elem? m' r ≡ some (holds d' n))
      × (length d' ≡ n)
      × ((j c : ℕ) → get_elem? d j ≡ some c → get_elem? d' j ≡ some (if j == i then b else c))
      × ((q : ℕ) → q ≢ r → get_elem? m' q ≡ get_elem? m q)
wrote s m r d n i b here at same lt small =
    let (d', set, l, byte, others, p) = set_elem?_lem d i b (omega (arith, lt, same)) in
    let (m', put, now, rest) = write_alloc_lem (buf r true ∷ s) m r (holds d' n) here in
    let bytes : (j c : ℕ)
        → get_elem? d j ≡ some c
        → get_elem? d' j ≡ some (if j == i then b else c) =
      λ j c e. elim (eq-or-ne j i) [
        | inl eq ↦
            subst (λ k. get_elem? d' k ≡ some (if k == i then b else c)) (sym eq)
              (byte ∙ ap some (if_self i b c))
        | inr ne ↦ others j ne ∙ e ∙ ap some (if_other i j b c ne)
      ] in
    (m', d', bp-live s m r d d' n i b at lt small set ∙ put, now, l ∙ same, bytes, rest)

-- Of an allocation in the heap that is live and holds as many bytes as it says, a byte below 256
-- that is written through the owner at an index in range is what any of its values then reads at
-- that index; another index in range reads the byte that it held, and another allocation is left
-- as it is.
pub bp-then-bg :
    (s t : List Value) (m : List Alloc) (r q : ℕ) (e : Bool) (d : List ℕ) (n i j b c : ℕ)
    → r < length m
    → get_elem? m r ≡ some (holds d n)
    → length d ≡ n
    → i < n
    → j < n
    → b < 256
    → get_elem? d j ≡ some c
    → q ≢ r
    → let after = run bp (vm (int (pos b) ∷ int (pos i) ∷ buf r true ∷ s) m) in
      (after ≡ (vm (buf r true ∷ s) after.0.heap, ok tt))
      × (run bg (vm (int (pos j) ∷ buf r e ∷ t) after.0.heap)
          ≡ (vm (int (pos (if j == i then b else c)) ∷ buf r e ∷ t) after.0.heap, ok tt))
      × (get_elem? after.0.heap q ≡ get_elem? m q)
bp-then-bg s t m r q e d n i j b c here at same lt jn small was ne =
    let (m', d', run_eq, now, l, bytes, rest) = wrote s m r d n i b here at same lt small in
    rw run_eq
      (refl, bg-live t m' r e d' n j _ now (omega (arith, jn, l)) (bytes j c was), rest q ne)

-- From a machine in which no reference dangles and live data has its length, `,` on an owner frees
-- its allocation and leaves another as it is: a read through any value of the freed one, and a
-- write of a byte below 256 through its owner, then are faults.
pub drop-then-freed :
    (s t : List Value) (m : List Alloc) (r q : ℕ) (e : Bool) (i : ℤ) (b : ℕ)
    → IsVm false (vm (buf r true ∷ s) m)
    → b < 256
    → q ≢ r
    → let after = run drop (vm (buf r true ∷ s) m) in
      (after ≡ (vm s after.0.heap, ok tt))
      × (run bg (vm (int i ∷ buf r e ∷ t) after.0.heap) ≡ (
        vm (buf r e ∷ t) after.0.heap,
        err (record { code = bounds; msg = was_freed; word = text "bg" }),
      ))
      × (run bp (vm (int (pos b) ∷ int i ∷ buf r true ∷ t) after.0.heap) ≡ (
        vm (buf r true ∷ t) after.0.heap,
        err (record { code = bounds; msg = was_freed; word = text "bp" }),
      ))
      × (get_elem? after.0.heap q ≡ get_elem? m q)
drop-then-freed s t m r q e i b h small ne =
    let (m', run_eq, (a, now), rest) = freed s m r h in
    rw run_eq (refl, bg-freed t m' r e i a now, bp-freed t m' r i b a now small, rest q ne)
