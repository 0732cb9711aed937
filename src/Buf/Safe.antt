-- ===== src/Buf/Safe.antt =====
-- Buf: what a machine in order is, and the actions that the words share.
use zown.Prelude.{
  Bool, true, false, get_elem?, if◌then◌else◌, ◌==◌, ◌+◌, ◌≢◌, Bool-cases, ℕ, zero, suc, ◌≤◌, ◌<◌,
  ◌≡◌, ◌∙◌, List, [], ◌∷◌, ◌++◌, Option, none, some, Text, length, length-append, All, arith, ltb,
  Bool-cases, inl, inr,
}
use mathlib.Core.Path.{subst}
use zown.Prelude.Int.{ℤ, pos, negsuc}
use zown.Prelude.Outcome.{Outcome, ok, err}
use zown.Buf.{
  Value, int, buf, res, other, Alloc, Vm, Fault, Action, continue, pop_from, pop, as_int,
  pop_buf_int, buf_max, zeroed, sized, b_bf, buffer_of, last_buffer, borrow, range_fault,
}
use zown.Buf.Lists.{get-snoc, length-zeroed, zeroed-bytes, All-snoc, get-All}

-- Live data has the length that was asked for, and bytes.
abbrev pub IsData : Option (List ℕ) → ℕ → Type 0
IsData none n = Unit
IsData (some d) n = (length d ≡ n) × All (λ b. b < 256) d

abbrev pub IsAlloc : Alloc → Type 0
IsAlloc a = IsData a.data_ a.n

abbrev pub IsRef : ℕ → Value → Type 0
IsRef m (buf r e) = r < m
IsRef m (res o x) = IsRef m x
IsRef m (int n) = Unit
IsRef m (other s) = Unit

abbrev pub owns : ℕ → Value → ℕ
owns r (buf q true) = if q == r then 1 else 0
owns r (buf q false) = 0
owns r (res o x) = owns r x
owns r (int n) = 0
owns r (other s) = 0

abbrev pub owners : ℕ → List Value → ℕ
owners r [] = 0
owners r (x ∷ xs) = owns r x + owners r xs

-- no result holds an owner
abbrev pub IsShared : Value → Type 0
IsShared (buf r e) = e ≡ false
IsShared (res o x) = IsShared x
IsShared (int n) = Unit
IsShared (other s) = Unit

abbrev pub IsPlain : Value → Type 0
IsPlain (res o x) = IsShared x
IsPlain (buf r e) = Unit
IsPlain (int n) = Unit
IsPlain (other s) = Unit

abbrev pub lives : Option (List ℕ) → ℕ
lives none = 0
lives (some d) = 1

abbrev pub live : Option Alloc → ℕ
live none = 0
live (some a) = lives a.data_

-- No result holds an owner, and an allocation has one owner at most, and none once it is freed.
pub record IsOwned (v : Vm) : Type 0 where
  pub plain : All IsPlain v.stack
  pub owned : (r : ℕ) → owners r v.stack ≤ live (get_elem? v.heap r)

-- No reference dangles, and live data has its length. If the owners are counted as well, `strict`,
-- there is one at most.
pub record IsVm (strict : Bool) (v : Vm) : Type 0 where
  pub allocs : All IsAlloc v.heap
  pub refs : All (IsRef (length v.heap)) v.stack
  pub owners_ok : strict ≡ true → IsOwned v

-- the owners with a value that was taken from the stack
pub record IsOwnedWith (x : Value) (v : Vm) : Type 0 where
  pub plain : IsPlain x
  pub own : (r : ℕ) → owners r (x ∷ v.stack) ≤ live (get_elem? v.heap r)

-- A value that was taken from the stack of a machine in order.
pub record Held (strict : Bool) (x : Value) (v : Vm) : Type 0 where
  pub ref : IsRef (length v.heap) x
  pub own : strict ≡ true → IsOwnedWith x v

-- The run leaves the machine in order; it gives a value with `P`, or a fault.
pub data Safe {A : Type 0} (strict : Bool) (P : A → Vm → Type 0)
    : Vm × Outcome Fault A → Type 0 where
  done : {v : Vm} {a : A} → IsVm strict v → P a v → Safe strict P (v, ok a)
  faulted : {v : Vm} {e : Fault} → IsVm strict v → Safe strict P (v, err e)

abbrev pub Anything : {A : Type 0} → A → Vm → Type 0
Anything a v = Unit

pub IsRef-le : (m k : ℕ) (xs : List Value) → m ≤ k → All (IsRef m) xs → All (IsRef k) xs
IsRef-le m k [] le a = tt
IsRef-le m k (int n ∷ xs) le a = (tt, IsRef-le m k xs le a.1)
IsRef-le m k (res o x ∷ xs) le a =
    let (first, others) = IsRef-le m k (x ∷ xs) le a in (first, others)
IsRef-le m k (buf r e ∷ xs) le a = (omega (arith, a.0), IsRef-le m k xs le a.1)
IsRef-le m k (other s ∷ xs) le a = (tt, IsRef-le m k xs le a.1)

owns-le : (r q : ℕ) → owns r (buf q true) ≤ 1
owns-le r q = ground arith

pub owns_self : (r : ℕ) → owns r (buf r true) ≡ 1
owns_self r = ground arith

pub owns-other : (r q : ℕ) → r ≢ q → owns r (buf q true) ≡ 0
owns-other r q n = ground arith

-- the owners once there is a new allocation, with an owner
owned-snoc :
    (r : ℕ) (m : List Alloc) (d : List ℕ) (n : ℕ) (s : List Value)
    → owners r s ≤ live (get_elem? m r)
    → owners r (buf (length m) true ∷ s)
      ≤ live (get_elem? (m ++ record { data_ = some d; n = n } ∷ []) r)
owned-snoc r m d n s h = elim (get-snoc m (record { data_ = some d; n = n }) r) [
  | inl new ↦
      let none_yet : owners r s ≤ 0 = subst (λ o. owners r s ≤ live o) new.1 h in
      rw new.2 (omega (arith, owns-le r (length m), none_yet))
  | inr old ↦ rw (old.1, owns-other r (length m) old.0) (omega (arith, h))
]

without :
    (x : Value) (xs : List Value) (m : List Alloc)
    → IsOwned (record { stack = x ∷ xs; heap = m })
    → IsOwned (record { stack = xs; heap = m })
without x xs m o = record { plain = o.plain.1; owned = λ r. omega (arith, o.owned r) }

with_top :
    (x : Value) (xs : List Value) (m : List Alloc)
    → IsOwned (record { stack = x ∷ xs; heap = m })
    → IsOwnedWith x (record { stack = xs; heap = m })
with_top x xs m o = record { plain = o.plain.0; own = o.owned }

module _ {strict : Bool} where
  pub Safe-continue :
      {A B : Type 0} {P : A → Vm → Type 0} {Q : B → Vm → Type 0} {m : Vm × Outcome Fault A}
      {k : A → Action B}
      → Safe strict P m
      → ((a : A) (v : Vm) → IsVm strict v → P a v → Safe strict Q (k a v))
      → Safe strict Q (continue m k)
  Safe-continue (done {v} {a} h p) k = k a v h p
  Safe-continue (faulted h) k = faulted h

  pub pop-Safe : (w : Text) (v : Vm) → IsVm strict v → Safe strict (Held strict) (pop w v)
  unfolding pop
  pop-Safe w v h = go v.stack v.heap h
    where
      go :
          (s : List Value) (m : List Alloc)
          → IsVm strict (record { stack = s; heap = m })
          → Safe strict (Held strict) (pop_from w s (record { stack = s; heap = m }))
      go [] m h = faulted h
      go (x ∷ xs) m h =
          done
            (record {
              allocs = h.allocs;
              refs = h.refs.1;
              owners_ok = λ s. without x xs m (h.owners_ok s);
            })
            (record { ref = h.refs.0; own = λ s. with_top x xs m (h.owners_ok s) })

  pub as_int-Safe :
      (w what : Text) (x : Value) (v : Vm)
      → IsVm strict v
      → Safe strict Anything (as_int w what x v)
  as_int-Safe w what (int n) v h = done h tt
  as_int-Safe w what (buf r e) v h = faulted h
  as_int-Safe w what (res o x) v h = faulted h
  as_int-Safe w what (other s) v h = faulted h

  pub pop_buf_int-Safe :
      (w what : Text) (v : Vm) → IsVm strict v → Safe strict Anything (pop_buf_int w what v)
  unfolding pop_buf_int
  pop_buf_int-Safe w what v h = Safe-continue (pop-Safe w v h) (λ x v h _. as_int-Safe w what x v h)

  pub sized-Safe : (i : ℤ) (v : Vm) → IsVm strict v → Safe strict Anything (sized i v)
  sized-Safe (negsuc k) v h = faulted h
  sized-Safe (pos n) v h = elim (Bool-cases (ltb buf_max n)) [
    | inl t ↦ rw t (faulted h)
    | inr f ↦
        let grown : length (v.heap ++ record { data_ = some (zeroed n); n = n } ∷ [])
            ≡ suc (length v.heap) =
          length-append v.heap _ ∙ omega arith in
        rw f (
          done
            (record {
              allocs = All-snoc IsAlloc v.heap _ h.allocs (length-zeroed n, zeroed-bytes n);
              refs = (
                omega (arith, grown),
                IsRef-le (length v.heap) _ v.stack (omega (arith, grown)) h.refs,
              );
              owners_ok = λ s.
                  let o = h.owners_ok s in
                  record {
                    plain = (tt, o.plain);
                    owned = λ r. owned-snoc r v.heap (zeroed n) n v.stack (o.owned r);
                  };
            })
            tt)
  ]

  pub b_bf-Safe : (v : Vm) → IsVm strict v → Safe strict Anything (b_bf v)
  unfolding b_bf
  b_bf-Safe v h = Safe-continue (pop_buf_int-Safe _ _ v h) (λ i v h _. sized-Safe i v h)

  pub last_buffer-Safe :
      (w : Text) (v : Vm)
      → IsVm strict v
      → Safe strict (λ r v. r.0 < length v.heap) (last_buffer w v)
  unfolding last_buffer
  last_buffer-Safe w v h = go v.stack v.heap h
    where
      go :
          (s : List Value) (m : List Alloc)
          → IsVm strict (record { stack = s; heap = m })
          → Safe strict
              (λ r v. r.0 < length v.heap)
              (buffer_of w s (record { stack = s; heap = m }))
      go [] m h = faulted h
      go (int n ∷ xs) m h = faulted h
      go (res o x ∷ xs) m h = faulted h
      go (other s ∷ xs) m h = faulted h
      go (buf r e ∷ xs) m h = done h h.refs.0

  pub borrow-Safe :
      (r : ℕ) (v : Vm)
      → IsVm strict v
      → r < length v.heap
      → Safe strict (λ a v. IsAlloc a × (r < length v.heap)) (borrow r v)
  borrow-Safe r v h lt =
      let (a, e, p) = get-All IsAlloc v.heap r h.allocs lt in rw e (done h (p, lt))

  pub range_fault-Safe :
      {A : Type 0} (w : Text) (i : ℤ) (n : ℕ) (v : Vm)
      → IsVm strict v
      → Safe {A = A} strict Anything (range_fault w i n v)
  range_fault-Safe w i zero v h = faulted h
  range_fault-Safe w i (suc n) v h = faulted h
