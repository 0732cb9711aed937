-- ===== src/Coll/Words/Steps.antt =====
-- The steps that the words of collections share, on a machine in order.
use zown.Prelude.{
  ℕ, ◌≤◌, ◌<◌, ◌≡◌, Bool, true, false, List, [], ◌∷◌, Text, length, length-append, get_elem?,
  if◌then◌else◌, All, arith, Bool-cases, inl, inr,
}
use zown.Prelude.Outcome.{Outcome, ok, err, Ends, value, error}
use zown.Prelude.Action.{Keeps, gave, failed}
use zown.Buf.Lists.{get-All, set_elem?_lem}
use zown.Coll.Store.{Kind, CollStore}
use zown.Coll.Rows.{All-append}
use zown.Coll.Words.{
  Value, int, str, coll, other, Vm, Fault, push, pop, pop_from, coll_of, deref, excl, coll_live,
  write_store,
}
use zown.Coll.Words.Run.{push_coll, may_push, may_pop, check_push, check_pop}
use zown.Coll.Words.Order.{IsStore, IsValue, IsVm}
use zown.Coll.Words.Kept.{Anything}

-- The word ends without a panic in a machine in order, with a value that has `P`, or in a fault.
abbrev pub Safe : {A : Type 0} → (A → Vm → Type 0) → Vm × Outcome Fault A → Type 0
Safe P r = Keeps IsVm P r

abbrev pub Done : {A : Type 0} → A → Vm → Type 0
Done a v = Unit

abbrev pub Held : Value → Vm → Type 0
Held x v = IsValue (length v.heap) x

pub pop_from-Safe :
    (w : Text) (stack : List Value) (heap : List CollStore)
    → All IsStore heap
    → All (IsValue (length heap)) stack
    → Safe Held (pop_from w stack (record { stack = stack; heap = heap }))
pop_from-Safe w [] heap s h = failed (record { stores = s; values = h })
pop_from-Safe w (x ∷ xs) heap s h = gave (record { stores = s; values = h.1 }) h.0

pub pop-Safe : (w : Text) (v : Vm) → IsVm v → Safe Held (pop w v)
unfolding pop
pop-Safe w v h = pop_from-Safe w v.stack v.heap h.stores h.values

pub push-Safe : (x : Value) (v : Vm) → IsVm v → Held x v → Safe Done (push x v)
push-Safe x v h u = gave (record { stores = h.stores; values = (u, h.values) }) tt

IsValue-le : (m n : ℕ) (xs : List Value) → m ≤ n → All (IsValue m) xs → All (IsValue n) xs
IsValue-le m n [] le h = tt
IsValue-le m n (int i ∷ xs) le h = (h.0, IsValue-le m n xs le h.1)
IsValue-le m n (str s ∷ xs) le h = (tt, IsValue-le m n xs le h.1)
IsValue-le m n (coll r e ∷ xs) le h = (omega (arith, h.0), IsValue-le m n xs le h.1)
IsValue-le m n (other s ∷ xs) le h = (tt, IsValue-le m n xs le h.1)

pub push_coll-Safe : (s : CollStore) (v : Vm) → IsVm v → IsStore s → Safe Done (push_coll s v)
push_coll-Safe s v h u =
    let grown = length-append v.heap (s ∷ []) in
    gave
      (record {
        stores = All-append IsStore v.heap (s ∷ []) h.stores (u, tt);
        values = (
          omega (arith, grown),
          IsValue-le (length v.heap) _ v.stack (omega (arith, grown)) h.values,
        );
      })
      tt

pub write_store-Safe :
    (r : ℕ) (s : CollStore) (v : Vm)
    → IsVm v
    → r < length v.heap
    → IsStore s
    → Safe (λ _ w. length w.heap ≡ length v.heap) (write_store r s v)
write_store-Safe r s v h inside u =
    let (heap, e, size, at, rest, all) = set_elem?_lem v.heap r s inside in
    rw e (
      gave
        (record {
          stores = all IsStore u h.stores;
          values = IsValue-le (length v.heap) (length heap) v.stack (omega (arith, size)) h.values;
        })
        size)

pub coll_of-Ends :
    (m : ℕ) (w : Text) (stack : List Value) (heap : List CollStore)
    → All (IsValue m) stack
    → Ends (λ r. r.0 < m) (coll_of w stack heap)
coll_of-Ends m w [] heap h = error
coll_of-Ends m w (int n ∷ xs) heap h = error
coll_of-Ends m w (str s ∷ xs) heap h = error
coll_of-Ends m w (coll r e ∷ xs) heap h = value h.0
coll_of-Ends m w (other s ∷ xs) heap h = error

pub deref-Ends :
    (heap : List CollStore) (r : ℕ)
    → All IsStore heap
    → r < length heap
    → Ends IsStore (deref (get_elem? heap r))
deref-Ends heap r h inside = let (s, e, u) = get-All IsStore heap r h inside in rw e (value u)

unless-Ends :
    {E A : Type 0} {P : A → Type 0} (e : E) (b : Bool) (a : A)
    → P a
    → Ends P (if b then err e else ok a)
unless-Ends e true a p = error
unless-Ends e false a p = value p

pub coll_live-Ends : (w : Text) (s : CollStore) → IsStore s → Ends IsStore (coll_live w s)
coll_live-Ends w s h = unless-Ends _ s.freed s h

pub excl-Ends : (w : Text) (e : Bool) (s : CollStore) → IsStore s → Ends IsStore (excl w e s)
excl-Ends w true s h = coll_live-Ends w s h
excl-Ends w false s h = error

pub check_push-Ends : (kind : Kind) → Ends Anything (check_push kind)
check_push-Ends kind = elim (Bool-cases (may_push kind)) [
  | inl t ↦ rw t (value tt)
  | inr f ↦ rw f error
]

pub check_pop-Ends : (kind : Kind) → Ends Anything (check_pop kind)
check_pop-Ends kind = elim (Bool-cases (may_pop kind)) [
  | inl t ↦ rw t (value tt)
  | inr f ↦ rw f error
]
