-- ===== src/Coll/Heap/Refines.antt =====
-- The heap as a list of its entries in ascending order.
use mathlib.Core.List.{Perm, mem-cons_self, not-mem-nil}
use mathlib.Core.List.Perm
use zown.Prelude.{
  eq-or-ne, ap, ◌∙◌, ℕ, zero, suc, ◌-◌, ◌≤◌, ◌<◌, ◌≡◌, refl, true, false, List, [], ◌∷◌, ◌++◌, some,
  length, length-append, arith, if◌then◌else◌, All, Bool-cases, inl, inr,
}
use mathlib.Core.Path.{subst}
use native.Mathlib.Bridge.{le_prop}
use zown.Coll.Arrays.{at, at-append, at-append_length}
use zown.Prelude.Int.{ℤ, pos, ◌+ℤ◌}
use zown.BigInt.Word.{fits_i64}
use zown.Coll.Store.{Entry, CollStore}
use zown.Coll.Heap.{compare_entry, below, parent, heap_push, pop_last, refill, heap_pop, wrap_i64}
use zown.Coll.Heap.Rank.{
  IsEntry, rank, key, origin, AreEntries, IsHeap, compare-rank, root-least, at-All, All-at,
  IsEntry-IsProp, rank_inj,
}
use zown.Coll.Perms.{All-Mem, All-Perm}
use zown.Coll.Heap.Up.{UpInv, up_loop_lem}
use zown.Coll.Heap.Down.{down_loop_lem}

-- the abstract queue: entries in ascending order
abbrev pub place : Entry → List Entry → List Entry
place x [] = x ∷ []
place x (y ∷ ys) = if below (compare_entry x y) then x ∷ y ∷ ys else y ∷ place x ys

abbrev pub Ascending : List Entry → Type 0
Ascending [] = Unit
Ascending (x ∷ xs) = All (λ y. rank x ≤ rank y) xs × Ascending xs

-- `heap` is a heap with the entries of the queue `q`.
pub record Represents (heap q : List Entry) : Type 0 where
  pub ordered : IsHeap heap
  pub entries : All IsEntry q
  pub same : Perm heap q
  pub ascending : Ascending q

pub place-Perm : (x : Entry) (q : List Entry) → Perm (place x q) (x ∷ q)
place-Perm x [] = Perm.rfl
place-Perm x (y ∷ ys) = elim (Bool-cases (below (compare_entry x y))) [
  | inl t ↦ rw t Perm.rfl
  | inr f ↦ rw f (Perm.trans (Perm.cons y (place-Perm x ys)) (Perm.swap x y ys))
]

not_below :
    (x y : Entry) → IsEntry x → IsEntry y → below (compare_entry x y) ≡ false → rank y ≤ rank x
not_below x y u v h = let e = compare-rank x y u v in ground (arith, rw e at h)

is_below :
    (x y : Entry) → IsEntry x → IsEntry y → below (compare_entry x y) ≡ true → rank x ≤ rank y
is_below x y u v h = let e = compare-rank x y u v in ground (arith, rw e at h)

above_all :
    (x y : Entry) (ys : List Entry)
    → rank x ≤ rank y
    → All (λ z. rank y ≤ rank z) ys
    → All (λ z. rank x ≤ rank z) ys
above_all x y [] h a = tt
above_all x y (z ∷ zs) h a = (omega (arith, h, a.0), above_all x y zs h a.1)

place-All : (P : Entry → Type 0) (x : Entry) (q : List Entry) → P x → All P q → All P (place x q)
place-All P x [] h a = (h, tt)
place-All P x (y ∷ ys) h a = elim (Bool-cases (below (compare_entry x y))) [
  | inl t ↦ rw t (h, a)
  | inr f ↦ rw f (a.0, place-All P x ys h a.1)
]

place-Ascending :
    (x : Entry) (q : List Entry) → IsEntry x → All IsEntry q → Ascending q → Ascending (place x q)
place-Ascending x [] u v w = (tt, tt)
place-Ascending x (y ∷ ys) u v w = elim (Bool-cases (below (compare_entry x y))) [
  | inl t ↦ let le = is_below x y u v.0 t in rw t ((le, above_all x y ys le w.0), w)
  | inr f ↦ rw f (
    place-All (λ z. rank y ≤ rank z) x ys (not_below x y u v.0 f) w.0,
    place-Ascending x ys u v.1 w.1,
  )
]

wrap-fits : (n : ℤ) → fits_i64 (wrap_i64 n) ≡ true
wrap-fits n = elim (Bool-cases (fits_i64 n)) [
  | inl t ↦ rw (t, t) refl
  | inr f ↦ rw f (ground arith)
]

append-comm_Perm : (a : List Entry) (x : Entry) → Perm (a ++ x ∷ []) (x ∷ a)
append-comm_Perm [] x = Perm.rfl
append-comm_Perm (y ∷ a) x = Perm.trans (Perm.cons y (append-comm_Perm a x)) (Perm.swap x y a)

-- a new entry at the end of a heap
grown-UpInv :
    (a : List Entry) (x : Entry)
    → IsHeap a
    → AreEntries a
    → IsEntry x
    → UpInv (a ++ x ∷ []) (length (a ++ x ∷ []) - 1)
grown-UpInv a x o h u =
    let size : length (a ++ x ∷ []) ≡ suc (length a) = length-append a (x ∷ []) ∙ omega arith in
    let old : (c : ℕ) → c < length a → key (a ++ x ∷ []) c ≡ key a c =
      λ c p. ap rank (at-append origin a (x ∷ []) c p) in
    record {
      inside = omega (arith, size);
      entries = λ c p. elim (eq-or-ne c (length a)) [
        | inl e ↦ rw (e, at-append_length origin a x) u
        | inr n ↦
            rw (at-append origin a (x ∷ []) c (omega (arith, p, n, size)))
              (h c (omega (arith, p, n, size)))
      ];
      edges = λ c p q n. ground (arith, size, o c, old c, old (parent c));
      bridges = λ c p q e z. ground (arith, size);
    }

-- If the heap has the entries of an ascending queue, with values and places in `i64`, `heap_push`
-- of an `i64` makes it a heap with those and the value at the next place in the sequence, where the
-- order of values, then places, puts it.
pub heap_push_lem :
    (store : CollStore) (n : ℤ) (q : List Entry)
    → Represents store.heap q
    → fits_i64 n ≡ true
    → let seq = wrap_i64 (store.seq +ℤ pos 1) in
      (heap : List Entry) × (heap_push store n ≡ some (record store { seq = seq; heap = heap }))
      × Represents heap (place (n, seq) q)
unfolding heap_push
heap_push_lem store n q r h =
    let seq = wrap_i64 (store.seq +ℤ pos 1) in
    let new : IsEntry (n, seq) = record { value = h; place = wrap-fits (store.seq +ℤ pos 1) } in
    let grown = store.heap ++ (n, seq) ∷ [] in
    let size = length-append store.heap ((n, seq) ∷ []) in
    let start =
      grown-UpInv store.heap (n, seq) r.ordered
        (All-at IsEntry store.heap
          (All-Perm IsEntry IsEntry-IsProp q store.heap (Perm.symm r.same) r.entries))
        new in
    let (heap, e, s) =
      up_loop_lem (length grown) grown (length grown - 1) (omega (arith, size)) start in
    (
      heap,
      rw e refl,
      record {
        ordered = s.heap;
        entries = place-All IsEntry (n, seq) q new r.entries;
        same = Perm.trans s.same (
            Perm.trans (append-comm_Perm store.heap (n, seq))
              (Perm.trans (Perm.cons (n, seq) r.same) (Perm.symm (place-Perm (n, seq) q))));
        ascending = place-Ascending (n, seq) q new r.entries r.ascending;
      },
    )

-- a vector without its last
pop_last_lem :
    (x : Entry) (xs : List Entry)
    → let (rest, last) = pop_last x xs in
      Perm (last ∷ rest) (x ∷ xs)
      × (length rest ≡ length xs)
      × ((i : ℕ) → i < length rest → at origin rest i ≡ at origin (x ∷ xs) i)
pop_last_lem x [] = (Perm.rfl, refl, λ i h. absurd (omega arith))
pop_last_lem x (y ∷ ys) =
    let (same, size, kept) = pop_last_lem y ys in
    let (rest, last) = pop_last y ys in
    (
      Perm.trans (Perm.swap x last rest) (Perm.cons x same),
      omega (arith, size),
      behind x y ys rest kept,
    )
  where
    behind :
        (x y : Entry) (ys rest : List Entry)
        → ((i : ℕ) → i < length rest → at origin rest i ≡ at origin (y ∷ ys) i)
        → (i : ℕ) → i < length (x ∷ rest)
        → at origin (x ∷ rest) i ≡ at origin (x ∷ y ∷ ys) i
    behind x y ys rest kept zero h = refl
    behind x y ys rest kept (suc i) h = kept i (omega arith)

refill_lem :
    (x : Entry) (xs : List Entry)
    → IsHeap (x ∷ xs)
    → All IsEntry (x ∷ xs)
    → (rest : List Entry) × (refill (pop_last x xs).0 (pop_last x xs).1 ≡ some rest)
      × IsHeap rest
      × Perm rest xs
refill_lem x [] o u = ([], refl, λ c p q. absurd (omega arith), Perm.rfl)
refill_lem x (y ∷ ys) o u =
    let (same, size, kept) = pop_last_lem y ys in
    let (rest, last) = pop_last y ys in
    let all : All IsEntry (last ∷ rest) =
      All-Perm IsEntry IsEntry-IsProp (y ∷ ys) (last ∷ rest) (Perm.symm same) u.1 in
    let old : (c : ℕ) → 0 < c → c < suc (length rest) → key (last ∷ rest) c ≡ key (x ∷ y ∷ ys) c =
      shifted rest last kept in
    let (b, e, s) = down_loop_lem (length (last ∷ rest)) (last ∷ rest) 0 (omega arith) (record {
      inside = omega arith;
      entries = All-at IsEntry (last ∷ rest) all;
      edges = λ c p q n. ground (arith, size, o c, old c, old (parent c));
      bridges = λ c p q n z. absurd (omega arith);
    }) in
    (b, e, s.heap, Perm.trans s.same same)
  where
    shifted :
        (rest : List Entry) (last : Entry)
        → ((i : ℕ) → i < length rest → at origin rest i ≡ at origin (y ∷ ys) i)
        → (c : ℕ) → 0 < c
        → c < suc (length rest)
        → key (last ∷ rest) c ≡ key (x ∷ y ∷ ys) c
    shifted rest last kept zero p q = absurd (omega arith)
    shifted rest last kept (suc c) p q = ap rank (kept c (omega arith))

-- If the heap has the entries of a queue of which `x` is the first, `heap_pop` gives the value of
-- `x`, and a heap with the others, in their order.
pub heap_pop_lem :
    (heap : List Entry) (x : Entry) (q : List Entry)
    → Represents heap (x ∷ q)
    → (rest : List Entry) × (heap_pop heap ≡ some (x.0, rest)) × Represents rest q
unfolding heap_pop
heap_pop_lem [] x q r = absurd (not-mem-nil ((Perm.mem_iff r.same).1 mem-cons_self))
heap_pop_lem (y ∷ ys) x q r =
    let all : All IsEntry (y ∷ ys) =
      All-Perm IsEntry IsEntry-IsProp (x ∷ q) (y ∷ ys) (Perm.symm r.same) r.entries in
    let root : rank y ≤ rank x =
      All-Mem (λ z. rank y ≤ rank z) (λ z. le_prop) (y ∷ ys)
        (at-All (λ z. rank y ≤ rank z) (y ∷ ys) (λ i h. root-least (y ∷ ys) i r.ordered h)) x
        ((Perm.mem_iff r.same).1 mem-cons_self) in
    let least : rank x ≤ rank y =
      All-Mem (λ z. rank x ≤ rank z) (λ z. le_prop) (x ∷ q) (omega arith, r.ascending.0) y
        ((Perm.mem_iff r.same).0 mem-cons_self) in
    let first : y ≡ x = rank_inj y x all.0 r.entries.0 (omega (arith, root, least)) in
    let (rest, e, o, same) = refill_lem y ys r.ordered all in
    (
      rest,
      rw e (ap (λ z. some (z.0, rest)) first),
      record {
        ordered = o;
        entries = r.entries.1;
        same = Perm.trans same (Perm.cons_inv (subst (λ z. Perm (z ∷ ys) (x ∷ q)) first r.same));
        ascending = r.ascending.1;
      },
    )
