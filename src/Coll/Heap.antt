-- ===== src/Coll/Heap.antt =====
-- zownc/crates/zown-vm/src/coll.rs: `heap_push` and `heap_pop`.
pub mod Rank
pub mod Up
pub mod Down
pub mod Refines
use Prim.Native.Nat.{compare, Ordering, lt, eq, gt}
use zown.Prelude.{
  ℕ, zero, suc, ◌+◌, ◌-◌, ◌*◌, ◌/◌, ◌^◌, Bool, true, false, List, [], ◌∷◌, ◌++◌, Option, none, some,
  length, get_elem?, ltb, ◌==◌, if◌then◌else◌, ◌&&◌, ◌>>=◌,
}
use zown.Prelude.Int.{ℤ, pos, negsuc, pos_part, neg_part, ◌+ℤ◌}
use zown.BigInt.Word.{fits_i64}
use zown.Coll.Store.{Entry, CollStore}
use zown.Coll.Arrays.{swap}

abbrev pub compare_i64 : ℤ → ℤ → Ordering
compare_i64 a b = compare (pos_part a + neg_part b) (pos_part b + neg_part a)

-- the order of pairs: the second parts decide where the first are the same
abbrev pub then_compare : Ordering → Ordering → Ordering
then_compare eq o = o
then_compare lt o = lt
then_compare gt o = gt

unfoldable pub compare_entry : Entry → Entry → Ordering
compare_entry x y = then_compare (compare_i64 x.0 y.0) (compare_i64 x.1 y.1)

abbrev pub below : Ordering → Bool
below lt = true
below eq = false
below gt = false

-- `heap[i] < heap[j]`
unfoldable pub less : List Entry → ℕ → ℕ → Option Bool
less a i j = do x ← get_elem? a i; y ← get_elem? a j; some (below (compare_entry x y))

abbrev pub parent : ℕ → ℕ
parent i = (i - 1) / 2

-- the `while` loop of `heap_push`; `heap[p] <= heap[i]` is that `heap[i] < heap[p]` is not.
-- `none` is an index out of range, or the fuel run out
unfoldable pub up_loop : ℕ → List Entry → ℕ → Option (List Entry)
up_loop zero a i = none
up_loop (suc f) a i =
    let rise = swap a (parent i) i >>= λ b. up_loop f b (parent i) in
    let round = less a i (parent i) >>= λ r. if r then rise else some a in
    if ltb 0 i then round else some a

-- `store.seq += 1`, which wraps
abbrev pub wrap_i64 : ℤ → ℤ
wrap_i64 n = if fits_i64 n then n else negsuc (2 ^ 63 - 1)

unfoldable pub heap_push : CollStore → ℤ → Option CollStore
heap_push store n = do
  let seq = wrap_i64 (store.seq +ℤ pos 1)
  let grown = store.heap ++ (n, seq) ∷ []
  heap ← up_loop (length grown) grown (length grown - 1)
  some (record store { seq = seq; heap = heap })

-- `if j < n && heap[j] < heap[small] { small = j; }`
unfoldable pub smaller : List Entry → ℕ → ℕ → Option ℕ
smaller a j small =
    let test = less a j small >>= λ r. some (if r then j else small) in
    if ltb j (length a) then test else some small

unfoldable pub down_loop : ℕ → List Entry → ℕ → Option (List Entry)
down_loop zero a i = none
down_loop (suc f) a i = do
  left ← smaller a (i * 2 + 1) i
  small ← smaller a (i * 2 + 1 + 1) left
  let sink = swap a i small >>= λ b. down_loop f b small
  if small == i then some a else sink

-- `heap.pop().unwrap()` of `x ∷ xs`: the rest and the last
abbrev pub pop_last {ℓ} : {A : Type ℓ} → A → List A → List A × A
pop_last x [] = ([], x)
pop_last x (y ∷ ys) = let (rest, last) = pop_last y ys in (x ∷ rest, last)

-- `heap[0] = last` and the loop, unless the heap is empty
abbrev pub refill : List Entry → Entry → Option (List Entry)
refill [] last = some []
refill (x ∷ xs) last = down_loop (length (x ∷ xs)) (last ∷ xs) 0

unfoldable pub heap_pop : List Entry → Option (ℤ × List Entry)
heap_pop [] = none
heap_pop (x ∷ xs) = let (rest, last) = pop_last x xs in do heap ← refill rest last; some (x.0, heap)
