-- ===== src/Coll/Heap/Rank.antt =====
-- The entries of a heap stand for numbers in their order, and the heap is in order when they are.
use Prim.Native.Nat.{compare}
use mathlib.Core.List.{Perm}
use mathlib.Core.List.Perm
use zown.Prelude.{
  ℕ, zero, suc, ◌+◌, ◌-◌, ◌*◌, ◌^◌, ◌≤◌, ◌<◌, ◌≡◌, true, List, [], ◌∷◌, Option, some, length, arith,
  ltb, ap, All, ◌==◌, if◌then◌else◌,
}
use zown.Prelude.Int.{ℤ, pos, negsuc, pos_part, neg_part}
use zown.BigInt.Word.{fits_i64}
use zown.Coll.Store.{Entry}
use zown.Coll.Arrays.{at, get_elem?-at, swapped, at-swapped, length-swapped, swapped-Perm}
use zown.Coll.Heap.{compare_entry, less, parent}

-- both parts are in `i64`
pub record IsEntry (x : Entry) : Type 0 where
  pub value : fits_i64 x.0 ≡ true
  pub place : fits_i64 x.1 ≡ true

abbrev pub offset : ℤ → ℕ
offset n = pos_part n + 2 ^ 63 - neg_part n

unfoldable pub rank : Entry → ℕ
rank x = offset x.0 * 2 ^ 64 + offset x.1

offset_lem :
    (n : ℤ)
    → fits_i64 n ≡ true
    → (offset n < 2 ^ 64) × (offset n + neg_part n ≡ pos_part n + 2 ^ 63)
offset_lem (pos n) h = ground arith
offset_lem (negsuc n) h = ground arith

pub compare-rank :
    (x y : Entry) → IsEntry x → IsEntry y → compare_entry x y ≡ compare (rank x) (rank y)
unfolding compare_entry rank
compare-rank x y u v =
    let (a, p) = offset_lem x.0 u.value in
    let (b, q) = offset_lem y.0 v.value in
    let (c, r) = offset_lem x.1 u.place in let (d, s) = offset_lem y.1 v.place in ground arith

abbrev pub origin : Entry
origin = (pos 0, pos 0)

-- the rank at an index
abbrev pub key : List Entry → ℕ → ℕ
key a i = rank (at origin a i)

abbrev pub AreEntries : List Entry → Type 0
AreEntries a = (i : ℕ) → i < length a → IsEntry (at origin a i)

pub less_lem :
    (a : List Entry) (i j : ℕ)
    → AreEntries a
    → i < length a
    → j < length a
    → less a i j ≡ some (ltb (key a i) (key a j))
unfolding less
less_lem a i j h hi hj =
    rw (get_elem?-at origin a i hi, get_elem?-at origin a j hj, compare-rank _ _ (h i hi) (h j hj))
      (ground arith)

-- No entry is below its parent.
abbrev pub IsHeap : List Entry → Type 0
IsHeap a = (c : ℕ) → 0 < c → c < length a → key a (parent c) ≤ key a c

-- `b` is a heap of the entries of `a`.
pub record Sifted (a b : List Entry) : Type 0 where
  pub heap : IsHeap b
  pub entries : AreEntries b
  pub same : Perm b a

-- The entries past `i` are not below the parent of `i`.
abbrev pub Bridges : List Entry → ℕ → Type 0
Bridges a i = (c : ℕ) → 0 < c → c < length a → parent c ≡ i → 0 < i → key a (parent i) ≤ key a c

abbrev pub Sifts : List Entry → Option (List Entry) → Type 0
Sifts a o = (b : List Entry) × (o ≡ some b) × Sifted a b

pub swapped-AreEntries :
    (a : List Entry) (i j : ℕ)
    → i < length a
    → j < length a
    → AreEntries a
    → AreEntries (swapped origin a i j)
swapped-AreEntries a i j hi hj h c hc =
    let at_c = at-swapped origin a i j hi hj c in
    let size = length-swapped origin a i j in rw at_c (grind (arith, h i, h j, h c, size))

pub Sifts-swapped :
    (a : List Entry) (i j : ℕ) (o : Option (List Entry))
    → i < length a
    → j < length a
    → Sifts (swapped origin a i j) o
    → Sifts a o
Sifts-swapped a i j o hi hj (b, e, s) = (
  b,
  e,
  record {
    heap = s.heap;
    entries = s.entries;
    same = Perm.trans s.same (swapped-Perm origin a i j hi hj);
  },
)

pub key-swapped :
    (a : List Entry) (i j : ℕ)
    → i < length a
    → j < length a
    → (c : ℕ)
    → key (swapped origin a i j) c
      ≡ (if j == c then key a i else if i == c then key a j else key a c)
key-swapped a i j hi hj c = rw (at-swapped origin a i j hi hj c) (ground arith)

least_up_to : (f : ℕ) (a : List Entry) (i : ℕ) → i < f → IsHeap a → i < length a → key a 0 ≤ key a i
least_up_to zero a i h o p = absurd (omega arith)
least_up_to (suc f) a i h o p = ground (arith, o i, least_up_to f a (parent i))

-- The root of a heap is not above any entry.
pub root-least : (a : List Entry) (i : ℕ) → IsHeap a → i < length a → key a 0 ≤ key a i
root-least a i o p = least_up_to (suc i) a i (omega arith) o p

pub at-All :
    (P : Entry → Type 0) (a : List Entry) → ((i : ℕ) → i < length a → P (at origin a i)) → All P a
at-All P [] h = tt
at-All P (x ∷ xs) h = (h 0 (omega arith), at-All P xs (λ i p. h (suc i) (omega arith)))

pub All-at :
    (P : Entry → Type 0) (a : List Entry) → All P a → (i : ℕ) → i < length a → P (at origin a i)
All-at P [] h i p = absurd (omega arith)
All-at P (x ∷ xs) h zero p = h.0
All-at P (x ∷ xs) h (suc i) p = All-at P xs h.1 i (omega arith)

pub IsEntry-IsProp : (x : Entry) → IsProp (IsEntry x)
IsEntry-IsProp x = hlevel

parts : (x y : ℤ) → fits_i64 x ≡ true → fits_i64 y ≡ true → offset x ≡ offset y → x ≡ y
parts (pos m) (pos n) u v e = ap pos (omega (arith, e))
parts (negsuc m) (negsuc n) u v e = ap negsuc (ground arith)
parts (pos m) (negsuc n) u v e = absurd (ground arith)
parts (negsuc m) (pos n) u v e = absurd (ground arith)

-- Entries of the same rank are the same.
pub rank_inj : (x y : Entry) → IsEntry x → IsEntry y → rank x ≡ rank y → x ≡ y
unfolding rank
rank_inj x y u v e =
    let (a, p) = offset_lem x.0 u.value in
    let (b, q) = offset_lem y.0 v.value in
    let (c, r) = offset_lem x.1 u.place in
    let (d, s) = offset_lem y.1 v.place in
    let first : offset x.0 ≡ offset y.0 = omega (arith, e, a, b, c, d) in
    λ i. (
      parts x.0 y.0 u.value v.value first i,
      parts x.1 y.1 u.place v.place (omega (arith, e, first)) i,
    )
