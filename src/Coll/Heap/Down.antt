-- ===== src/Coll/Heap/Down.antt =====
-- The loop of `heap_pop` against the order of the heap.
use mathlib.Core.List.Perm
use zown.Prelude.{
  ℕ, zero, suc, ◌+◌, ◌*◌, ◌≤◌, ◌<◌, ◌≡◌, ◌≢◌, ◌⊎◌, refl, true, false, List, some, length, arith,
  ltb, ◌==◌, Bool-cases, inl, inr, if◌then◌else◌, ◌&&◌,
}
use zown.Coll.Store.{Entry}
use zown.Coll.Arrays.{swapped, swap-swapped, length-swapped}
use zown.Coll.Heap.{parent, smaller, down_loop}
use zown.Coll.Heap.Rank.{
  key, origin, AreEntries, Bridges, Sifts, Sifts-swapped, less_lem, swapped-AreEntries, key-swapped,
}

-- The entry at `i` may be above its children, and no other.
pub record DownInv (a : List Entry) (i : ℕ) : Type 0 where
  pub inside : i < length a
  pub entries : AreEntries a
  pub edges : (c : ℕ) → 0 < c → c < length a → parent c ≢ i → key a (parent c) ≤ key a c
  pub bridges : Bridges a i

abbrev chosen : List Entry → ℕ → ℕ → ℕ
chosen a j s = if ltb j (length a) && ltb (key a j) (key a s) then j else s

smaller_lem :
    (a : List Entry) (j s : ℕ) → AreEntries a → s < length a → smaller a j s ≡ some (chosen a j s)
unfolding smaller
smaller_lem a j s h hs = elim (Bool-cases (ltb j (length a))) [
  | inl t ↦ rw (t, less_lem a j s h (ground arith) hs) refl
  | inr f ↦ rw f refl
]

-- `m` has the least entry of `i` and its children
record IsLeast (a : List Entry) (i m : ℕ) : Type 0 where
  inside : m < length a
  place : (m ≡ i) ⊎ ((i < m) × (parent m ≡ i) × (key a m < key a i))
  least : (c : ℕ) → 0 < c → c < length a → parent c ≡ i → key a m ≤ key a c
  top : key a m ≤ key a i

chosen-IsLeast :
    (a : List Entry) (i : ℕ)
    → i < length a
    → IsLeast a i (chosen a (i * 2 + 1 + 1) (chosen a (i * 2 + 1) i))
chosen-IsLeast a i h = ground arith

swapped-DownInv :
    (a : List Entry) (i m : ℕ)
    → DownInv a i
    → IsLeast a i m
    → i < m
    → parent m ≡ i
    → DownInv (swapped origin a i m) m
swapped-DownInv a i m v l lt child =
    let size = length-swapped origin a i m in
    let at_key = key-swapped a i m v.inside l.inside in
    record {
      inside = omega (arith, size, l.inside);
      entries = swapped-AreEntries a i m v.inside l.inside v.entries;
      edges = λ c p q n. ground (
        arith,
        size,
        at_key c,
        at_key (parent c),
        v.edges c,
        v.bridges c,
        v.bridges m,
        l.least c,
        l.top,
      );
      bridges = λ c p q e pos. ground (arith, size, at_key c, at_key (parent m), v.edges c);
    }

pub down_loop_lem :
    (f : ℕ) (a : List Entry) (i : ℕ) → length a ≤ f + i → DownInv a i → Sifts a (down_loop f a i)
unfolding down_loop
down_loop_lem zero a i h v = absurd (omega (arith, v.inside))
down_loop_lem (suc f) a i h v =
    let l = chosen-IsLeast a i v.inside in
    let left = chosen a (i * 2 + 1) i in
    let m = chosen a (i * 2 + 1 + 1) left in
    let left_in : left < length a = ground (arith, v.inside) in
    rw
      (
        smaller_lem a (i * 2 + 1) i v.entries v.inside,
        smaller_lem a (i * 2 + 1 + 1) left v.entries left_in,
      )
      (elim l.place [
        | inl stays ↦
            let test : (m == i) ≡ true = ground arith in
            rw test (
              a,
              refl,
              record {
                heap = λ c p q. grind (arith, stays, v.edges c, l.least c);
                entries = v.entries;
                same = Perm.rfl;
              },
            )
        | inr (lt, child, less) ↦
            let test : (m == i) ≡ false = ground arith in
            rw (test, swap-swapped origin a i m v.inside l.inside)
              (Sifts-swapped a i m _ v.inside l.inside (
                down_loop_lem f (swapped origin a i m) m
                  (omega (arith, length-swapped origin a i m))
                  (swapped-DownInv a i m v l lt child)))
      ])
