-- ===== src/Coll/Heap/Up.antt =====
-- The loop of `heap_push` against the order of the heap.
use mathlib.Core.List.Perm
use zown.Prelude.{ℕ, zero, suc, ◌≤◌, ◌<◌, ◌≢◌, refl, List, length, arith, ltb, Bool-cases, inl, inr}
use zown.Coll.Store.{Entry}
use zown.Coll.Arrays.{swapped, swap-swapped, length-swapped}
use zown.Coll.Heap.{parent, up_loop}
use zown.Coll.Heap.Rank.{
  key, origin, AreEntries, Bridges, Sifts, Sifts-swapped, less_lem, swapped-AreEntries, key-swapped,
}

-- The entry at `i` may be below its parent, and no other.
pub record UpInv (a : List Entry) (i : ℕ) : Type 0 where
  pub inside : i < length a
  pub entries : AreEntries a
  pub edges : (c : ℕ) → 0 < c → c < length a → c ≢ i → key a (parent c) ≤ key a c
  pub bridges : Bridges a i

swapped-UpInv :
    (a : List Entry) (i : ℕ)
    → UpInv a i
    → 0 < i
    → key a i < key a (parent i)
    → UpInv (swapped origin a (parent i) i) (parent i)
swapped-UpInv a i v pos less =
    let up : parent i < length a = omega (arith, v.inside) in
    let size = length-swapped origin a (parent i) i in
    let at_key = key-swapped a (parent i) i up v.inside in
    record {
      inside = omega (arith, size, up);
      entries = swapped-AreEntries a (parent i) i up v.inside v.entries;
      edges = λ c p q n. ground (arith, size, at_key c, at_key (parent c), v.edges c, v.bridges c);
      bridges = λ c p q e pos'.
          ground (arith, size, at_key c, at_key (parent (parent i)), v.edges c, v.edges (parent i));
    }

pub up_loop_lem : (f : ℕ) (a : List Entry) (i : ℕ) → i < f → UpInv a i → Sifts a (up_loop f a i)
unfolding up_loop
up_loop_lem zero a i h v = absurd (omega arith)
up_loop_lem (suc f) a i h v = elim (Bool-cases (ltb 0 i)) [
  | inr top ↦ rw top (
    a,
    refl,
    record { heap = λ c p q. v.edges c p q (ground arith); entries = v.entries; same = Perm.rfl },
  )
  | inl inner ↦
      let up : parent i < length a = omega (arith, v.inside) in
      rw (inner, less_lem a i (parent i) v.entries v.inside up)
        (elim (Bool-cases (ltb (key a i) (key a (parent i)))) [
          | inl swaps ↦
              rw (swaps, swap-swapped origin a (parent i) i up v.inside)
                (Sifts-swapped a (parent i) i _ up v.inside (
                  up_loop_lem f (swapped origin a (parent i) i) (parent i) (ground arith)
                    (swapped-UpInv a i v (ground arith) (ground arith))))
          | inr settled ↦ rw settled (
            a,
            refl,
            record {
              heap = λ c p q. ground (arith, v.edges c);
              entries = v.entries;
              same = Perm.rfl;
            },
          )
        ])
]
