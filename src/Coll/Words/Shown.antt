-- ===== src/Coll/Words/Shown.antt =====
-- The text of a collection in order.
use mathlib.Core.Path.{subst}
use zown.Prelude.{
  ℕ, zero, suc, ◌+◌, ◌/◌, ◌≤◌, ◌≡◌, refl, List, [], ◌∷◌, map, some, Text, length, All, arith,
  Bool-cases, inl, inr, text_eq, text_eq_self,
}
use zown.Prelude.Outcome.{ok, Ends, value, error, Ends-bind}
use zown.Coll.Store.{Elem, Kind, ls, qu, mp, sc, te, ti, pq, rg, bm, bv, CollStore, Entry}
use zown.Coll.Perms.{length-Perm}
use zown.Coll.Heap.Refines.{Represents, heap_pop_lem}
use zown.Coll.Tree.Get.{tree_walk_lem}
use zown.Coll.Words.{Value, int, str, coll, other, has_space}
use zown.Coll.Words.Bits.{pair_get}
use zown.Coll.Words.Order.{IsStore}
use zown.Coll.Words.Bytes.{read_bit_lem}
use zown.Coll.Words.Kept.{Anything}
use zown.Coll.Words.Show.{pair_lines, drain, bit_chars, sk_text, prefix_of, px_text}

-- Of a heap with the entries of an ascending queue, the loop over the heap, with a round for each
-- entry, ends with the values of the queue in their order.
pub drain_lem :
    (f : ℕ) (q heap : List Entry)
    → Represents heap q
    → length heap ≡ f
    → drain f heap ≡ ok (map (λ x. x.0) q)
unfolding drain
drain_lem zero [] [] r e = refl
drain_lem zero (y ∷ q) [] r e = absurd (omega (arith, length-Perm r.same))
drain_lem zero q (x ∷ heap) r e = absurd (omega (arith, e))
drain_lem (suc f) q [] r e = absurd (omega (arith, e))
drain_lem (suc f) [] (x ∷ heap) r e = absurd (omega (arith, length-Perm r.same))
drain_lem (suc f) (y ∷ q) (x ∷ heap) r e =
    let (rest, popped, r') = heap_pop_lem (x ∷ heap) y q r in
    rw (popped, drain_lem f q rest r' (omega (arith, e, length-Perm r.same, length-Perm r'.same)))
      refl

abbrev Found : List (Text × Elem) → Text → Type 0
Found pairs key = (e : Elem) × (pair_get pairs key ≡ some e)

pair_lines-Ends :
    (pairs : List (Text × Elem)) (order : List Text)
    → All (Found pairs) order
    → Ends Anything (pair_lines pairs order)
pair_lines-Ends pairs [] h = value tt
pair_lines-Ends pairs (key ∷ order) h =
    rw h.0.1 (Ends-bind (pair_lines-Ends pairs order h.1) (λ _ _. value tt))

-- the keys of the pairs are found
names-Found :
    (pairs ps : List (Text × Elem))
    → ((key : Text) (e : Elem) → pair_get ps key ≡ some e → Found pairs key)
    → All (Found pairs) (map (λ p. p.0) ps)
names-Found pairs [] h = tt
names-Found pairs (p ∷ ps) h = (
  h p.0 p.1 (rw (text_eq_self p.0) refl),
  names-Found pairs ps (λ key e got. elim (Bool-cases (text_eq p.0 key)) [
    | inl t ↦ h key p.1 (rw t refl)
    | inr f ↦ h key e (rw f got)
  ]),
)

bit_chars-Ends :
    (bits : List ℕ) (i n m : ℕ)
    → length bits ≡ (m + 7) / 8
    → i + n ≤ m
    → Ends Anything (bit_chars bits i n)
bit_chars-Ends bits i zero m size fits = value tt
bit_chars-Ends bits i (suc n) m size fits =
    let (b, e) = read_bit_lem bits i m size (omega (arith, fits)) in
    rw e (Ends-bind (bit_chars-Ends bits (suc i) n m size (omega (arith, fits))) (λ _ _. value tt))

pub sk_text-Ends :
    (kind : Kind) (s : CollStore) → s.kind ≡ kind → IsStore s → Ends Anything (sk_text kind s)
unfolding sk_text
sk_text-Ends ls s k h = value tt
sk_text-Ends qu s k h = value tt
sk_text-Ends rg s k h = value tt
sk_text-Ends sc s k h = value tt
sk_text-Ends mp s k h =
    let found =
      subst (λ order. All (Found s.pairs) order) h.pairs.keys
        (names-Found s.pairs s.pairs (λ key e got. (e, got))) in
    Ends-bind (pair_lines-Ends s.pairs s.order found) (λ _ _. value tt)
sk_text-Ends te s k h =
    let t = h.tree.tree in rw (tree_walk_lem 0 t.height s.root t.shape) (value tt)
sk_text-Ends ti s k h = value tt
sk_text-Ends pq s k h =
    rw (drain_lem (length s.heap) h.queue.queue s.heap h.queue.holds refl) (value tt)
sk_text-Ends bv s k h = bit_chars-Ends s.bits 0 s.nbits s.nbits h.bits.size (omega arith)
sk_text-Ends bm s k h = error

prefix_of-Ends : (heap : List CollStore) (x : Value) → Ends Anything (prefix_of heap x)
prefix_of-Ends heap (int n) = error
prefix_of-Ends heap (str s) = elim (Bool-cases (has_space s)) [
  | inl t ↦ rw t error
  | inr f ↦ rw f (value tt)
]
prefix_of-Ends heap (coll r e) = error
prefix_of-Ends heap (other s) = error

pub px_text-Ends :
    (x : Value) (heap : List CollStore) (kind : Kind) (s : CollStore)
    → Ends Anything (px_text x heap kind s)
unfolding px_text
px_text-Ends x heap ti s = Ends-bind (prefix_of-Ends heap x) (λ _ _. value tt)
px_text-Ends x heap ls s = error
px_text-Ends x heap qu s = error
px_text-Ends x heap mp s = error
px_text-Ends x heap sc s = error
px_text-Ends x heap te s = error
px_text-Ends x heap pq s = error
px_text-Ends x heap rg s = error
px_text-Ends x heap bm s = error
px_text-Ends x heap bv s = error
