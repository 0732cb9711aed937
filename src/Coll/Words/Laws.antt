-- ===== src/Coll/Words/Laws.antt =====
-- The words of collections on a machine in order.
use zown.Prelude.{
  ℕ, zero, suc, ◌≤◌, ◌<◌, refl, sym, Bool, true, false, List, [], ◌∷◌, none, Text, text, length,
  ltb, if◌then◌else◌, All, arith, Bool-cases, inl, inr,
}
use mathlib.Core.Path.{subst}
use zown.Prelude.Int.{ℤ, pos, negsuc}
use zown.Prelude.Outcome.{Outcome, Ends, value, error}
use zown.Prelude.Action.{◌>>=◌, lift, gave, failed, Keeps-continue, Keeps-reading}
use zown.Coll.Store.{Kind, ls, qu, mp, sc, te, ti, pq, rg, bm, bv, CollStore, fresh}
use zown.Coll.Words.{Value, Vm, Result, Fault, pop, top_coll, borrow, excl, write_store, coll_max}
use zown.Coll.Words.Run.{
  reading, sized_store, least, sized, b_sized, b_ps, b_po, b_gt, trie_on_top, pt_trie, pt_other,
  b_pt, b_hs, Word, make, ps, po, gt, pt, hs, make_store, run,
}
use zown.Coll.Words.{str}
use zown.Coll.Words.Run.{b_sk, b_px, sk, px}
use zown.Coll.Words.Shown.{sk_text-Ends, px_text-Ends}
use zown.Coll.Words.Order.{IsStore, IsValue, IsVm}
use zown.Coll.Words.Kept.{Anything, plain-Ends, ps_change-Ends}
use zown.Coll.Words.Taken.{po_change-Ends, gt_value-Ends, hs_value-Ends}
use zown.Coll.Words.Put.{pt_change-Ends, trie_change-Ends}
use zown.Coll.Words.Changes.{pt_change}
use zown.Coll.Words.Steps.{
  Safe, Done, Held, pop-Safe, push-Safe, push_coll-Safe, write_store-Safe, coll_of-Ends, deref-Ends,
  coll_live-Ends, excl-Ends, check_push-Ends, check_pop-Ends,
}
use zown.Coll.Words.Fresh.{fresh-IsStore, ring-IsStore, bits-IsStore}

write-Safe :
    (r : ℕ) (s : CollStore) (v : Vm)
    → IsVm v
    → r < length v.heap
    → IsStore s
    → Safe Done (write_store r s v)
write-Safe r s v h inside u = done (write_store-Safe r s v h inside u)
  where
    done : {P : Unit {0} → Vm → Type 0} {m : Vm × Outcome Fault (Unit {0})} → Safe P m → Safe Done m
    done (gave h p) = gave h tt
    done (failed h) = failed h

b_ps-Safe : (v : Vm) → IsVm v → Safe Done (b_ps v)
unfolding b_ps
b_ps-Safe v h = Keeps-continue (pop-Safe (text "ps") v h) (λ x v h u.
    Keeps-reading _ h (coll_of-Ends _ (text "ps") v.stack v.heap h.values) (λ r inside.
      Keeps-reading _ h (deref-Ends v.heap r.0 h.stores inside) (λ s ok_s.
        Keeps-reading _ h (check_push-Ends s.kind) (λ _ _.
          Keeps-reading _ h (excl-Ends (text "ps") r.1 s ok_s) (λ s ok_s.
            Keeps-reading _ h (ps_change-Ends _ r.0 x v.heap s s.kind refl ok_s u)
              (λ t ok_t. write-Safe r.0 t v h inside ok_t))))))

b_po-Safe : (v : Vm) → IsVm v → Safe Done (b_po v)
unfolding b_po
b_po-Safe v h = Keeps-reading _ h (coll_of-Ends _ (text "po") v.stack v.heap h.values) (λ r inside.
    Keeps-reading _ h (deref-Ends v.heap r.0 h.stores inside) (λ s ok_s.
      Keeps-reading _ h (check_pop-Ends s.kind) (λ _ _.
        Keeps-reading _ h (excl-Ends (text "po") r.1 s ok_s) (λ s ok_s.
          Keeps-reading _ h (po_change-Ends (length v.heap) s.kind s ok_s) (λ t u.
            Keeps-continue (write_store-Safe r.0 t.1 v h inside u.1)
              (λ _ w h size. push-Safe t.0 w h (subst (λ n. IsValue n t.0) (sym size) u.0)))))))

b_gt-Safe : (v : Vm) → IsVm v → Safe Done (b_gt v)
unfolding b_gt
b_gt-Safe v h = Keeps-continue (pop-Safe (text "gt") v h) (λ x v h u.
    Keeps-reading _ h (coll_of-Ends _ (text "gt") v.stack v.heap h.values) (λ r inside.
      Keeps-reading _ h (deref-Ends v.heap r.0 h.stores inside) (λ s ok_s.
        Keeps-reading _ h (coll_live-Ends (text "gt") s ok_s) (λ s ok_s.
          Keeps-reading _ h (gt_value-Ends _ x v.heap s.kind s refl ok_s u)
            (λ y held. push-Safe y v h held)))))

b_hs-Safe : (v : Vm) → IsVm v → Safe Done (b_hs v)
unfolding b_hs
b_hs-Safe v h = Keeps-continue (pop-Safe (text "hs") v h) (λ x v h u.
    Keeps-reading _ h (coll_of-Ends _ (text "hs") v.stack v.heap h.values) (λ r inside.
      Keeps-reading _ h (deref-Ends v.heap r.0 h.stores inside) (λ s ok_s.
        Keeps-reading _ h (coll_live-Ends (text "hs") s ok_s) (λ s ok_s.
          Keeps-reading _ h (hs_value-Ends _ x v.heap s.kind s refl ok_s u)
            (λ y held. push-Safe y v h held)))))

b_sk-Safe : (v : Vm) → IsVm v → Safe Done (b_sk v)
unfolding b_sk
b_sk-Safe v h = Keeps-reading _ h (coll_of-Ends _ (text "sk") v.stack v.heap h.values) (λ r inside.
    Keeps-reading _ h (deref-Ends v.heap r.0 h.stores inside) (λ s ok_s.
      Keeps-reading _ h (coll_live-Ends (text "sk") s ok_s) (λ s ok_s.
        Keeps-reading _ h (sk_text-Ends s.kind s refl ok_s)
          (λ shown _. push-Safe (str shown) v h tt))))

b_px-Safe : (v : Vm) → IsVm v → Safe Done (b_px v)
unfolding b_px
b_px-Safe v h = Keeps-continue (pop-Safe (text "px") v h) (λ x v h _.
    Keeps-reading _ h (coll_of-Ends _ (text "px") v.stack v.heap h.values) (λ r inside.
      Keeps-reading _ h (deref-Ends v.heap r.0 h.stores inside) (λ s ok_s.
        Keeps-reading _ h (coll_live-Ends (text "px") s ok_s) (λ s _.
          Keeps-reading _ h (px_text-Ends x v.heap s.kind s)
            (λ shown _. push-Safe (str shown) v h tt)))))

pt_trie-Safe : (top : Value) (v : Vm) → IsVm v → Safe Done (pt_trie top v)
pt_trie-Safe top v h =
    Keeps-reading _ h (coll_of-Ends _ (text "pt") v.stack v.heap h.values) (λ r inside.
      Keeps-reading _ h (deref-Ends v.heap r.0 h.stores inside) (λ s ok_s.
        Keeps-reading _ h (excl-Ends (text "pt") r.1 s ok_s) (λ s ok_s.
          Keeps-reading _ h (trie_change-Ends (length v.heap) r.0 top v.heap s ok_s)
            (λ t ok_t. write-Safe r.0 t v h inside ok_t))))

pt_other-Safe : (top : Value) (v : Vm) → IsVm v → Held top v → Safe Done (pt_other top v)
unfolding pop
pt_other-Safe top v h u = other_with v.stack v.heap h.stores h.values u
  where
    put :
        (key : Value) (v : Vm)
        → IsVm v
        → Held key v
        → Held top v
        → Safe Done (
            (top_coll (text "pt") >>= λ r. borrow r.0 >>= λ s.
            lift (excl (text "pt") r.1 s) >>= λ s.
            reading (λ heap. pt_change r.0 key top heap s.kind s) >>= write_store r.0)
              v)
    put key v h k u =
        Keeps-reading _ h (coll_of-Ends _ (text "pt") v.stack v.heap h.values) (λ r inside.
          Keeps-reading _ h (deref-Ends v.heap r.0 h.stores inside) (λ s ok_s.
            Keeps-reading _ h (excl-Ends (text "pt") r.1 s ok_s) (λ s ok_s.
              Keeps-reading _ h (pt_change-Ends _ r.0 key top v.heap s.kind s refl ok_s k u)
                (λ t ok_t. write-Safe r.0 t v h inside ok_t))))

    other_with :
        (stack : List Value) (heap : List CollStore)
        → All IsStore heap
        → All (IsValue (length heap)) stack
        → IsValue (length heap) top
        → Safe Done (pt_other top (record { stack = stack; heap = heap }))
    other_with [] heap s h u = failed (record { stores = s; values = h })
    other_with (key ∷ xs) heap s h u =
        put key (record { stack = xs; heap = heap }) (record { stores = s; values = h.1 }) h.0 u

b_pt-Safe : (v : Vm) → IsVm v → Safe Done (b_pt v)
unfolding b_pt
b_pt-Safe v h =
    Keeps-continue (pop-Safe (text "pt") v h)
      (λ top v h u. choose (trie_on_top v.stack v.heap) top v h u)
  where
    choose :
        (b : Bool) (top : Value) (v : Vm)
        → IsVm v
        → Held top v
        → Safe Done ((if b then pt_trie top else pt_other top) v)
    choose true top v h u = pt_trie-Safe top v h
    choose false top v h u = pt_other-Safe top v h u

least-Ends : (kind : Kind) → Ends {A = Unit {0}} Anything (least kind)
least-Ends ls = error
least-Ends qu = error
least-Ends mp = error
least-Ends sc = error
least-Ends te = error
least-Ends ti = error
least-Ends pq = error
least-Ends rg = error
least-Ends bm = error
least-Ends bv = error

Ends-Safe : {A : Type 0} {o : Result A} (v : Vm) → IsVm v → Ends Anything o → Safe Done (v, o)
Ends-Safe v h (value p) = gave h tt
Ends-Safe v h error = failed h

module _ (w : Text) (kind : Kind)
    (made : (n : ℕ) → 0 < n → n ≤ coll_max → IsStore (sized_store kind n)) where
  sized-Safe : (i : ℤ) (v : Vm) → IsVm v → Safe Done (sized w kind i v)
  sized-Safe (negsuc i) v h = Ends-Safe v h (least-Ends kind)
  sized-Safe (pos zero) v h = Ends-Safe v h (least-Ends kind)
  sized-Safe (pos (suc n)) v h = elim (Bool-cases (ltb coll_max (suc n))) [
    | inl t ↦ rw t (failed h)
    | inr f ↦
        rw f (
          push_coll-Safe (sized_store kind (suc n)) v h (made (suc n) (omega arith) (ground arith)))
  ]

  b_sized-Safe : (v : Vm) → IsVm v → Safe Done (b_sized w kind v)
  unfolding b_sized
  b_sized-Safe v h =
      Keeps-continue (pop-Safe w v h)
        (λ x v h u. Keeps-reading _ h (plain-Ends _ w v.heap none x u) (λ i _. sized-Safe i v h))

make_store-Safe : (kind : Kind) (v : Vm) → IsVm v → Safe Done (make_store kind v)
make_store-Safe ls v h = push_coll-Safe (fresh ls) v h (fresh-IsStore ls tt tt)
make_store-Safe qu v h = push_coll-Safe (fresh qu) v h (fresh-IsStore qu tt tt)
make_store-Safe mp v h = push_coll-Safe (fresh mp) v h (fresh-IsStore mp tt tt)
make_store-Safe sc v h = push_coll-Safe (fresh sc) v h (fresh-IsStore sc tt tt)
make_store-Safe te v h = push_coll-Safe (fresh te) v h (fresh-IsStore te tt tt)
make_store-Safe ti v h = push_coll-Safe (fresh ti) v h (fresh-IsStore ti tt tt)
make_store-Safe pq v h = push_coll-Safe (fresh pq) v h (fresh-IsStore pq tt tt)
make_store-Safe rg v h = b_sized-Safe (text "rg") rg (λ n p fits. ring-IsStore n fits) v h
make_store-Safe bm v h = b_sized-Safe (text "bm") bm (λ n p fits. bits-IsStore bm n tt p) v h
make_store-Safe bv v h = b_sized-Safe (text "bv") bv (λ n p fits. bits-IsStore bv n tt p) v h

-- On a machine in order, a word of collections ends with no panic, in a value or in a fault, and
-- leaves the machine in order: no reference dangles, no integer is out of the 64 bits, no
-- collection is above its bound, and each tree, trie, heap, map, ring and vector of bits keeps its
-- form.
pub run-Keeps : (w : Word) (v : Vm) → IsVm v → Safe Done (run w v)
run-Keeps (make kind) v h = make_store-Safe kind v h
run-Keeps ps v h = b_ps-Safe v h
run-Keeps po v h = b_po-Safe v h
run-Keeps gt v h = b_gt-Safe v h
run-Keeps pt v h = b_pt-Safe v h
run-Keeps hs v h = b_hs-Safe v h
run-Keeps sk v h = b_sk-Safe v h
run-Keeps px v h = b_px-Safe v h
