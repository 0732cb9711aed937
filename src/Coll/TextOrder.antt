-- ===== src/Coll/TextOrder.antt =====
-- The order of strings: a `String` is compared by its bytes, in UTF-8, as by its code points.
use Prim.Native.Nat.{compare, Ordering, lt, eq, gt}
use zown.Prelude.{◌≡◌, refl, [], ◌∷◌, Text, arith, ◌⊎◌, inl, inr}
use zown.Coll.Heap.{then_compare}

abbrev pub compare_text : Text → Text → Ordering
compare_text [] [] = eq
compare_text [] (b ∷ bs) = lt
compare_text (a ∷ as₁) [] = gt
compare_text (a ∷ as₁) (b ∷ bs) = then_compare (compare a b) (compare_text as₁ bs)

pub compare_text_self : (s : Text) → compare_text s s ≡ eq
compare_text_self [] = refl
compare_text_self (a ∷ s) = ground (arith, compare_text_self s)

pub eq_of_text : (s t : Text) → compare_text s t ≡ eq → s ≡ t
eq_of_text [] [] h = refl
eq_of_text [] (b ∷ t) h = cc
eq_of_text (a ∷ s) [] h = cc
eq_of_text (a ∷ s) (b ∷ t) h = ground (arith, eq_of_text s t)

pub gt_of_lt : (s t : Text) → compare_text s t ≡ lt → compare_text t s ≡ gt
gt_of_lt [] [] h = cc
gt_of_lt [] (b ∷ t) h = refl
gt_of_lt (a ∷ s) [] h = cc
gt_of_lt (a ∷ s) (b ∷ t) h = ground (arith, gt_of_lt s t)

pub lt_of_gt : (s t : Text) → compare_text s t ≡ gt → compare_text t s ≡ lt
lt_of_gt [] [] h = cc
lt_of_gt [] (b ∷ t) h = cc
lt_of_gt (a ∷ s) [] h = refl
lt_of_gt (a ∷ s) (b ∷ t) h = ground (arith, lt_of_gt s t)

pub lt_trans :
    (s t u : Text) → compare_text s t ≡ lt → compare_text t u ≡ lt → compare_text s u ≡ lt
lt_trans [] [] u h k = cc
lt_trans [] (b ∷ t) [] h k = cc
lt_trans [] (b ∷ t) (c ∷ u) h k = refl
lt_trans (a ∷ s) [] u h k = cc
lt_trans (a ∷ s) (b ∷ t) [] h k = cc
lt_trans (a ∷ s) (b ∷ t) (c ∷ u) h k = ground (arith, lt_trans s t u)

abbrev pub by_order {ℓ} : {A : Type ℓ} → Ordering → A → A → A → A
by_order lt x y z = x
by_order eq x y z = y
by_order gt x y z = z

-- To split on a comparison and keep the equation.
pub Ordering-cases : (o : Ordering) → (o ≡ lt) ⊎ ((o ≡ eq) ⊎ (o ≡ gt))
Ordering-cases lt = inl refl
Ordering-cases eq = inr (inl refl)
Ordering-cases gt = inr (inr refl)
