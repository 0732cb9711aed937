-- ===== src/Coll/Perms.antt =====
-- Predicates on all elements of a list, and lists with the same elements.
use mathlib.Core.List.{Perm, Mem, mem-cons_self, mem-cons_of_mem, not-mem-nil, forall_mem-cons}
use mathlib.Core.List.Perm
use mathlib.Core.List.{Permᴰ}
use mathlib.Core.Logic.{∥∥₁_elim}
use native.Mathlib.Nat.{ℕ_set}
use zown.Prelude.{List, [], ◌∷◌, All, length, suc, ap, refl, ◌∙◌, ◌≡◌}

pub All-Mem {ℓ κ} :
    {A : Type ℓ} (P : A → Type κ)
    → ((x : A) → IsProp (P x))
    → (xs : List A) → All P xs
    → (x : A) → Mem x xs
    → P x
All-Mem P p [] h = λ x m. absurd (not-mem-nil m)
All-Mem P p (y ∷ ys) h = (forall_mem-cons p).1 (h.0, All-Mem P p ys h.1)

pub Mem-All {ℓ κ} :
    {A : Type ℓ} (P : A → Type κ) (xs : List A) → ((x : A) → Mem x xs → P x) → All P xs
Mem-All P [] h = tt
Mem-All P (x ∷ xs) h = (h x mem-cons_self, Mem-All P xs (λ y m. h y (mem-cons_of_mem x m)))

pub All-Perm {ℓ κ} :
    {A : Type ℓ} (P : A → Type κ)
    → ((x : A) → IsProp (P x))
    → (xs ys : List A) → Perm xs ys
    → All P xs
    → All P ys
All-Perm P p xs ys same h = Mem-All P ys (λ y m. All-Mem P p xs h y ((Perm.mem_iff same).1 m))

length-steps {ℓ} : {A : Type ℓ} {xs ys : List A} → Permᴰ xs ys → length xs ≡ length ys
length-steps Permᴰ.nil = refl
length-steps (Permᴰ.cons x p) = ap suc (length-steps p)
length-steps (Permᴰ.swap x y) = refl
length-steps (Permᴰ.trans p q) = length-steps p ∙ length-steps q

-- Lists with the same elements are of the same length.
pub length-Perm {ℓ} : {A : Type ℓ} {xs ys : List A} → Perm xs ys → length xs ≡ length ys
length-Perm same = ∥∥₁_elim same (ℕ_set _ _) length-steps
