-- ===== src/Coll/Rows.antt =====
-- Rows of a key and a value, in ascending order of the keys: the abstract map of a tree.
use Prim.Native.Nat.{lt, eq}
use zown.Prelude.{
  ◌≡◌, refl, ap, sym, ◌∙◌, List, [], ◌∷◌, ◌++◌, Text, Option, none, some, All, inl, inr, append-nil,
}
use zown.Coll.Store.{Elem}
use zown.Coll.TextOrder.{
  compare_text, eq_of_text, gt_of_lt, lt_of_gt, lt_trans, Ordering-cases, by_order,
}

abbrev pub Row : Type 0
Row = Text × Elem

abbrev pub lookup : Text → List Row → Option Elem
lookup k [] = none
lookup k (r ∷ rows) = by_order (compare_text k r.0) none (some r.1) (lookup k rows)

abbrev pub put_row : Text → Elem → List Row → List Row
put_row k v [] = (k, v) ∷ []
put_row k v (r ∷ rows) =
    by_order (compare_text k r.0) ((k, v) ∷ r ∷ rows) ((k, v) ∷ rows) (r ∷ put_row k v rows)

-- all keys are before `k`, or after it
abbrev pub Below : Text → List Row → Type 0
Below k = All (λ s. compare_text s.0 k ≡ lt)

abbrev pub Above : Text → List Row → Type 0
Above k = All (λ s. compare_text k s.0 ≡ lt)

abbrev pub Ascending : List Row → Type 0
Ascending [] = Unit
Ascending (r ∷ rows) = Above r.0 rows × Ascending rows

pub All-append_left {ℓ κ} :
    {A : Type ℓ} (P : A → Type κ) (xs ys : List A) → All P (xs ++ ys) → All P xs
All-append_left P [] ys h = tt
All-append_left P (x ∷ xs) ys h = (h.0, All-append_left P xs ys h.1)

pub All-append_right {ℓ κ} :
    {A : Type ℓ} (P : A → Type κ) (xs ys : List A) → All P (xs ++ ys) → All P ys
All-append_right P [] ys h = h
All-append_right P (x ∷ xs) ys h = All-append_right P xs ys h.1

pub All-append {ℓ κ} :
    {A : Type ℓ} (P : A → Type κ) (xs ys : List A) → All P xs → All P ys → All P (xs ++ ys)
All-append P [] ys h k = k
All-append P (x ∷ xs) ys h k = (h.0, All-append P xs ys h.1 k)

pub Ascending-left : (xs ys : List Row) → Ascending (xs ++ ys) → Ascending xs
Ascending-left [] ys h = tt
Ascending-left (x ∷ xs) ys h = (All-append_left _ xs ys h.0, Ascending-left xs ys h.1)

pub Ascending-right : (xs ys : List Row) → Ascending (xs ++ ys) → Ascending ys
Ascending-right [] ys h = h
Ascending-right (x ∷ xs) ys h = Ascending-right xs ys h.1

pub Ascending-Below :
    (xs : List Row) (r : Row) (ys : List Row) → Ascending (xs ++ r ∷ ys) → Below r.0 xs
Ascending-Below [] r ys h = tt
Ascending-Below (x ∷ xs) r ys h = (
  (All-append_right (λ s. compare_text x.0 s.0 ≡ lt) xs (r ∷ ys) h.0).0,
  Ascending-Below xs r ys h.1,
)

pub Below-lt : (j k : Text) (xs : List Row) → compare_text j k ≡ lt → Below j xs → Below k xs
Below-lt j k [] h b = tt
Below-lt j k (x ∷ xs) h b = (lt_trans x.0 j k b.0 h, Below-lt j k xs h b.1)

pub Above-lt : (j k : Text) (xs : List Row) → compare_text j k ≡ lt → Above k xs → Above j xs
Above-lt j k [] h b = tt
Above-lt j k (x ∷ xs) h b = (lt_trans j k x.0 h b.0, Above-lt j k xs h b.1)

module _ (k : Text) (v : Elem) where
  pub put_row-Below :
      (xs ys : List Row) → Below k xs → put_row k v (xs ++ ys) ≡ xs ++ put_row k v ys
  put_row-Below [] ys b = refl
  put_row-Below (x ∷ xs) ys b = rw (gt_of_lt x.0 k b.0) (ap (λ t. x ∷ t) (put_row-Below xs ys b.1))

  pub put_row-before :
      (xs : List Row) (r : Row) (ys : List Row)
      → compare_text k r.0 ≡ lt
      → put_row k v (xs ++ r ∷ ys) ≡ put_row k v xs ++ r ∷ ys
  put_row-before [] r ys h = rw h refl
  put_row-before (x ∷ xs) r ys h = elim (Ordering-cases (compare_text k x.0)) [
    | inl e ↦ rw e refl
    | inr (inl e) ↦ rw e refl
    | inr (inr e) ↦ rw e (ap (λ t. x ∷ t) (put_row-before xs r ys h))
  ]

  pub put_row-at :
      (xs : List Row) (j : Text) (w : Elem) (ys : List Row)
      → Below j xs
      → compare_text k j ≡ eq
      → put_row k v (xs ++ (j, w) ∷ ys) ≡ xs ++ (j, v) ∷ ys
  put_row-at xs j w ys b h =
      let same = eq_of_text k j h in
      put_row-Below xs ((j, w) ∷ ys) (rw (sym same) at b) ∙ rw h (ap (λ t. xs ++ (t, v) ∷ ys) same)

  pub put_row-Above :
      (j : Text) (xs : List Row) → compare_text j k ≡ lt → Above j xs → Above j (put_row k v xs)
  put_row-Above j [] h a = (h, tt)
  put_row-Above j (x ∷ xs) h a = elim (Ordering-cases (compare_text k x.0)) [
    | inl e ↦ rw e (h, a)
    | inr (inl e) ↦ rw e (h, a.1)
    | inr (inr e) ↦ rw e (a.0, put_row-Above j xs h a.1)
  ]

  pub put_row-Ascending : (xs : List Row) → Ascending xs → Ascending (put_row k v xs)
  put_row-Ascending [] a = (tt, tt)
  put_row-Ascending (x ∷ xs) a = elim (Ordering-cases (compare_text k x.0)) [
    | inl e ↦ rw e ((e, Above-lt k x.0 xs e a.0), a)
    | inr (inl e) ↦ let same = eq_of_text k x.0 e in rw e (rw (sym same) at a.0, a.1)
    | inr (inr e) ↦ rw e (put_row-Above x.0 xs (lt_of_gt k x.0 e) a.0, put_row-Ascending xs a.1)
  ]

pub lookup-Below : (k : Text) (xs ys : List Row) → Below k xs → lookup k (xs ++ ys) ≡ lookup k ys
lookup-Below k [] ys b = refl
lookup-Below k (x ∷ xs) ys b = rw (gt_of_lt x.0 k b.0) (lookup-Below k xs ys b.1)

pub lookup-before :
    (k : Text) (xs : List Row) (r : Row) (ys : List Row)
    → compare_text k r.0 ≡ lt
    → lookup k (xs ++ r ∷ ys) ≡ lookup k xs
lookup-before k [] r ys h = rw h refl
lookup-before k (x ∷ xs) r ys h = elim (Ordering-cases (compare_text k x.0)) [
  | inl e ↦ rw e refl
  | inr (inl e) ↦ rw e refl
  | inr (inr e) ↦ rw e (lookup-before k xs r ys h)
]

-- a function, changed at one key
abbrev pub update : Text → Elem → (Text → Option Elem) → Text → Option Elem
update k v f j = by_order (compare_text j k) (f j) (some v) (f j)

lookup-Above : (j : Text) (xs : List Row) → Above j xs → lookup j xs ≡ none
lookup-Above j [] a = refl
lookup-Above j (x ∷ xs) a = rw a.0 refl

pub lookup-put_row :
    (k : Text) (v : Elem) (xs : List Row) (j : Text)
    → Ascending xs
    → lookup j (put_row k v xs) ≡ update k v (λ i. lookup i xs) j
lookup-put_row k v [] j a = elim (Ordering-cases (compare_text j k)) [
  | inl e ↦ rw e refl
  | inr (inl e) ↦ rw e refl
  | inr (inr e) ↦ rw e refl
]
lookup-put_row k v (x ∷ xs) j a = elim (Ordering-cases (compare_text k x.0)) [
  | inl e ↦ elim (Ordering-cases (compare_text j k)) [
    | inl g ↦ rw (e, g, lt_trans j k x.0 g e) refl
    | inr (inl g) ↦ rw (e, g) refl
    | inr (inr g) ↦ rw (e, g) refl
  ]
  | inr (inl e) ↦
      let same = eq_of_text k x.0 e in
      rw (e, sym same)
        (elim (Ordering-cases (compare_text j k)) [
          | inl g ↦ rw g refl
          | inr (inl g) ↦ rw g refl
          | inr (inr g) ↦ rw g refl
        ])
  | inr (inr e) ↦ rw e (elim (Ordering-cases (compare_text j x.0)) [
    | inl g ↦ rw (g, lt_trans j x.0 k g (lt_of_gt k x.0 e)) refl
    | inr (inl g) ↦
        let same = eq_of_text j x.0 g in
        let below : compare_text j k ≡ lt = rw same (lt_of_gt k x.0 e) in rw (g, below) refl
    | inr (inr g) ↦ rw g (lookup-put_row k v xs j a.1)
  ])
]

-- `k` is before the first row
abbrev pub Ahead : Text → List Row → Type 0
Ahead k [] = Unit
Ahead k (r ∷ rows) = compare_text k r.0 ≡ lt

pub put_row-inside :
    (k : Text) (v : Elem) (xs es ys : List Row)
    → Below k xs
    → Ahead k ys
    → put_row k v (xs ++ (es ++ ys)) ≡ xs ++ (put_row k v es ++ ys)
put_row-inside k v xs es [] b a =
    put_row-Below k v xs (es ++ []) b
    ∙ ap (λ t. xs ++ t) (ap (put_row k v) (append-nil es) ∙ sym (append-nil (put_row k v es)))
put_row-inside k v xs es (y ∷ ys) b a =
    put_row-Below k v xs (es ++ y ∷ ys) b ∙ ap (λ t. xs ++ t) (put_row-before k v es y ys a)

pub lookup-inside :
    (k : Text) (xs es ys : List Row)
    → Below k xs
    → Ahead k ys
    → lookup k (xs ++ (es ++ ys)) ≡ lookup k es
lookup-inside k xs es [] b a = lookup-Below k xs (es ++ []) b ∙ ap (lookup k) (append-nil es)
lookup-inside k xs es (y ∷ ys) b a = lookup-Below k xs (es ++ y ∷ ys) b ∙ lookup-before k es y ys a
