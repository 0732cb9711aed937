-- ===== src/Coll/Tree/Scan.antt =====
-- The loops of `tree_get` and `insert_nonfull` over the keys of a node, and the insertion in a leaf.
use Prim.Native.Nat.{gt}
use zown.Prelude.{
  ℕ, zero, suc, ◌≡◌, ◌⊎◌, inl, inr, refl, ap, false, List, [], ◌∷◌, ◌++◌, Text, none, some,
  get_elem?, arith, ◌==◌, if◌then◌else◌,
}
use zown.Coll.Store.{Elem}
use zown.Coll.TextOrder.{
  compare_text, by_order, Ordering-cases, gt_of_lt, lt_of_gt, lt_trans, eq_of_text,
}
use zown.Coll.Rows.{Row, Above, Above-lt, Ascending, put_row, put_row-Above}
use zown.Coll.Tree.{scan, found_at, scan_back, write_back, overwrite, sort_in, sort_keys, or_sorted}
use zown.Coll.Tree.Place.{Fits, FoundAt}

pub scan_lem :
    (key : Text) (keys : List Row)
    → FoundAt key keys (scan key keys)
      ⊎ (Fits key keys (scan key keys) × (found_at key (get_elem? keys (scan key keys)) ≡ none))
scan_lem key [] = inr (tt, refl)
scan_lem key (r ∷ rows) = elim (Ordering-cases (compare_text key r.0)) [
  | inl e ↦ inr (rw e (e, rw e refl))
  | inr (inl e) ↦ inl (rw e e)
  | inr (inr e) ↦ elim (scan_lem key rows) [
    | inl f ↦ inl (rw e (e, f))
    | inr f ↦ inr (rw e ((e, f.0), f.1))
  ]
]

-- the keys that are past the first are past the row before them
past :
    (key : Text) (r : Row) (rows : List Row) (i : ℕ)
    → Above r.0 rows
    → FoundAt key rows i ⊎ Fits key rows (suc i)
    → compare_text key r.0 ≡ gt
past key r [] i a (inl f) = elim f [ ]
past key r [] i a (inr f) = elim f [ ]
past key r (x ∷ rows) zero a (inl f) = gt_of_lt r.0 key (rw (eq_of_text key x.0 f) a.0)
past key r (x ∷ rows) (suc i) a (inl f) =
    gt_of_lt r.0 key (lt_trans r.0 x.0 key a.0 (lt_of_gt key x.0 f.0))
past key r (x ∷ rows) i a (inr f) =
    gt_of_lt r.0 key (lt_trans r.0 x.0 key a.0 (lt_of_gt key x.0 f.0))

abbrev pub Back : Text → Elem → List Row → ℕ → Type 0
Back key val keys n =
    (Fits key keys n × (write_back key val keys n ≡ none))
    ⊎ ((i : ℕ) × (n ≡ suc i) × FoundAt key keys i)

suc_test : (n : ℕ) → (suc n == 0) ≡ false
suc_test n = ground arith

pub scan_back_lem :
    (key : Text) (val : Elem) (keys : List Row)
    → Ascending keys
    → Back key val keys (scan_back key keys)
scan_back_lem key val [] a = inl (tt, refl)
scan_back_lem key val (r ∷ rows) a = go (scan_back key rows) (scan_back_lem key val rows a.1)
  where
    go :
        (n : ℕ)
        → Back key val rows n
        → Back key val (r ∷ rows) (if n == 0 then by_order (compare_text key r.0) 0 1 1 else suc n)
    go zero (inr (i, e, f)) = absurd (omega (arith, e))
    go zero (inl f) = elim (Ordering-cases (compare_text key r.0)) [
      | inl e ↦ rw e (inl (e, refl))
      | inr (inl e) ↦ rw e (inr (0, refl, e))
      | inr (inr e) ↦ rw e (inl ((e, f.0), rw e refl))
    ]
    go (suc n) (inl f) =
        let e = past key r rows n a.0 (inr f.0) in rw (suc_test n) (inl ((e, f.0), rw f.1 refl))
    go (suc n) (inr (i, e, f)) =
        rw (suc_test n) (inr (suc i, ap suc e, (past key r rows i a.0 (inl f), f)))

overwrite-Above :
    (key : Text) (val : Elem) (keys : List Row) → Above key keys → overwrite key val keys ≡ none
overwrite-Above key val [] a = refl
overwrite-Above key val (r ∷ rows) a = rw (a.0, overwrite-Above key val rows a.1) refl

sort_in-Above : (r : Row) (rows : List Row) → Above r.0 rows → sort_in r rows ≡ r ∷ rows
sort_in-Above r [] a = refl
sort_in-Above r (s ∷ rows) a = rw a.0 refl

put_row-front :
    (key : Text) (val : Elem) (rows : List Row)
    → Above key rows
    → put_row key val rows ≡ (key, val) ∷ rows
put_row-front key val [] a = refl
put_row-front key val (r ∷ rows) a = rw a.0 refl

-- the keys with a new one, in a leaf
pub or_sorted_lem :
    (key : Text) (val : Elem) (keys : List Row)
    → Ascending keys
    → or_sorted key val keys (overwrite key val keys) ≡ put_row key val keys
or_sorted_lem key val keys a = elim (leaf key val keys a) [
  | inl e ↦ rw e refl
  | inr (n, e) ↦ rw n e
]
  where
    leaf :
        (key : Text) (val : Elem) (keys : List Row)
        → Ascending keys
        → (overwrite key val keys ≡ some (put_row key val keys))
          ⊎ ((overwrite key val keys ≡ none)
              × (sort_keys (keys ++ (key, val) ∷ []) ≡ put_row key val keys))
    leaf key val [] a = inr (refl, refl)
    leaf key val (r ∷ rows) a = elim (Ordering-cases (compare_text key r.0)) [
      | inl e ↦
          let above = Above-lt key r.0 rows e a.0 in
          let none_there = overwrite-Above key val rows above in
          elim (leaf key val rows a.1) [
            | inl some_there ↦ cc
            | inr (n, s) ↦ inr (
              rw (e, n) refl,
              rw
                  (
                    s,
                    put_row-front key val rows above,
                    gt_of_lt key r.0 e,
                    sort_in-Above r rows a.0,
                    e,
                  )
                  refl,
            )
          ]
      | inr (inl e) ↦ inl (rw (e, eq_of_text key r.0 e) refl)
      | inr (inr e) ↦ elim (leaf key val rows a.1) [
        | inl h ↦ inl (rw (e, h) refl)
        | inr (n, s) ↦ inr (
          rw (e, n) refl,
          rw
              (
                s,
                sort_in-Above r (put_row key val rows)
                    (put_row-Above key val r.0 rows (lt_of_gt key r.0 e) a.0),
                e,
              )
              refl,
        )
      ]
    ]
