-- ===== src/Coll/Words/Run.antt =====
-- zownc/crates/zown-vm/src/coll.rs: the words `b_ls` to `b_px`, and `coll_len`.
use zown.Prelude.{
  ℕ, zero, suc, ◌+◌, ◌/◌, Bool, true, false, List, [], ◌∷◌, ◌++◌, Option, none, some, Text, text,
  length, get_elem?, ltb, if◌then◌else◌,
}
use zown.Prelude.Int.{ℤ, pos, negsuc}
use zown.Prelude.Outcome.{ok, err, panic, out_of_fuel}
use zown.Prelude.Action.{◌>>=◌, lift}
use zown.Buf.{zeroed}
use zown.Coll.Store.{Kind, ls, qu, mp, sc, te, ti, pq, rg, bm, bv, CollStore, fresh}
use zown.Coll.Tree.{tree_count}
use zown.Coll.Words.{
  kind_text, Value, str, coll, Action, Result, fault, type_mismatch, bounds, above_limit,
  least_capacity, least_bits, cannot_push, cannot_pop, push, pop, top_coll, borrow, excl, coll_live,
  write_store, plain, coll_max,
}
use zown.Coll.Words.Show.{show_int, sk_text, px_text}
use zown.Coll.Words.Changes.{ps_change, po_change, gt_value, pt_change, trie_change, hs_value}

-- `push_coll`
abbrev pub push_coll : CollStore → Action (Unit {0})
push_coll s v =
    (record { stack = coll (length v.heap) true ∷ v.stack; heap = v.heap ++ s ∷ [] }, ok tt)

-- an outcome that the machine decides
abbrev pub reading : {A : Type 0} → (List CollStore → Result A) → Action A
reading f v = (v, f v.heap)

-- `CollStore` of a kind that takes a size
abbrev pub sized_store : Kind → ℕ → CollStore
sized_store rg n = record (fresh rg) { cap = n }
sized_store kind n = record (fresh kind) { nbits = n; bits = zeroed ((n + 7) / 8) }

abbrev pub least : Kind → Result (Unit {0})
least rg = fault bounds least_capacity (text "rg")
least bm = fault bounds least_bits (text "bm")
least kind = fault bounds least_bits (text "bv")

abbrev pub sized : Text → Kind → ℤ → Action (Unit {0})
sized w kind (negsuc k) = lift (least kind)
sized w kind (pos zero) = lift (least kind)
sized w kind (pos (suc n)) =
    if ltb coll_max (suc n)
    then lift (fault bounds above_limit w)
    else push_coll (sized_store kind (suc n))

-- `b_rg`, `b_bm` and `b_bv`
unfoldable pub b_sized : Text → Kind → Action (Unit {0})
b_sized w kind = pop w >>= λ x. reading (λ heap. plain w heap none x) >>= sized w kind

-- `PUSH.contains(&kind)` and `POP.contains(&kind)`
abbrev pub may_push : Kind → Bool
may_push ls = true
may_push qu = true
may_push rg = true
may_push pq = true
may_push sc = true
may_push bm = true
may_push _ = false

abbrev pub may_pop : Kind → Bool
may_pop ls = true
may_pop qu = true
may_pop rg = true
may_pop pq = true
may_pop _ = false

abbrev pub check_push : Kind → Result (Unit {0})
check_push kind =
    if may_push kind then ok tt else fault type_mismatch (cannot_push kind) (text "ps")

abbrev pub check_pop : Kind → Result (Unit {0})
check_pop kind = if may_pop kind then ok tt else fault type_mismatch (cannot_pop kind) (text "po")

unfoldable pub b_ps : Action (Unit {0})
b_ps = pop (text "ps") >>= λ x. top_coll (text "ps") >>= λ r. borrow r.0 >>= λ s.
    lift (check_push s.kind) >>= λ _. lift (excl (text "ps") r.1 s) >>= λ s.
    reading (λ heap. ps_change r.0 x heap s.kind s) >>= write_store r.0

unfoldable pub b_po : Action (Unit {0})
b_po = top_coll (text "po") >>= λ r. borrow r.0 >>= λ s. lift (check_pop s.kind) >>= λ _.
    lift (excl (text "po") r.1 s) >>= λ s.
    lift (po_change s.kind s) >>= λ taken. write_store r.0 taken.1 >>= λ _. push taken.0

unfoldable pub b_gt : Action (Unit {0})
b_gt = pop (text "gt") >>= λ key. top_coll (text "gt") >>= λ r. borrow r.0 >>= λ s.
    lift (coll_live (text "gt") s) >>= λ s. reading (λ heap. gt_value key heap s.kind s) >>= push

-- whether the top is a trie
abbrev pub is_ti : Option CollStore → Bool
is_ti none = false
is_ti (some s) = elim s.kind [ ti ↦ true | _ ↦ false ]

abbrev pub trie_on_top : List Value → List CollStore → Bool
trie_on_top (coll r e ∷ xs) heap = is_ti (get_elem? heap r)
trie_on_top _ heap = false

abbrev pub pt_trie : Value → Action (Unit {0})
pt_trie top = top_coll (text "pt") >>= λ r. borrow r.0 >>= λ s.
    lift (excl (text "pt") r.1 s) >>= λ s.
    reading (λ heap. trie_change r.0 top heap s) >>= write_store r.0

abbrev pub pt_other : Value → Action (Unit {0})
pt_other top = pop (text "pt") >>= λ key. top_coll (text "pt") >>= λ r. borrow r.0 >>= λ s.
    lift (excl (text "pt") r.1 s) >>= λ s.
    reading (λ heap. pt_change r.0 key top heap s.kind s) >>= write_store r.0

unfoldable pub b_pt : Action (Unit {0})
b_pt = pop (text "pt") >>= λ top v.
    (if trie_on_top v.stack v.heap then pt_trie top else pt_other top) v

unfoldable pub b_hs : Action (Unit {0})
b_hs = pop (text "hs") >>= λ x. top_coll (text "hs") >>= λ r. borrow r.0 >>= λ s.
    lift (coll_live (text "hs") s) >>= λ s. reading (λ heap. hs_value x heap s.kind s) >>= push

unfoldable pub b_sk : Action (Unit {0})
b_sk = top_coll (text "sk") >>= λ r. borrow r.0 >>= λ s.
    lift (coll_live (text "sk") s) >>= λ s. lift (sk_text s.kind s) >>= λ shown. push (str shown)

unfoldable pub b_px : Action (Unit {0})
b_px = pop (text "px") >>= λ prefix. top_coll (text "px") >>= λ r. borrow r.0 >>= λ s.
    lift (coll_live (text "px") s) >>= λ s.
    reading (λ heap. px_text prefix heap s.kind s) >>= λ shown. push (str shown)

-- `CollStore::count` and `coll_len`
abbrev pub count : Kind → CollStore → ℕ
count ls s = length s.items
count qu s = length s.items
count rg s = length s.items
count sc s = length s.set
count mp s = length s.order
count te s = tree_count s.root
count ti s = s.trie_n
count pq s = length s.heap
count _ s = s.nbits

abbrev pub coll_len : CollStore → Result ℤ
coll_len s = continue_len (coll_live (text "ln") s)
  where
    continue_len : Result CollStore → Result ℤ
    continue_len (ok s) = ok (pos (count s.kind s))
    continue_len (err e) = err e
    continue_len panic = panic
    continue_len out_of_fuel = out_of_fuel

-- `format_coll`; the flag is whether `try_borrow` fails
abbrev pub format_coll : Bool → CollStore → Bool → Text
format_coll true s exclusive = text "coll(?)"
format_coll false s exclusive =
    kind_text s.kind
    ++ (if exclusive then [] else 0x26 ∷ [])
    ++ 0x28 ∷ (if s.freed then 0x2d ∷ [] else show_int (pos (count s.kind s)))
    ++ 0x29 ∷ []

-- The words of collections.
pub data Word : Type 0 where
  make : Kind → Word
  ps po gt pt hs sk px : Word

abbrev pub make_store : Kind → Action (Unit {0})
make_store rg = b_sized (text "rg") rg
make_store bm = b_sized (text "bm") bm
make_store bv = b_sized (text "bv") bv
make_store kind = push_coll (fresh kind)

abbrev pub run : Word → Action (Unit {0})
run (make kind) = make_store kind
run ps = b_ps
run po = b_po
run gt = b_gt
run pt = b_pt
run hs = b_hs
run sk = b_sk
run px = b_px
