-- ===== src/Coll/Words.antt =====
-- zownc/crates/zown-vm/src/coll.rs: the machine, and what the words share.
pub mod Bits
pub mod Changes
pub mod Show
pub mod Shown
pub mod Run
pub mod Order
pub mod Bytes
pub mod Kept
pub mod Taken
pub mod Put
pub mod Fresh
pub mod Steps
pub mod Laws
use zown.Prelude.{
  ℕ, zero, suc, ◌+◌, ◌-◌, ◌^◌, Bool, true, false, not, ◌&&◌, ◌||◌, List, [], ◌∷◌, ◌++◌, Option,
  none, some, Text, text, length, get_elem?, ltb, leb, ◌==◌, if◌then◌else◌,
}
use zown.Prelude.Int.{ℤ, pos, negsuc}
use zown.Prelude.Outcome.{Outcome, ok, err, panic}
use zown.Prelude.Action.{continue, ◌>>=◌, pure, panicked}
use zown.BigInt.Decimal.{is_whitespace}
use zown.Buf.{set_elem?}
use zown.Coll.Store.{Elem, Kind, ls, qu, mp, sc, te, ti, pq, rg, bm, bv, CollStore}

-- A value that these words take apart; of the other values they read the name of the type alone.
pub data Value : Type 0 where
  int : ℤ → Value
  str : Text → Value
  coll : (store : ℕ) → (exclusive : Bool) → Value
  other : (type_name : Text) → Value

-- The top of the stack is its head. The values share a collection through its place in `heap`.
pub record Vm : Type 0 where
  pub stack : List Value
  pub heap : List CollStore

pub data Code : Type 0 where
  type_mismatch bounds stack_underflow : Code

-- A constructor stands for a message of the source with its hint.
pub data Msg : Type 0 where
  empty_stack no_collection needs_exclusive was_freed one_line one_word above_limit : Msg
  not_collection not_element not_word not_int : Text → Msg
  least_capacity least_bits queue_empty : Msg
  cannot_push cannot_pop cannot_index cannot_update cannot_test cannot_scan not_trie is_empty :
      Kind → Msg
  outside_empty : ℤ → Msg
  outside_list outside_bits : ℤ → ℕ → Msg
  absent : Text → Msg
  not_bit : ℤ → Msg

pub record Fault : Type 0 where
  pub code : Code
  pub msg : Msg
  pub word : Text

abbrev pub Action : Type 0 → Type 0
Action A = Vm → Vm × Outcome Fault A

abbrev pub Result : Type 0 → Type 0
Result A = Outcome Fault A

abbrev pub fault : {A : Type 0} → Code → Msg → Text → Result A
fault c m w = err (record { code = c; msg = m; word = w })

abbrev pub push : Value → Action (Unit {0})
push x v = (record v { stack = x ∷ v.stack }, ok tt)

abbrev pub pop_from : Text → List Value → Action Value
pop_from w [] v = (v, fault stack_underflow empty_stack w)
pop_from w (x ∷ xs) v = (record v { stack = xs }, ok x)

unfoldable pub pop : Text → Action Value
pop w v = pop_from w v.stack v

abbrev pub kind_text : Kind → Text
kind_text ls = text "ls"
kind_text qu = text "qu"
kind_text mp = text "mp"
kind_text sc = text "sc"
kind_text te = text "te"
kind_text ti = text "ti"
kind_text pq = text "pq"
kind_text rg = text "rg"
kind_text bm = text "bm"
kind_text bv = text "bv"

abbrev pub kind_name : Option CollStore → Text
kind_name none = text "ls"
kind_name (some s) = kind_text s.kind

-- `type_name`; a collection that is borrowed mutably at the time, `held`, has the name `ls`
abbrev pub type_name : List CollStore → Option ℕ → Value → Text
type_name heap held (int n) = text "int"
type_name heap held (str s) = text "str"
type_name heap none (coll r e) = kind_name (get_elem? heap r)
type_name heap (some q) (coll r e) = if q == r then text "ls" else kind_name (get_elem? heap r)
type_name heap held (other s) = s

-- the collection on the top, with what `coll_flag` gives
abbrev pub coll_of : Text → List Value → List CollStore → Result (ℕ × Bool)
coll_of w [] heap = fault bounds no_collection w
coll_of w (coll r e ∷ xs) heap = ok (r, e)
coll_of w (x ∷ xs) heap = fault type_mismatch (not_collection (type_name heap none x)) w

abbrev pub top_coll : Text → Action (ℕ × Bool)
top_coll w v = (v, coll_of w v.stack v.heap)

-- the collection behind a value; the machine holds no reference past its heap
abbrev pub deref : Option CollStore → Result CollStore
deref none = panic
deref (some s) = ok s

abbrev pub borrow : ℕ → Action CollStore
borrow r v = (v, deref (get_elem? v.heap r))

-- `excl`
abbrev pub excl : Text → Bool → CollStore → Result CollStore
excl w true s = if s.freed then fault bounds was_freed w else ok s
excl w false s = fault type_mismatch needs_exclusive w

-- `coll_live`
abbrev pub coll_live : Text → CollStore → Result CollStore
coll_live w s = if s.freed then fault bounds was_freed w else ok s

abbrev pub store_heap : Option (List CollStore) → Action (Unit {0})
store_heap none v = (v, panic)
store_heap (some h) v = (record v { heap = h }, ok tt)

-- the end of a change through `g`
abbrev pub write_store : ℕ → CollStore → Action (Unit {0})
write_store r s v = store_heap (set_elem? v.heap r s) v

abbrev pub has_newline : Text → Bool
has_newline [] = false
has_newline (c ∷ s) = c == 10 || has_newline s

abbrev pub has_space : Text → Bool
has_space [] = false
has_space (c ∷ s) = is_whitespace c || has_space s

abbrev pub no_chars : Text → Bool
no_chars [] = true
no_chars (c ∷ s) = false

abbrev pub elem : Text → List CollStore → Option ℕ → Value → Result Elem
elem w heap held (int n) = ok (Elem.int n)
elem w heap held (str s) = if has_newline s then fault type_mismatch one_line w else ok (Elem.str s)
elem w heap held v = fault type_mismatch (not_element (type_name heap held v)) w

abbrev pub key_str : Text → List CollStore → Option ℕ → Value → Result Text
key_str w heap held (str s) =
    if no_chars s || has_space s then fault type_mismatch one_word w else ok s
key_str w heap held v = fault type_mismatch (not_word (type_name heap held v)) w

abbrev pub plain : Text → List CollStore → Option ℕ → Value → Result ℤ
plain w heap held (int n) = ok n
plain w heap held v = fault type_mismatch (not_int (type_name heap held v)) w

abbrev pub elem_value : Elem → Value
elem_value (Elem.int n) = int n
elem_value (Elem.str s) = str s

abbrev pub coll_max : ℕ
coll_max = 2 ^ 20

-- `if len + 1 > BUF_MAX`
abbrev pub room_for : Text → ℕ → Result (Unit {0})
room_for w n = if ltb coll_max n then fault bounds above_limit w else ok tt
