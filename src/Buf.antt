-- ===== src/Buf.antt =====
-- zownc/crates/zown-vm/src/buf.rs: byte buffers, with one exclusive owner each.
pub mod Lists
mod Safe
mod Laws
mod Alias
mod Tests
use zown.Prelude.{
  ℕ, zero, suc, ◌+◌, ◌-◌, ◌^◌, Bool, true, false, not, ◌&&◌, ◌||◌, List, [], ◌∷◌, ◌++◌, Option,
  none, some, Text, text, length, get_elem?, ltb, leb, ◌==◌, if◌then◌else◌,
}
use zown.Prelude.Int.{ℤ, pos, negsuc}
use zown.Prelude.Outcome.{Outcome, ok, err, panic, out_of_fuel}

-- A value that these words take apart, and `Value::Res`, which boxes a value; of the others, which
-- hold no buffer, the words read the name of the type alone.
pub data Value : Type 0 where
  int : ℤ → Value
  buf : (alloc : ℕ) → (exclusive : Bool) → Value
  res : (is_ok : Bool) → (val : Value) → Value
  other : (type_name : Text) → Value

-- `BufAlloc`
pub record Alloc : Type 0 where
  pub data_ : Option (List ℕ)
  pub n : ℕ

-- The top of the stack is its head. The values share an allocation through its place in `heap`.
pub record Vm : Type 0 where
  pub stack : List Value
  pub heap : List Alloc

pub data Code : Type 0 where
  type_mismatch bounds stack_underflow : Code

-- A constructor stands for a message of the source with its hint.
pub data Msg : Type 0 where
  empty_stack needs_value needs_two : Msg
  expected : Text → Text → Msg
  below_zero above_limit : ℤ → Msg
  needs_buffer got_borrow was_freed : Msg
  byte_outside outside_empty : ℤ → Msg
  outside : ℤ → ℕ → Msg

pub record Fault : Type 0 where
  pub code : Code
  pub msg : Msg
  pub word : Text

-- A word changes the machine, also where it ends in a fault.
abbrev pub Action : Type 0 → Type 0
Action A = Vm → Vm × Outcome Fault A

infixl 5 ◌>>=◌
abbrev pub continue : {A B : Type 0} → Vm × Outcome Fault A → (A → Action B) → Vm × Outcome Fault B
continue (v, ok a) k = k a v
continue (v, err e) k = (v, err e)
continue (v, panic) k = (v, panic)
continue (v, out_of_fuel) k = (v, out_of_fuel)

abbrev pub ◌>>=◌ : {A B : Type 0} → Action A → (A → Action B) → Action B
(m >>= k) v = continue (m v) k

abbrev pub pure : {A : Type 0} → A → Action A
pure a v = (v, ok a)

abbrev pub fail : {A : Type 0} → Code → Msg → Text → Action A
fail c m w v = (v, err (record { code = c; msg = m; word = w }))

abbrev pub panicked : {A : Type 0} → Action A
panicked v = (v, panic)

abbrev pub push : Value → Action (Unit {0})
push x v = (record v { stack = x ∷ v.stack }, ok tt)

abbrev pub pop_from : Text → List Value → Action Value
pop_from w [] v = fail stack_underflow empty_stack w v
pop_from w (x ∷ xs) v = (record v { stack = xs }, ok x)

unfoldable pub pop : Text → Action Value
pop w v = pop_from w v.stack v

abbrev pub type_name : Value → Text
type_name (int n) = text "int"
type_name (buf a e) = text "buf"
type_name (res o x) = text "res"
type_name (other s) = s

abbrev pub as_int : Text → Text → Value → Action ℤ
as_int w what (int n) = pure n
as_int w what x = fail type_mismatch (expected what (type_name x)) w

unfoldable pub pop_buf_int : Text → Text → Action ℤ
pop_buf_int w what = pop w >>= as_int w what

abbrev pub buf_max : ℕ
buf_max = 2 ^ 20

-- `vec![0; n]`
abbrev pub zeroed : ℕ → List ℕ
zeroed zero = []
zeroed (suc n) = 0 ∷ zeroed n

abbrev pub allocate : ℕ → Action (Unit {0})
allocate n v = (
  record {
    stack = buf (length v.heap) true ∷ v.stack;
    heap = v.heap ++ record { data_ = some (zeroed n); n = n } ∷ [];
  },
  ok tt,
)

abbrev pub sized : ℤ → Action (Unit {0})
sized (negsuc k) = fail type_mismatch (below_zero (negsuc k)) (text "bf")
sized (pos n) = if ltb buf_max n then fail bounds (above_limit (pos n)) (text "bf") else allocate n

unfoldable pub b_bf : Action (Unit {0})
b_bf = pop_buf_int (text "bf") (text "an int >= 0") >>= sized

-- `self.stack.last()` as a buffer
abbrev pub buffer_of : Text → List Value → Action (ℕ × Bool)
buffer_of w [] = fail stack_underflow needs_buffer w
buffer_of w (buf a e ∷ xs) = pure (a, e)
buffer_of w (int n ∷ xs) = fail type_mismatch (expected (text "a buf") (text "int")) w
buffer_of w (res o x ∷ xs) = fail type_mismatch (expected (text "a buf") (text "res")) w
buffer_of w (other s ∷ xs) = fail type_mismatch (expected (text "a buf") s) w

unfoldable pub last_buffer : Text → Action (ℕ × Bool)
last_buffer w v = buffer_of w v.stack v

-- the allocation behind a value; the machine holds no reference past its heap
abbrev pub deref : Option Alloc → Action Alloc
deref none = panicked
deref (some a) = pure a

abbrev pub borrow : ℕ → Action Alloc
borrow i v = deref (get_elem? v.heap i) v

-- an index that is not below 0, and is below the length
abbrev pub in_range : ℤ → ℕ → Option ℕ
in_range (pos i) n = if ltb i n then some i else none
in_range (negsuc i) n = none

abbrev pub range_fault : {A : Type 0} → Text → ℤ → ℕ → Action A
range_fault w i zero = fail bounds (outside_empty i) w
range_fault w i (suc n) = fail bounds (outside i n) w

abbrev pub byte_at : Option ℕ → Action ℕ
byte_at none = panicked
byte_at (some b) = pure b

abbrev pub read_at : ℤ → List ℕ → Option ℕ → Action ℕ
read_at i d none = range_fault (text "bg") i (length d)
read_at i d (some k) = byte_at (get_elem? d k)

abbrev pub read_live : ℤ → Option (List ℕ) → Action ℕ
read_live i none = fail bounds was_freed (text "bg")
read_live i (some d) = read_at i d (in_range i (length d))

unfoldable pub b_bg : Action (Unit {0})
b_bg = pop_buf_int (text "bg") (text "an int index") >>= λ i. last_buffer (text "bg") >>= λ r.
    borrow r.0 >>= λ a. read_live i a.data_ >>= λ b. push (int (pos b))

-- `data[i] = b`; `none` past the end
unfoldable pub set_elem? {ℓ} : {A : Type ℓ} → List A → ℕ → A → Option (List A)
set_elem? [] i y = none
set_elem? (x ∷ xs) zero y = some (y ∷ xs)
set_elem? (x ∷ xs) (suc i) y = elim (set_elem? xs i y) [ none ↦ none | some ys ↦ some (x ∷ ys) ]

abbrev pub store_heap : Option (List Alloc) → Action (Unit {0})
store_heap none v = (v, panic)
store_heap (some h) v = (record v { heap = h }, ok tt)

abbrev pub write_alloc : ℕ → Alloc → Action (Unit {0})
write_alloc r a v = store_heap (set_elem? v.heap r a) v

abbrev pub store_data : ℕ → ℕ → Option (List ℕ) → Action (Unit {0})
store_data r n none = panicked
store_data r n (some d) = write_alloc r (record { data_ = some d; n = n })

abbrev pub write_at : ℕ → ℤ → ℕ → ℕ → List ℕ → Option ℕ → Action (Unit {0})
write_at r i b n d none = range_fault (text "bp") i n
write_at r i b n d (some k) = store_data r n (set_elem? d k b)

abbrev pub write_live : ℕ → ℤ → ℕ → Alloc → Option (List ℕ) → Action (Unit {0})
write_live r i b a none = fail bounds was_freed (text "bp")
write_live r i b a (some d) = write_at r i b a.n d (in_range i a.n)

abbrev pub write_byte : ℕ → ℤ → ℤ → Action (Unit {0})
write_byte r i (negsuc k) = fail bounds (byte_outside (negsuc k)) (text "bp")
write_byte r i (pos b) =
    if ltb 255 b
    then fail bounds (byte_outside (pos b)) (text "bp")
    else borrow r >>= λ a. write_live r i b a a.data_

abbrev pub write_owned : ℤ → ℤ → ℕ × Bool → Action (Unit {0})
write_owned i b (r, true) = write_byte r i b
write_owned i b (r, false) = fail type_mismatch got_borrow (text "bp")

unfoldable pub b_bp : Action (Unit {0})
b_bp = pop_buf_int (text "bp") (text "an int byte") >>= λ b.
    pop_buf_int (text "bp") (text "an int index") >>= λ i.
    last_buffer (text "bp") >>= write_owned i b

-- `release_buf` of a value that is dropped
abbrev pub release_buf : Value → Action (Unit {0})
release_buf (buf r true) = borrow r >>= λ a. write_alloc r (record { data_ = none; n = a.n })
release_buf _ = pure tt

unfoldable pub op_drop : Action (Unit {0})
op_drop = pop (text ",") >>= release_buf

-- the copy that `=` and `&` push; the clone of a result has its value as it is, also an owner
abbrev pub borrowed : Value → Value
borrowed (buf r e) = buf r false
borrowed (int n) = int n
borrowed (res o x) = res o x
borrowed (other s) = other s

abbrev pub dup_from : List Value → Action (Unit {0})
dup_from [] = fail stack_underflow needs_value (text "=")
dup_from (x ∷ xs) = push (borrowed x)

unfoldable pub op_dup : Action (Unit {0})
op_dup v = dup_from v.stack v

unfoldable pub op_swap : Action (Unit {0})
op_swap = pop (text "\\") >>= λ b. pop (text "\\") >>= λ a. push b >>= λ _. push a

abbrev pub over_from : List Value → Action (Unit {0})
over_from (x ∷ y ∷ xs) = push (borrowed y)
over_from (x ∷ []) = fail stack_underflow needs_two (text "&")
over_from [] = fail stack_underflow needs_two (text "&")

unfoldable pub op_over : Action (Unit {0})
op_over v = over_from v.stack v

-- The words of the module, and those that move values about the stack: `,`, `=`, `\` and `&`.
pub data Word : Type 0 where
  bf bg bp drop dup swap over : Word

abbrev pub run : Word → Action (Unit {0})
run bf = b_bf
run bg = b_bg
run bp = b_bp
run drop = op_drop
run dup = op_dup
run swap = op_swap
run over = op_over
