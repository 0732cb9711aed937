-- ===== src/Coll/Words/Bits.antt =====
-- zownc/crates/zown-vm/src/coll.rs: bits, hash maps and sets of a collection, and `fnv`.
use Prim.Native.Nat.{bit_xor}
use zown.Prelude.{
  ℕ, ◌+◌, ◌-◌, ◌*◌, ◌/◌, ◌%◌, ◌^◌, Bool, false, ◌||◌, List, [], ◌∷◌, ◌++◌, Option, none, some, Text,
  text_eq, get_elem?, ltb, ◌==◌, if◌then◌else◌, ◌>>=◌,
}
use zown.Prelude.Int.{ℤ, pos, negsuc}
use zown.Buf.{set_elem?}
use zown.Coll.Store.{Elem}

-- `(byte >> k) & 1 == 1`
abbrev pub test_bit : ℕ → ℕ → Bool
test_bit byte k = byte / 2 ^ k % 2 == 1

-- `byte | 1 << k` and `byte & !(1 << k)`
abbrev pub or_bit : ℕ → ℕ → ℕ
or_bit byte k = if test_bit byte k then byte else byte + 2 ^ k

abbrev pub clear_bit : ℕ → ℕ → ℕ
clear_bit byte k = if test_bit byte k then byte - 2 ^ k else byte

-- `bits[i / 8]`, read and changed; `none` past the end
abbrev pub read_bit : List ℕ → ℕ → Option Bool
read_bit bits i = get_elem? bits (i / 8) >>= λ byte. some (test_bit byte (i % 8))

abbrev pub change_bit : (ℕ → ℕ → ℕ) → List ℕ → ℕ → Option (List ℕ)
change_bit change bits i =
    get_elem? bits (i / 8) >>= λ byte. set_elem? bits (i / 8) (change byte (i % 8))

-- `text.as_bytes()`
abbrev pub utf8 : ℕ → List ℕ
utf8 c =
    if ltb c 0x80
    then c ∷ []
    else if ltb c 0x800
    then (0xc0 + c / 64) ∷ (0x80 + c % 64) ∷ []
    else if ltb c 0x10000
    then (0xe0 + c / 4096) ∷ (0x80 + c / 64 % 64) ∷ (0x80 + c % 64) ∷ []
    else (0xf0 + c / 262144) ∷ (0x80 + c / 4096 % 64) ∷ (0x80 + c / 64 % 64) ∷ (0x80 + c % 64) ∷ []

abbrev pub as_bytes : Text → List ℕ
as_bytes [] = []
as_bytes (c ∷ s) = utf8 c ++ as_bytes s

abbrev pub fnv_loop : ℕ → List ℕ → ℕ
fnv_loop h [] = h
fnv_loop h (byte ∷ bytes) = fnv_loop (bit_xor h byte * 16777619 % 2 ^ 32) bytes

unfoldable pub fnv : Text → ℕ
fnv s = fnv_loop 2166136261 (as_bytes s)

abbrev pub int_eq : ℤ → ℤ → Bool
int_eq (pos m) (pos n) = m == n
int_eq (negsuc m) (negsuc n) = m == n
int_eq _ _ = false

abbrev pub elem_eq : Elem → Elem → Bool
elem_eq (Elem.int m) (Elem.int n) = int_eq m n
elem_eq (Elem.str s) (Elem.str t) = text_eq s t
elem_eq _ _ = false

-- `HashSet::contains`
abbrev pub set_contains : List Elem → Elem → Bool
set_contains [] e = false
set_contains (x ∷ xs) e = elem_eq x e || set_contains xs e

-- `HashMap::get` and `HashMap::insert`
abbrev pub pair_get : List (Text × Elem) → Text → Option Elem
pair_get [] key = none
pair_get (p ∷ ps) key = if text_eq p.0 key then some p.1 else pair_get ps key

abbrev pub pair_insert : List (Text × Elem) → Text → Elem → List (Text × Elem)
pair_insert [] key val = (key, val) ∷ []
pair_insert (p ∷ ps) key val =
    if text_eq p.0 key then (p.0, val) ∷ ps else p ∷ pair_insert ps key val
