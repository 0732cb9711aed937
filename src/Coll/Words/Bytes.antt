-- ===== src/Coll/Words/Bytes.antt =====
-- Bits that are read and written in a vector of bytes.
use zown.Prelude.{
  ℕ, zero, suc, ◌+◌, ◌/◌, ◌%◌, ◌<◌, ◌≡◌, refl, ◌∙◌, Bool, true, List, [], ◌∷◌, some, length, All,
  arith,
}
use zown.Buf.Lists.{get-All, set_elem?_lem}
use zown.Coll.Words.Bits.{test_bit, or_bit, clear_bit, read_bit, change_bit}

-- a place in a byte
pub bit-cases :
    (P : ℕ → Type 0) → P 0 → P 1 → P 2 → P 3 → P 4 → P 5 → P 6 → P 7 → (k : ℕ) → k < 8 → P k
bit-cases P a b c d e f g h zero l = a
bit-cases P a b c d e f g h (suc zero) l = b
bit-cases P a b c d e f g h (suc (suc zero)) l = c
bit-cases P a b c d e f g h (suc (suc (suc zero))) l = d
bit-cases P a b c d e f g h (suc (suc (suc (suc zero)))) l = e
bit-cases P a b c d e f g h (suc (suc (suc (suc (suc zero))))) l = f
bit-cases P a b c d e f g h (suc (suc (suc (suc (suc (suc zero)))))) l = g
bit-cases P a b c d e f g h (suc (suc (suc (suc (suc (suc (suc zero))))))) l = h
bit-cases P a b c d e f g h (suc (suc (suc (suc (suc (suc (suc (suc n)))))))) l =
    absurd (omega arith)

abbrev Ored : ℕ → ℕ → Type 0
Ored b k = (or_bit b k < 256) × (test_bit (or_bit b k) k ≡ true)

or_bit_lem : (b k : ℕ) → b < 256 → k < 8 → Ored b k
or_bit_lem b k h l =
    bit-cases (Ored b) (ground arith) (ground arith) (ground arith) (ground arith) (ground arith)
      (ground arith) (ground arith) (ground arith) k l

-- a place in a vector of bytes
place_lem : (i n : ℕ) → i < n → i / 8 < (n + 7) / 8
place_lem i n h = omega arith

pub change_bit_lem :
    (change : ℕ → ℕ → ℕ) (bits : List ℕ) (i n : ℕ)
    → ((b k : ℕ) → b < 256 → k < 8 → change b k < 256)
    → length bits ≡ (n + 7) / 8
    → All (λ b. b < 256) bits
    → i < n
    → (bits' : List ℕ) × (change_bit change bits i ≡ some bits')
      × (length bits' ≡ (n + 7) / 8)
      × All (λ b. b < 256) bits'
change_bit_lem change bits i n small size bytes h =
    let inside : i / 8 < length bits = omega (arith, size, place_lem i n h) in
    let (b, e, byte) = get-All (λ b. b < 256) bits (i / 8) bytes inside in
    let (bits', set, l, at, rest, all) = set_elem?_lem bits (i / 8) (change b (i % 8)) inside in
    (
      bits',
      rw (e, set) refl,
      l ∙ size,
      all (λ b. b < 256) (small b (i % 8) byte (omega arith)) bytes,
    )

pub read_bit_lem :
    (bits : List ℕ) (i n : ℕ)
    → length bits ≡ (n + 7) / 8
    → i < n
    → (b : Bool) × (read_bit bits i ≡ some b)
read_bit_lem bits i n size h =
    let (b, e, u) =
      get-All (λ b. Unit {0}) bits (i / 8) (units bits) (omega (arith, size, place_lem i n h)) in
    (test_bit b (i % 8), rw e refl)
  where
    units : (bits : List ℕ) → All (λ b. Unit {0}) bits
    units [] = tt
    units (b ∷ bits) = (tt, units bits)

pub or_bit-byte : (b k : ℕ) → b < 256 → k < 8 → or_bit b k < 256
or_bit-byte b k h l = (or_bit_lem b k h l).0

pub clear_bit-byte : (b k : ℕ) → b < 256 → k < 8 → clear_bit b k < 256
clear_bit-byte b k h l = ground arith
