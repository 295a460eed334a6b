-- ===== src/Prelude/Bits.antt =====
-- The bit operations on a machine word, one bit after the other from the lowest up. The width is
-- the number of bits that the word has.
use Prim.Native.Nat.{ℕ, zero, suc, ◌+◌, ◌-◌, ◌*◌, ◌/◌, ◌%◌, ◌<◌, min, max}
use mathlib.Core.Path.{◌≡◌}
use native.Mathlib.Omega.{arith}

-- Bit `i` of a word.
abbrev pub bit : ℕ → ℕ → ℕ
bit zero a = a % 2
bit (suc i) a = bit i (a / 2)

pub bit-lt : (i a : ℕ) → bit i a < 2
bit-lt zero a = omega arith
bit-lt (suc i) a = bit-lt i (a / 2)

module _ (f : ℕ → ℕ → ℕ) where
  -- The word whose bits `f` makes from the bits of two words.
  abbrev pub bitwise : ℕ → ℕ → ℕ → ℕ
  bitwise zero a b = 0
  bitwise (suc width) a b = bitwise width (a / 2) (b / 2) * 2 + f (a % 2) (b % 2)

  -- Where `f` makes a bit from two bits, it makes each bit of the word.
  bit-bitwise :
      ((x y : ℕ) → x < 2 → y < 2 → f x y < 2)
      → (width i a b : ℕ) → i < width
      → bit i (bitwise width a b) ≡ f (bit i a) (bit i b)
  bit-bitwise small zero i a b h = absurd (omega arith)
  bit-bitwise small (suc width) zero a b h =
      omega (arith, small (a % 2) (b % 2) (omega arith) (omega arith))
  bit-bitwise small (suc width) (suc i) a b h =
      let lowest = small (a % 2) (b % 2) (omega arith) (omega arith) in
      let e : bitwise (suc width) a b / 2 ≡ bitwise width (a / 2) (b / 2) = omega (arith, lowest) in
      rw e (bit-bitwise small width i (a / 2) (b / 2) (omega arith))

-- On a `uint8_t`: `a | b`, `a & b`, and `a & ~b`.
abbrev pub bit_or : ℕ → ℕ → ℕ
bit_or a b = bitwise max 8 a b

abbrev pub bit_and : ℕ → ℕ → ℕ
bit_and a b = bitwise min 8 a b

abbrev pub bit_diff : ℕ → ℕ → ℕ
bit_diff a b = bitwise (◌-◌) 8 a b

pub bit-bit_or : (i a b : ℕ) → i < 8 → bit i (bit_or a b) ≡ max (bit i a) (bit i b)
bit-bit_or i a b h = bit-bitwise max (λ x y p q. omega arith) 8 i a b h

pub bit-bit_and : (i a b : ℕ) → i < 8 → bit i (bit_and a b) ≡ min (bit i a) (bit i b)
bit-bit_and i a b h = bit-bitwise min (λ x y p q. omega arith) 8 i a b h

pub bit-bit_diff : (i a b : ℕ) → i < 8 → bit i (bit_diff a b) ≡ bit i a - bit i b
bit-bit_diff i a b h = bit-bitwise (◌-◌) (λ x y p q. omega arith) 8 i a b h
