-- ===== src/Bits.antt =====
-- Laws of the bit operations that the protocol code uses, as arithmetic.
mod Step
use Step.{bit_or_step, bit_and_step, bit_xor_step, differ-lt, differ-mod_cancel, differ_comm}
use Prim.Native.Nat.{differ, bit_xor-bitwise, bit_or-bitwise}
use native.Mathlib.Nat.{pow-suc}
use usbmux_tool.Base.{
  ℕ, zero, suc, ◌+◌, ◌*◌, ◌/◌, ◌%◌, ◌^◌, ◌-◌, ◌≤◌, ◌<◌, bit_and, bit_or, bit_xor, ◌≡◌, refl, arith,
  ap,
}

bit_or-zero_below : (n a : ℕ) → a ≤ n → bit_or a 0 ≡ a
bit_or-zero_below n zero h = refl
bit_or-zero_below zero (suc a) h = absurd (omega arith)
bit_or-zero_below (suc n) (suc a) h =
    omega (arith, bit_or_step (suc a) 0, bit_or-zero_below n (suc a / 2) (omega arith))

bit_and-zero_below : (n a : ℕ) → a ≤ n → bit_and a 0 ≡ 0
bit_and-zero_below n zero h = refl
bit_and-zero_below zero (suc a) h = absurd (omega arith)
bit_and-zero_below (suc n) (suc a) h =
    omega (arith, bit_and_step (suc a) 0, bit_and-zero_below n (suc a / 2) (omega arith))

-- `a | (b << k)` of fields that do not overlap is a sum.
pub bit_or-shift : (k a b : ℕ) → a < 2 ^ k → bit_or a (b * 2 ^ k) ≡ a + b * 2 ^ k
bit_or-shift zero zero b h = omega (arith, bit_or-bitwise 0 (b * 2 ^ 0))
bit_or-shift zero (suc a) b h = absurd (omega arith)
bit_or-shift (suc k) a b h = omega (
  arith,
  bit_or_step a (b * 2 ^ suc k),
  ap (λ (t : ℕ). b * t) (pow-suc 2 k),
  pow-suc 2 k,
  ap (λ (t : ℕ). bit_or (a / 2) t) (half_shift b k),
  bit_or-shift k (a / 2) b (omega (arith, pow-suc 2 k)),
)
  where
    half_shift : (b k : ℕ) → b * 2 ^ suc k / 2 ≡ b * 2 ^ k
    half_shift b k = omega (arith, ap (λ (t : ℕ). b * t) (pow-suc 2 k))

-- `a & 0xFF` is the low byte.
pub bit_and-255 : (a : ℕ) → bit_and a 255 ≡ a % 256
bit_and-255 a = omega (
  arith,
  bit_and_step a 255,
  bit_and_step (a / 2) 127,
  bit_and_step (a / 2 / 2) 63,
  bit_and_step (a / 2 / 2 / 2) 31,
  low_four (a / 2 / 2 / 2 / 2),
)
  where
    low_four : (b : ℕ) → bit_and b 15 ≡ b % 16
    low_four b = omega (
      arith,
      bit_and_step b 15,
      bit_and_step (b / 2) 7,
      bit_and_step (b / 2 / 2) 3,
      bit_and_step (b / 2 / 2 / 2) 1,
      bit_and-zero_below (b / 2 / 2 / 2 / 2) (b / 2 / 2 / 2 / 2) (omega arith),
    )

bit_xor-lt : (k a b : ℕ) → a < 2 ^ k → b < 2 ^ k → bit_xor a b < 2 ^ k
bit_xor-lt zero zero b p q = omega (arith, bit_xor-bitwise 0 b)
bit_xor-lt zero (suc a) b p q = absurd (omega arith)
bit_xor-lt (suc k) a b p q = omega (
  arith,
  bit_xor_step a b,
  differ-lt a b,
  pow-suc 2 k,
  bit_xor-lt k (a / 2) (b / 2) (omega (arith, pow-suc 2 k)) (omega (arith, pow-suc 2 k)),
)

pub bit_xor-lt_16 : (a b : ℕ) → a < 65536 → b < 65536 → bit_xor a b < 65536
bit_xor-lt_16 a b p q = bit_xor-lt 16 a b p q

cancel_below : (n a b : ℕ) → a ≤ n → b ≤ n → bit_xor (bit_xor a b) b ≡ a
cancel_below zero zero zero p q = refl
cancel_below zero (suc a) b p q = absurd (omega arith)
cancel_below zero zero (suc b) p q = absurd (omega arith)
cancel_below (suc n) a b p q =
    rw (bit_xor_step (bit_xor a b) b, high, low, differ-mod_cancel a b)
      (omega (arith, cancel_below n (a / 2) (b / 2) (omega arith) (omega arith)))
  where
    high : bit_xor a b / 2 ≡ bit_xor (a / 2) (b / 2)
    high = omega (arith, bit_xor_step a b, differ-lt a b)

    low : bit_xor a b % 2 ≡ differ (a % 2) (b % 2)
    low = omega (arith, bit_xor_step a b, differ-lt a b)

-- An exclusive or is undone by itself.
pub bit_xor_cancel : (a b : ℕ) → bit_xor (bit_xor a b) b ≡ a
bit_xor_cancel a b = cancel_below (a + b) a b (omega arith) (omega arith)

comm_below : (n a b : ℕ) → a ≤ n → b ≤ n → bit_xor a b ≡ bit_xor b a
comm_below zero zero zero p q = refl
comm_below zero (suc a) b p q = absurd (omega arith)
comm_below zero zero (suc b) p q = absurd (omega arith)
comm_below (suc n) a b p q = omega (
  arith,
  bit_xor_step a b,
  bit_xor_step b a,
  differ_comm (a % 2) (b % 2),
  comm_below n (a / 2) (b / 2) (omega arith) (omega arith),
)

pub bit_xor_comm : (a b : ℕ) → bit_xor a b ≡ bit_xor b a
bit_xor_comm a b = comm_below (a + b) a b (omega arith) (omega arith)
