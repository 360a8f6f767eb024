-- ===== src/Base/Int.antt =====
-- The signed `int` of C. Its values are integers; the conversions from and to `size_t` (64 bits)
-- are written out.
use Prim.Native.Nat.{ℕ, zero, suc, ◌-◌, ◌%◌, ◌^◌, ◌≤◌, ◌<◌}
use mathlib.Core.Bool.{Bool, true, false}
use mathlib.Core.Path.{◌≡◌, refl}
use native.Mathlib.Omega.{arith}
use usbmux_tool.Base.Tests.{ltb, ◌==◌, if◌then◌else◌}

-- `negsuc n` is -(n + 1).
pub data ℤ : Type 0 where
  pos : ℕ → ℤ
  negsuc : ℕ → ℤ

-- `v == 0`
abbrev pub is_zero : ℤ → Bool
is_zero (pos zero) = true
is_zero (pos (suc n)) = false
is_zero (negsuc n) = false

-- `v <= 0`
abbrev pub is_nonpositive : ℤ → Bool
is_nonpositive (pos zero) = true
is_nonpositive (pos (suc n)) = false
is_nonpositive (negsuc n) = true

-- `(int)n` for a `size_t` n: the low 32 bits, read in two's complement.
abbrev pub int_of_size : ℕ → ℤ
int_of_size n =
    let low = n % 2 ^ 32 in if ltb low (2 ^ 31) then pos low else negsuc (2 ^ 32 - low - 1)

-- `(size_t)v` for an `int` v.
abbrev pub size_of_int : ℤ → ℕ
size_of_int (pos n) = n
size_of_int (negsuc n) = 2 ^ 64 - suc n

-- `a == b` on `int`
abbrev pub int_eq : ℤ → ℤ → Bool
int_eq (pos a) (pos b) = a == b
int_eq (pos a) (negsuc b) = false
int_eq (negsuc a) (pos b) = false
int_eq (negsuc a) (negsuc b) = a == b

-- `a < b` on `int`
abbrev pub int_lt : ℤ → ℤ → Bool
int_lt (pos a) (pos b) = ltb a b
int_lt (pos a) (negsuc b) = false
int_lt (negsuc a) (pos b) = true
int_lt (negsuc a) (negsuc b) = ltb b a

-- The magnitude of a value that is not negative.
abbrev pub pos_part : ℤ → ℕ
pos_part (pos n) = n
pos_part (negsuc n) = 0

-- The conversions agree with the number where it fits an `int` and is not negative.
pub int_of_size_small : (n : ℕ) → n < 2 ^ 31 → int_of_size n ≡ pos n
int_of_size_small n h = ground arith

pub size_of_int_pos : (v : ℤ) → v ≡ pos (pos_part v) → size_of_int v ≡ pos_part v
size_of_int_pos (pos n) h = refl
size_of_int_pos (negsuc n) h = cc

pub positive : (v : ℤ) → is_nonpositive v ≡ false → 1 ≤ pos_part v
positive (pos zero) h = cc
positive (pos (suc n)) h = omega arith
positive (negsuc n) h = cc

-- So are the bytes of a transfer that moved some.
pub moved_some : (v : ℤ) → v ≡ pos (pos_part v) → 1 ≤ pos_part v → is_nonpositive v ≡ false
moved_some (pos zero) p q = absurd (omega arith)
moved_some (pos (suc n)) p q = refl
moved_some (negsuc n) p q = absurd (omega arith)
