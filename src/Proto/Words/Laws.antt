-- ===== src/Proto/Words/Laws.antt =====
-- The accessors as arithmetic.
use usbmux_tool.Base.{ℕ, ◌+◌, ◌*◌, ◌/◌, ◌%◌, ◌^◌, ◌<◌, ◌≡◌, arith, List, byte_at, set}
use usbmux_tool.Bits.{bit_or-shift, bit_and-255}
use usbmux_tool.Proto.Words.{read_le16, write_le16, read_le32}

pub read_le16_lem :
    (src : List ℕ) (at : ℕ)
    → byte_at src at < 256
    → byte_at src (at + 1) < 256
    → read_le16 src at ≡ byte_at src at + byte_at src (at + 1) * 256
unfolding read_le16
read_le16_lem src at p q = omega (arith, bit_or-shift 8 (byte_at src at) (byte_at src (at + 1)) p)

pub read_le32_lem :
    (src : List ℕ) (at : ℕ)
    → byte_at src at < 256
    → byte_at src (at + 1) < 256
    → byte_at src (at + 2) < 256
    → byte_at src (at + 3) < 256
    → read_le32 src at
      ≡ byte_at src at
        + byte_at src (at + 1) * 256
        + byte_at src (at + 2) * 2 ^ 16
        + byte_at src (at + 3) * 2 ^ 24
unfolding read_le32
read_le32_lem src at p q r s =
    let a = byte_at src at in
    let b = byte_at src (at + 1) in
    let c = byte_at src (at + 2) in
    let d = byte_at src (at + 3) in
    rw
      (
        bit_or-shift 8 a b p,
        bit_or-shift 16 (a + b * 2 ^ 8) c (omega arith),
        bit_or-shift 24 (a + b * 2 ^ 8 + c * 2 ^ 16) d (omega arith),
      )
      (omega arith)

-- What is written is the low and the high byte.
pub write_le16_lem :
    (dst : List ℕ) (at value : ℕ)
    → value < 2 ^ 16
    → write_le16 dst at value ≡ set (set dst at (value % 256)) (at + 1) (value / 256)
unfolding write_le16
write_le16_lem dst at value h = rw (bit_and-255 value, low, high)
  where
    low : value % 256 % 2 ^ 8 ≡ value % 256
    low = omega arith

    high : value / 2 ^ 8 % 2 ^ 8 ≡ value / 256
    high = omega arith
