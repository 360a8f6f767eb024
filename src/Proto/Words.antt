-- ===== src/Proto/Words.antt =====
-- The little-endian accessors `read_le16` and `write_le16` of userspace/src/proto.c and their
-- 32-bit versions of userspace/src/uart.c, with the casts to the fixed widths.
pub mod Laws
use usbmux_tool.Base.{ℕ, ◌+◌, ◌*◌, ◌/◌, ◌%◌, ◌^◌, bit_and, bit_or, List, byte_at, set}

-- `(uint8_t)v`, `(uint16_t)v`, `(uint32_t)v`
abbrev pub u8 : ℕ → ℕ
u8 v = v % 2 ^ 8

abbrev pub u16 : ℕ → ℕ
u16 v = v % 2 ^ 16

abbrev pub u32 : ℕ → ℕ
u32 v = v % 2 ^ 32

infixl 66 ◌<<<◌ ◌>>>◌
abbrev pub ◌<<<◌ : ℕ → ℕ → ℕ
v <<< k = v * 2 ^ k

abbrev pub ◌>>>◌ : ℕ → ℕ → ℕ
v >>> k = v / 2 ^ k

-- `write_le16(&dst[at], value)`
unfoldable pub write_le16 : List ℕ → ℕ → ℕ → List ℕ
write_le16 dst at value = set (set dst at (u8 (bit_and value 0xff))) (at + 1) (u8 (value >>> 8))

-- `read_le16(&src[at])`
unfoldable pub read_le16 : List ℕ → ℕ → ℕ
read_le16 src at = u16 (bit_or (byte_at src at) (byte_at src (at + 1) <<< 8))

-- `write_le32(&dst[at], value)`
unfoldable pub write_le32 : List ℕ → ℕ → ℕ → List ℕ
write_le32 dst at value =
    let one = set dst at (u8 (bit_and value 0xff)) in
    let two = set one (at + 1) (u8 (bit_and (value >>> 8) 0xff)) in
    let three = set two (at + 2) (u8 (bit_and (value >>> 16) 0xff)) in
    set three (at + 3) (u8 (bit_and (value >>> 24) 0xff))

-- `read_le32(&src[at])`
unfoldable pub read_le32 : List ℕ → ℕ → ℕ
read_le32 src at = u32 (
    bit_or
      (bit_or (bit_or (byte_at src at) (byte_at src (at + 1) <<< 8)) (byte_at src (at + 2) <<< 16))
      (byte_at src (at + 3) <<< 24))
