-- ===== src/Proto/Crc.antt =====
-- `ch32mux_crc16` of userspace/src/proto.c.
pub mod Injective
use usbmux_tool.Base.{
  ℕ, zero, suc, ◌*◌, ◌^◌, bit_and, bit_xor, Option, none, some, List, [], ◌∷◌, length, take, Ret,
  ok, in_bounds, ◌>>◌, ◌!=◌, leb, if◌then◌else◌,
}
use usbmux_tool.Proto.Words.{u16, ◌<<<◌}

-- One round of the inner loop.
unfoldable pub crc_bit : ℕ → ℕ
crc_bit crc = if bit_and crc 0x8000 != 0 then u16 (bit_xor (crc <<< 1) 0x1021) else u16 (crc <<< 1)

-- The inner loop, with the rounds that are left.
unfoldable pub crc_bits : ℕ → ℕ → ℕ
crc_bits zero crc = crc
crc_bits (suc left) crc = crc_bits left (crc_bit crc)

-- The body of the outer loop.
unfoldable pub crc_byte : ℕ → ℕ → ℕ
crc_byte crc b = crc_bits 8 (u16 (bit_xor crc (b <<< 8)))

-- The outer loop over the bytes that are left.
unfoldable pub crc_bytes : ℕ → List ℕ → ℕ
crc_bytes crc [] = crc
crc_bytes crc (b ∷ rest) = crc_bytes (crc_byte crc b) rest

unfoldable pub crc16 : Option (List ℕ) → ℕ → Ret ℕ
unfolding crc_bit crc_bits crc_byte crc_bytes
crc16 none len = ok 0
crc16 (some bytes) len = do
  in_bounds (leb len (length bytes))
  ok (crc_bytes 0xffff (take len bytes))
