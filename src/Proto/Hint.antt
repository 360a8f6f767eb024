-- ===== src/Proto/Hint.antt =====
-- `ch32mux_irq_hint_t` and `ch32mux_parse_irq_hint` of userspace/src/proto.c.
pub mod Laws
use usbmux_tool.Base.{
  ℕ, ◌+◌, Option, none, some, List, length, byte_at, Ret, ok, err, err_arg, err_proto, fail_if,
  in_bounds, ◌>>◌, Dest, null, there, ltb, leb, ◌!=◌,
}
use usbmux_tool.Proto.Words.{read_le16}

pub record IrqHint : Type 0 where
  pub version : ℕ
  pub urgent_flags : ℕ
  pub pending_bitmap : ℕ
  pub dropped_bitmap : ℕ
  pub reserved : ℕ

-- CH32MUX_EP_HINT_SIZE and CH32MUX_IRQ_HINT_VERSION
abbrev pub hint_size : ℕ
hint_size = 8

abbrev pub hint_version : ℕ
hint_version = 0x01

unfoldable pub parse_irq_hint : Option (List ℕ) → ℕ → Dest → Ret IrqHint
parse_irq_hint (some src) src_len there = do
  fail_if (ltb src_len hint_size) err_proto
  in_bounds (leb hint_size (length src))
  fail_if (byte_at src 0 != hint_version) err_proto
  ok (record {
    version = byte_at src 0;
    urgent_flags = byte_at src 1;
    pending_bitmap = read_le16 src 2;
    dropped_bitmap = read_le16 src 4;
    reserved = read_le16 src 6;
  })
parse_irq_hint src src_len hint = err err_arg
