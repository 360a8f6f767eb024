-- ===== src/Proto/Hint/Laws.antt =====
-- `ch32mux_parse_irq_hint` reads back every hint of version 1, and refuses the rest.
use usbmux_tool.Base.{
  ℕ, ◌*◌, ◌/◌, ◌%◌, ◌^◌, ◌<◌, ◌≡◌, refl, arith, bit_or, List, [], ◌∷◌, ◌++◌, some, ok, err,
  err_proto, length, Bool-cases, inl, inr, ◌||◌, there, ltb, ◌!=◌, leb-true, if◌then◌else◌,
}
use usbmux_tool.Proto.Words.{read_le16}
use usbmux_tool.Bits.{bit_or-shift}
use usbmux_tool.Proto.Hint.{IrqHint, parse_irq_hint}

-- The eight bytes of a hint.
abbrev pub hint_bytes : IrqHint → List ℕ
hint_bytes h =
    h.version
    ∷ h.urgent_flags
    ∷ h.pending_bitmap % 256
    ∷ h.pending_bitmap / 256
    ∷ h.dropped_bitmap % 256
    ∷ h.dropped_bitmap / 256
    ∷ h.reserved % 256
    ∷ h.reserved / 256
    ∷ []

word : (v : ℕ) → v < 2 ^ 16 → bit_or (v % 256) (v / 256 * 2 ^ 8) % 2 ^ 16 ≡ v
word v h = omega (arith, bit_or-shift 8 (v % 256) (v / 256) (omega arith))

-- A hint packet of version 1, its three words below 2 ^ 16, is read back field by field, whatever
-- follows it, at any claimed length of 8 or more; with any other version, or a claimed length below
-- 8, it is a protocol error.
pub parse_irq_hint-hint_bytes :
    (h : IrqHint) (rest : List ℕ) (n : ℕ)
    → h.pending_bitmap < 2 ^ 16
    → h.dropped_bitmap < 2 ^ 16
    → h.reserved < 2 ^ 16
    → parse_irq_hint (some (hint_bytes h ++ rest)) n there
      ≡ (if ltb n 8 || h.version != 1 then err err_proto else ok h)
unfolding parse_irq_hint read_le16
parse_irq_hint-hint_bytes h rest n p q r = elim (Bool-cases (ltb n 8)) [
  | inl short ↦ rw short refl
  | inr room ↦ elim (Bool-cases (h.version != 1)) [
    | inl other ↦ rw (room, leb-true 8 (length (hint_bytes h ++ rest)) (omega arith), other) refl
    | inr one ↦
        rw
          (
            room,
            leb-true 8 (length (hint_bytes h ++ rest)) (omega arith),
            one,
            word h.pending_bitmap p,
            word h.dropped_bitmap q,
            word h.reserved r,
          )
          refl
  ]
]
