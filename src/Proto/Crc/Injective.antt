-- ===== src/Proto/Crc/Injective.antt =====
-- The CRC's state after a byte determines the state before it, and the byte.
use usbmux_tool.Base.{
  ℕ, zero, suc, ◌+◌, ◌*◌, ◌/◌, ◌%◌, ◌^◌, ◌<◌, bit_xor, ◌≡◌, refl, sym, ap, ◌∙◌, arith, Bool, true,
  ◌&&◌, List, [], ◌∷◌, IsBytes, length, set, byte_at, ◌==◌, ltb, Bool-cases, inl, inr, subst,
  if◌then◌else◌,
}
use usbmux_tool.Bits.{bit_xor-lt_16, bit_xor_cancel, bit_xor_comm}
use usbmux_tool.Proto.Crc.{crc_bit, crc_bits, crc_byte, crc_bytes}

-- The shift register run backwards.
crc_unbit : ℕ → ℕ
crc_unbit crc = if crc % 2 == 1 then bit_xor crc 0x1021 / 2 + 0x8000 else crc / 2

-- Whether the backward step undoes the forward step on every register below a bound.
undoes_up_to : ℕ → Bool
unfolding crc_bit crc_unbit
undoes_up_to zero = true
undoes_up_to (suc crc) = undoes_up_to crc && crc_unbit (crc_bit crc) == crc

undoes : (bound : ℕ) → undoes_up_to bound ≡ true → (c : ℕ) → c < bound → crc_unbit (crc_bit c) ≡ c
unfolding undoes_up_to
undoes (suc crc) all c below = elim (Bool-cases (ltb c crc)) [
  | inl earlier ↦ undoes crc (ground arith) c (ground arith)
  | inr last ↦
      let here : crc ≡ c = ground arith in
      subst (λ (k : ℕ). crc_unbit (crc_bit k) ≡ k) here (ground arith)
]
undoes zero all c below = absurd (omega arith)

every_register : undoes_up_to 65536 ≡ true
unfolding undoes_up_to
every_register = refl

crc_bit_undo : (c : ℕ) → c < 65536 → crc_unbit (crc_bit c) ≡ c
crc_bit_undo c h = undoes 65536 every_register c h

crc_bit-lt : (c : ℕ) → crc_bit c < 65536
unfolding crc_bit
crc_bit-lt c = ground arith

crc_bits-injective : (n c d : ℕ) → c < 65536 → d < 65536 → crc_bits n c ≡ crc_bits n d → c ≡ d
unfolding crc_bits
crc_bits-injective zero c d p q e = e
crc_bits-injective (suc n) c d p q e =
    sym (crc_bit_undo c p)
    ∙ ap crc_unbit (crc_bits-injective n (crc_bit c) (crc_bit d) (crc_bit-lt c) (crc_bit-lt d) e)
    ∙ crc_bit_undo d q

pub crc_byte-lt : (c b : ℕ) → crc_byte c b < 65536
unfolding crc_byte crc_bits
crc_byte-lt c b = crc_bit-lt _

entry_lt : (c b : ℕ) → c < 65536 → b < 256 → bit_xor c (b * 2 ^ 8) < 65536
entry_lt c b p q = bit_xor-lt_16 c (b * 2 ^ 8) p (omega arith)

-- What the inner loop starts from, for a state and a byte in range.
crc_byte_entry : (c b : ℕ) → c < 65536 → b < 256 → crc_byte c b ≡ crc_bits 8 (bit_xor c (b * 2 ^ 8))
unfolding crc_byte
crc_byte_entry c b p q = ap (crc_bits 8) (omega (arith, entry_lt c b p q))

crc_entry_eq :
    (c d a b : ℕ)
    → c < 65536
    → d < 65536
    → a < 256
    → b < 256
    → crc_byte c a ≡ crc_byte d b
    → bit_xor c (a * 2 ^ 8) ≡ bit_xor d (b * 2 ^ 8)
crc_entry_eq c d a b pc pd pa pb e =
    crc_bits-injective 8 _ _ (entry_lt c a pc pa) (entry_lt d b pd pb)
      (sym (crc_byte_entry c a pc pa) ∙ e ∙ crc_byte_entry d b pd pb)

crc_byte-injective_state :
    (c d b : ℕ) → c < 65536 → d < 65536 → b < 256 → crc_byte c b ≡ crc_byte d b → c ≡ d
crc_byte-injective_state c d b pc pd pb e =
    sym (bit_xor_cancel c (b * 2 ^ 8))
    ∙ ap (λ (t : ℕ). bit_xor t (b * 2 ^ 8)) (crc_entry_eq c d b b pc pd pb pb e)
    ∙ bit_xor_cancel d (b * 2 ^ 8)

crc_byte-injective_byte :
    (c a b : ℕ) → c < 65536 → a < 256 → b < 256 → crc_byte c a ≡ crc_byte c b → a ≡ b
crc_byte-injective_byte c a b pc pa pb e = omega (
  arith,
  sym (bit_xor_cancel (a * 2 ^ 8) c)
      ∙ ap (λ (t : ℕ). bit_xor t c)
          (bit_xor_comm (a * 2 ^ 8) c
            ∙ crc_entry_eq c c a b pc pc pa pb e
            ∙ bit_xor_comm c (b * 2 ^ 8))
      ∙ bit_xor_cancel (b * 2 ^ 8) c,
)

pub crc_bytes-injective :
    (xs : List ℕ) (c d : ℕ)
    → IsBytes xs
    → c < 65536
    → d < 65536
    → crc_bytes c xs ≡ crc_bytes d xs
    → c ≡ d
unfolding crc_bytes
crc_bytes-injective [] c d h p q e = e
crc_bytes-injective (x ∷ xs) c d h p q e =
    crc_byte-injective_state c d x p q h.0 (
      crc_bytes-injective xs (crc_byte c x) (crc_byte d x) h.1 (crc_byte-lt c x) (crc_byte-lt d x)
        e)

-- Two messages that differ in one byte at most, and have the same CRC, are the same.
pub crc_bytes-set :
    (xs : List ℕ) (i v c : ℕ)
    → IsBytes xs
    → v < 256
    → c < 65536
    → i < length xs
    → crc_bytes c (set xs i v) ≡ crc_bytes c xs
    → v ≡ byte_at xs i
unfolding crc_bytes
crc_bytes-set [] i v c h hv hc hi e = absurd (omega arith)
crc_bytes-set (x ∷ xs) zero v c h hv hc hi e =
    crc_byte-injective_byte c v x hc hv h.0 (
      crc_bytes-injective xs (crc_byte c v) (crc_byte c x) h.1 (crc_byte-lt c v) (crc_byte-lt c x)
        e)
crc_bytes-set (x ∷ xs) (suc i) v c h hv hc hi e =
    crc_bytes-set xs i v (crc_byte c x) h.1 hv (crc_byte-lt c x) (omega arith) e

pub crc_bytes-lt : (xs : List ℕ) (c : ℕ) → c < 65536 → crc_bytes c xs < 65536
unfolding crc_bytes
crc_bytes-lt [] c h = h
crc_bytes-lt (x ∷ xs) c h = crc_bytes-lt xs (crc_byte c x) (crc_byte-lt c x)
