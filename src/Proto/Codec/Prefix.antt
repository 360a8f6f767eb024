-- ===== src/Proto/Codec/Prefix.antt =====
-- `ch32mux_decode_header` looks at the first 24 bytes only, and always comes to a result.
use usbmux_tool.Base.{
  ℕ, ◌≤◌, ◌≡◌, ◌≢◌, inl, inr, refl, arith, List, ◌∷◌, length, take, take-take, some, fault, there,
  Bool-cases, ltb, Bool-cases, ltb,
}
use usbmux_tool.Proto.Words.{read_le16}
use usbmux_tool.Proto.Header.{Header, check_header_shape}
use usbmux_tool.Proto.Codec.{deserialize_header, without_crc, decode_header}
use usbmux_tool.Proto.Codec.RoundTrip.{decode_header_lem}

deserialize_header-take :
    (src : List ℕ) → 24 ≤ length src → deserialize_header (take 24 src) ≡ deserialize_header src
unfolding deserialize_header read_le16
deserialize_header-take
      (a ∷ b ∷ c ∷ d ∷ e ∷ f ∷ g ∷ i ∷ j ∷ k ∷ l ∷ m ∷ n ∷ o ∷ p ∷ q ∷ r ∷ s ∷ t ∷ u ∷ v ∷ w ∷ x ∷ y
        ∷ rest)
      fits =
    refl
deserialize_header-take src fits = absurd (omega arith)

without_crc-take : (src : List ℕ) → without_crc (take 24 src) ≡ without_crc src
unfolding without_crc
without_crc-take src = rw (take-take 24 24 src (omega arith))

-- Two buffers that begin alike decode alike, whatever lengths are claimed for them.
pub decode_header-prefix :
    (a b : List ℕ) (n m : ℕ)
    → 24 ≤ n
    → 24 ≤ m
    → 24 ≤ length a
    → 24 ≤ length b
    → take 24 a ≡ take 24 b
    → decode_header (some a) n there ≡ decode_header (some b) m there
decode_header-prefix a b n m room_a room_b held_a held_b same =
    rw
      (
        decode_header_lem a n room_a held_a,
        decode_header_lem b m room_b held_b,
        ← deserialize_header-take a held_a,
        ← deserialize_header-take b held_b,
        ← without_crc-take a,
        ← without_crc-take b,
        same,
      )
      refl

check_header_shape-defined : (h : Header) → check_header_shape h ≢ fault
unfolding check_header_shape
check_header_shape-defined h = ground arith

-- With 24 bytes to read no access is out of bounds.
pub decode_header-defined :
    (src : List ℕ) (n : ℕ) → 24 ≤ n → 24 ≤ length src → decode_header (some src) n there ≢ fault
decode_header-defined src n room held =
    rw (decode_header_lem src n room held)
      (ground (arith, check_header_shape-defined (deserialize_header src)))

pub decode_header-defined_any :
    (src : List ℕ) (n : ℕ) → 24 ≤ length src → decode_header (some src) n there ≢ fault
decode_header-defined_any src n held = elim (Bool-cases (ltb n 24)) [
  | inl short ↦ unfold decode_header in rw short (λ h. cc)
  | inr room ↦ decode_header-defined src n (ground arith) held
]
