-- ===== src/Proto/Codec/Layout.antt =====
-- The 24 bytes of a header: `serialize_header` writes them in order, whatever the buffer held, and
-- leaves the rest of the buffer alone; `deserialize_header` reads each field back.
use usbmux_tool.Base.{
  ℕ, ◌*◌, ◌%◌, ◌^◌, ◌≤◌, ◌<◌, ◌≡◌, refl, arith, bit_and, bit_or, List, [], ◌∷◌, ◌++◌, length, drop,
  IsBytes, get_or-IsBytes,
}
use usbmux_tool.Bits.{bit_and-255, bit_or-shift}
use usbmux_tool.Proto.Words.{u8, ◌>>>◌, read_le16}
use usbmux_tool.Proto.Header.{Header, IsHeader}
use usbmux_tool.Proto.Codec.{serialize_header, deserialize_header, without_crc}

-- The low and the high byte of a `uint16_t`.
abbrev pub low : ℕ → ℕ
low v = u8 (bit_and v 0xff)

abbrev pub high : ℕ → ℕ
high v = u8 (v >>> 8)

abbrev pub layout : Header → ℕ → List ℕ
layout h crc =
    low h.magic
    ∷ high h.magic
    ∷ h.version
    ∷ h.header_len
    ∷ low h.total_len
    ∷ high h.total_len
    ∷ low h.seq
    ∷ high h.seq
    ∷ low h.ref_seq
    ∷ high h.ref_seq
    ∷ h.ch_type
    ∷ h.ch_id
    ∷ h.msg_type
    ∷ h.opcode
    ∷ low h.flags
    ∷ high h.flags
    ∷ low h.status
    ∷ high h.status
    ∷ low h.payload_len
    ∷ high h.payload_len
    ∷ low crc
    ∷ high crc
    ∷ low h.reserved
    ∷ high h.reserved
    ∷ []

-- A buffer of 24 bytes or more is overwritten by the layout, and keeps what follows.
pub serialize_header_lem :
    (dst : List ℕ) (h : Header) (crc : ℕ)
    → 24 ≤ length dst
    → serialize_header dst h crc ≡ layout h crc ++ drop 24 dst
unfolding serialize_header
serialize_header_lem
      (a ∷ b ∷ c ∷ d ∷ e ∷ f ∷ g ∷ i ∷ j ∷ k ∷ l ∷ m ∷ n ∷ o ∷ p ∷ q ∷ r ∷ s ∷ t ∷ u ∷ v ∷ w ∷ x ∷ y
        ∷ rest)
      h crc fits =
    refl
serialize_header_lem dst h crc fits = absurd (omega arith)

-- A `uint16_t` is read back from its two bytes.
word_back : (v : ℕ) → v < 2 ^ 16 → bit_or (low v) (high v * 2 ^ 8) % 2 ^ 16 ≡ v
word_back v h =
    let b : bit_and v 255 ≡ v % 256 = bit_and-255 v in
    omega (arith, b, bit_or-shift 8 (low v) (high v) (omega arith))

-- The fields come back as they were, with the CRC that was written.
pub deserialize_header-layout :
    (h : Header) (crc : ℕ) (rest : List ℕ)
    → IsHeader h
    → crc < 2 ^ 16
    → deserialize_header (layout h crc ++ rest) ≡ record h { header_crc16 = crc }
unfolding deserialize_header read_le16
deserialize_header-layout h crc rest fits c = λ i. record {
  magic = word_back h.magic fits.magic_fits i;
  version = h.version;
  header_len = h.header_len;
  total_len = word_back h.total_len fits.total_len_fits i;
  seq = word_back h.seq fits.seq_fits i;
  ref_seq = word_back h.ref_seq fits.ref_seq_fits i;
  ch_type = h.ch_type;
  ch_id = h.ch_id;
  msg_type = h.msg_type;
  opcode = h.opcode;
  flags = word_back h.flags fits.flags_fits i;
  status = word_back h.status fits.status_fits i;
  payload_len = word_back h.payload_len fits.payload_len_fits i;
  header_crc16 = word_back crc c i;
  reserved = word_back h.reserved fits.reserved_fits i;
}

pub without_crc-layout :
    (h : Header) (crc : ℕ) (rest : List ℕ) → without_crc (layout h crc ++ rest) ≡ layout h 0
unfolding without_crc
without_crc-layout h crc rest = refl

pub layout-IsBytes : (h : Header) (crc : ℕ) → IsHeader h → IsBytes (layout h crc)
layout-IsBytes h crc fits = omega arith

-- What is read is a header whose fields fit their types.
pub deserialize_header-IsHeader : (src : List ℕ) → IsBytes src → IsHeader (deserialize_header src)
unfolding deserialize_header read_le16
deserialize_header-IsHeader src h = record {
  magic_fits = omega arith;
  version_fits = get_or-IsBytes src 2 h;
  header_len_fits = get_or-IsBytes src 3 h;
  total_len_fits = omega arith;
  seq_fits = omega arith;
  ref_seq_fits = omega arith;
  ch_type_fits = get_or-IsBytes src 10 h;
  ch_id_fits = get_or-IsBytes src 11 h;
  msg_type_fits = get_or-IsBytes src 12 h;
  opcode_fits = get_or-IsBytes src 13 h;
  flags_fits = omega arith;
  status_fits = omega arith;
  payload_len_fits = omega arith;
  header_crc16_fits = omega arith;
  reserved_fits = omega arith;
}

word_low : (a b : ℕ) → a < 256 → b < 256 → low (bit_or a (b * 2 ^ 8) % 2 ^ 16) ≡ a
word_low a b p q =
    let word = bit_or a (b * 2 ^ 8) % 2 ^ 16 in
    omega (arith, bit_and-255 word, bit_or-shift 8 a b p)

word_high : (a b : ℕ) → a < 256 → b < 256 → high (bit_or a (b * 2 ^ 8) % 2 ^ 16) ≡ b
word_high a b p q = omega (arith, bit_or-shift 8 a b p)

-- Laying the fields out again gives the bytes that they were read from.
pub layout-deserialize_header :
    (src : List ℕ)
    → IsBytes src
    → 24 ≤ length src
    → layout (deserialize_header src) (read_le16 src 20) ++ drop 24 src ≡ src
unfolding deserialize_header read_le16
layout-deserialize_header
      (a ∷ b ∷ c ∷ d ∷ e ∷ f ∷ g ∷ i ∷ j ∷ k ∷ l ∷ m ∷ n ∷ o ∷ p ∷ q ∷ r ∷ s ∷ t ∷ u ∷ v ∷ w ∷ x ∷ y
        ∷ rest)
      h fits =
    let src =
      a ∷ b ∷ c ∷ d ∷ e ∷ f ∷ g ∷ i ∷ j ∷ k ∷ l ∷ m ∷ n ∷ o ∷ p ∷ q ∷ r ∷ s ∷ t ∷ u ∷ v ∷ w ∷ x ∷ y
      ∷ rest in
    let byte = λ (at : ℕ). get_or-IsBytes src at h in
    λ i₀.
      word_low a b (byte 0) (byte 1) i₀
      ∷ word_high a b (byte 0) (byte 1) i₀
      ∷ c
      ∷ d
      ∷ word_low e f (byte 4) (byte 5) i₀
      ∷ word_high e f (byte 4) (byte 5) i₀
      ∷ word_low g i (byte 6) (byte 7) i₀
      ∷ word_high g i (byte 6) (byte 7) i₀
      ∷ word_low j k (byte 8) (byte 9) i₀
      ∷ word_high j k (byte 8) (byte 9) i₀
      ∷ l
      ∷ m
      ∷ n
      ∷ o
      ∷ word_low p q (byte 14) (byte 15) i₀
      ∷ word_high p q (byte 14) (byte 15) i₀
      ∷ word_low r s (byte 16) (byte 17) i₀
      ∷ word_high r s (byte 16) (byte 17) i₀
      ∷ word_low t u (byte 18) (byte 19) i₀
      ∷ word_high t u (byte 18) (byte 19) i₀
      ∷ word_low v w (byte 20) (byte 21) i₀
      ∷ word_high v w (byte 20) (byte 21) i₀
      ∷ word_low x y (byte 22) (byte 23) i₀
      ∷ word_high x y (byte 22) (byte 23) i₀
      ∷ rest
layout-deserialize_header src h fits = absurd (omega arith)

pub payload_len-lt : (src : List ℕ) → (deserialize_header src).payload_len < 2 ^ 16
unfolding deserialize_header read_le16
payload_len-lt src = omega arith
