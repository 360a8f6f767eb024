-- ===== src/Proto/Codec/Corruption.antt =====
-- Single-byte errors: a header that was accepted is refused once one of its bytes has changed.
use usbmux_tool.Base.{
  ℕ, ◌+◌, ◌*◌, ◌≤◌, ◌<◌, ◌≡◌, ◌≢◌, refl, sym, ap, ◌∙◌, arith, List, length, set, take, byte_at,
  IsBytes, set-IsBytes, take-IsBytes, get_or-IsBytes, get_or-set_self, get_or-set_ne, set-set_self,
  set-set_comm, take-set, get_or-take, some, ok, there,
}
use native.Mathlib.Decide.{ℕ_discrete}
use usbmux_tool.Proto.Words.Laws.{read_le16_lem}
use usbmux_tool.Proto.Header.{Header}
use usbmux_tool.Proto.Crc.{crc_bytes}
use usbmux_tool.Proto.Crc.Injective.{crc_bytes-set}
use usbmux_tool.Proto.Codec.{deserialize_header, without_crc, decode_header}
use usbmux_tool.Proto.Codec.RoundTrip.{decode_header-Decodes, length-without_crc}

-- The CRC that the decoder compares with is in the bytes 20 and 21.
crc_field :
    (src : List ℕ)
    → IsBytes src
    → (deserialize_header src).header_crc16 ≡ byte_at src 20 + byte_at src 21 * 256
unfolding deserialize_header
crc_field src h = read_le16_lem src 20 (get_or-IsBytes src 20 h) (get_or-IsBytes src 21 h)

without_crc-IsBytes : (src : List ℕ) → IsBytes src → IsBytes (without_crc src)
unfolding without_crc
without_crc-IsBytes src h =
    set-IsBytes (set (take 24 src) 20 0) 21 0 (omega arith)
      (set-IsBytes (take 24 src) 20 0 (omega arith) (take-IsBytes 24 src h))

-- A change outside the CRC field shows in the cleared copy.
without_crc-set :
    (src : List ℕ) (i v : ℕ)
    → i ≢ 20
    → i ≢ 21
    → without_crc (set src i v) ≡ set (without_crc src) i v
unfolding without_crc
without_crc-set src i v p q =
    rw (take-set 24 src i v, set-set_comm (take 24 src) i 20 v 0 p)
      (set-set_comm (set (take 24 src) 20 0) i 21 v 0 q)

byte_at-without_crc :
    (src : List ℕ) (i : ℕ) → i ≢ 20 → i ≢ 21 → i < 24 → byte_at (without_crc src) i ≡ byte_at src i
unfolding without_crc
byte_at-without_crc src i p q h =
    get_or-set_ne (set (take 24 src) 20 0) 21 i 0 0 (λ e. q (sym e))
    ∙ get_or-set_ne (take 24 src) 20 i 0 0 (λ e. p (sym e))
    ∙ get_or-take 24 src i 0 h

without_crc-set_20 : (src : List ℕ) (v : ℕ) → without_crc (set src 20 v) ≡ without_crc src
unfolding without_crc
without_crc-set_20 src v = rw (take-set 24 src 20 v, set-set_self (take 24 src) 20 v 0) refl

without_crc-set_21 : (src : List ℕ) (v : ℕ) → without_crc (set src 21 v) ≡ without_crc src
unfolding without_crc
without_crc-set_21 src v =
    rw
      (
        take-set 24 src 21 v,
        set-set_comm (take 24 src) 21 20 v 0 (omega arith),
        set-set_self (set (take 24 src) 20 0) 21 v 0,
      )
      refl

-- The CRC that an accepted header carries.
accepted_crc :
    (src : List ℕ) (n : ℕ) (h : Header)
    → IsBytes src
    → decode_header (some src) n there ≡ ok h
    → crc_bytes 0xffff (without_crc src) ≡ byte_at src 20 + byte_at src 21 * 256
accepted_crc src n h bytes done =
    let d = decode_header-Decodes src n h done in
    d.crc ∙ ap (λ (t : Header). t.header_crc16) d.fields ∙ crc_field src bytes

module _ (src : List ℕ) (n m i v : ℕ) (h r : Header) (bytes : IsBytes src) (small : v < 256)
    (inside : i < 24) (before : decode_header (some src) n there ≡ ok h)
    (after : decode_header (some (set src i v)) m there ≡ ok r) where
  sums :
      crc_bytes 0xffff (without_crc (set src i v))
      ≡ byte_at (set src i v) 20 + byte_at (set src i v) 21 * 256
  sums = accepted_crc (set src i v) m r (set-IsBytes src i v small bytes) after

  changed_outside : i ≢ 20 → i ≢ 21 → v ≡ byte_at src i
  changed_outside p q =
      crc_bytes-set (without_crc src) i v 0xffff (without_crc-IsBytes src bytes) small (omega arith)
        (omega (arith, length-without_crc src (decode_header-Decodes src n h before).held))
        (ap (crc_bytes 0xffff) (sym (without_crc-set src i v p q))
          ∙ sums
          ∙ omega (arith, get_or-set_ne src i 20 v 0 p, get_or-set_ne src i 21 v 0 q)
          ∙ sym (accepted_crc src n h bytes before))
      ∙ byte_at-without_crc src i p q inside

module _ (src : List ℕ) (n m v : ℕ) (h r : Header) (bytes : IsBytes src) (small : v < 256)
    (before : decode_header (some src) n there ≡ ok h) where
  held : 24 ≤ length src
  held = (decode_header-Decodes src n h before).held

  -- In the CRC field the cleared copies agree, so the two CRC fields do.
  changed_low : decode_header (some (set src 20 v)) m there ≡ ok r → v ≡ byte_at src 20
  changed_low after = omega (
    arith,
    ap (crc_bytes 0xffff) (without_crc-set_20 src v),
    accepted_crc (set src 20 v) m r (set-IsBytes src 20 v small bytes) after,
    accepted_crc src n h bytes before,
    get_or-set_self src 20 v 0 held_low,
    get_or-set_ne src 20 21 v 0 (omega arith),
  )
    where
      held_low : 20 < length src
      held_low = omega (arith, held)

  changed_high : decode_header (some (set src 21 v)) m there ≡ ok r → v ≡ byte_at src 21
  changed_high after = omega (
    arith,
    ap (crc_bytes 0xffff) (without_crc-set_21 src v),
    accepted_crc (set src 21 v) m r (set-IsBytes src 21 v small bytes) after,
    accepted_crc src n h bytes before,
    get_or-set_self src 21 v 0 held_high,
    get_or-set_ne src 21 20 v 0 (omega arith),
  )
    where
      held_high : 21 < length src
      held_high = omega (arith, held)

-- If a buffer of bytes decodes, then the same buffer with one byte of its header changed to another
-- value decodes to nothing, whatever header and length are tried.
pub decode_header-single_byte :
    (src : List ℕ) (n m i v : ℕ) (h r : Header)
    → IsBytes src
    → v < 256
    → i < 24
    → v ≢ byte_at src i
    → decode_header (some src) n there ≡ ok h
    → decode_header (some (set src i v)) m there ≢ ok r
decode_header-single_byte src n m i v h r bytes small inside changed before after =
    elim (ℕ_discrete i 20) [
      | yes e ↦ changed (rw e (changed_low src n m v h r bytes small before (rw e at after)))
      | no p ↦ elim (ℕ_discrete i 21) [
        | yes e ↦ changed (rw e (changed_high src n m v h r bytes small before (rw e at after)))
        | no q ↦ changed (changed_outside src n m i v h r bytes small inside before after p q)
      ]
    ]
