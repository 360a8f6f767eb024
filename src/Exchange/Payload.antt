-- ===== src/Exchange/Payload.antt =====
-- The frame that a read left in a local buffer: how long its payload is, and that the copies stay
-- within the bytes that were received.
use usbmux_tool.Base.{
  ℕ, ◌+◌, ◌≤◌, ◌≡◌, refl, sym, ap, ◌∙◌, arith, Option, none, some, List, length, take, drop, splice,
  ok, there, leb-true, ◌!=◌, if◌then◌else◌,
}
use usbmux_tool.Proto.Header.{Header}
use usbmux_tool.Proto.Codec.{decode_header}
use usbmux_tool.Proto.Codec.RoundTrip.{decode_header-Decodes, check_header_shape-ok}
use usbmux_tool.Proto.Codec.Layout.{payload_len-lt}
use usbmux_tool.Proto.Codec.Prefix.{decode_header-prefix}
use usbmux_tool.Proto.Codec.Frame.{Holds}
use usbmux_tool.Device.Read.Stage.{Complete}
use usbmux_tool.Exchange.Accept.{copy_out}

-- A header that is accepted at the length that it tells has a payload of at most 488 bytes that
-- ends there: the length has not wrapped round.
pub payload_ends :
    (src : List ℕ) (n : ℕ) (h : Header)
    → decode_header (some src) n there ≡ ok h
    → h.total_len ≡ n
    → (24 + h.payload_len ≡ n) × (h.payload_len ≤ 488)
payload_ends src n h done total =
    let d = decode_header-Decodes src n h done in
    omega (
      arith,
      check_header_shape-ok h d.shape,
      d.enough,
      ap (λ (t : Header). t.payload_len) d.fields,
      payload_len-lt src,
    )

-- The second decoding, at the frame's length, gives the header that the read decoded.
pub decode_again :
    (bytes : List ℕ) (capacity count n : ℕ) (h : Header)
    → (c : Complete bytes capacity count n) → decode_header (some bytes) n there ≡ ok h
    → (h ≡ c.header) × (h.total_len ≡ n)
decode_again bytes capacity count n h c done =
    let first = decode_header-Decodes bytes count c.header c.decodes in
    let second = decode_header-Decodes bytes n h done in
    let same : ok h ≡ ok c.header =
      sym done
      ∙ decode_header-prefix bytes bytes n count second.enough first.enough first.held first.held
          refl
      ∙ c.decodes in
    let equal : h ≡ c.header = cc in (equal, ap (λ (t : Header). t.total_len) equal ∙ c.total)

-- What the copy leaves in the caller's buffer.
abbrev pub copied : Option (List ℕ) → List ℕ → ℕ → Option (List ℕ)
copied none bytes n = none
copied (some dst) bytes n = some (splice dst 0 (take n (drop 24 bytes)))

-- A copy that both buffers hold is defined.
pub copy_out_lem :
    (dst : Option (List ℕ)) (bytes : List ℕ) (n : ℕ)
    → Holds dst n
    → 24 + n ≤ length bytes
    → copy_out dst bytes n ≡ ok (copied dst bytes n)
unfolding copy_out
copy_out_lem none bytes n p q = refl
copy_out_lem (some dst) bytes n p q =
    rw (leb-true n (length dst) p, leb-true (24 + n) (length bytes) q) refl

pub Holds-less : (dst : Option (List ℕ)) (n m : ℕ) → Holds dst m → n ≤ m → Holds dst n
Holds-less none n m p q = tt
Holds-less (some dst) n m p q = omega arith

-- The buffer after a response of `n` bytes: nothing is copied if there are none.
abbrev pub filled : Option (List ℕ) → List ℕ → ℕ → Option (List ℕ)
filled dst bytes n = if n != 0 then copied dst bytes n else dst
