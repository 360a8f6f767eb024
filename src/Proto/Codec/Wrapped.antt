-- ===== src/Proto/Codec/Wrapped.antt =====
-- A payload length near 2 ^ 16: `(uint16_t)(header_len + payload_len)` in `check_header_shape`
-- wraps round.
use usbmux_tool.Base.{ℕ, ◌-◌, ◌≤◌, ◌<◌, ◌≡◌, arith, List, ◌++◌, some, ok, there}
use usbmux_tool.Proto.Header.{Header, IsHeader, check_header_shape}
use usbmux_tool.Proto.Codec.{decode_header}
use usbmux_tool.Proto.Codec.Layout.{layout}
use usbmux_tool.Proto.Codec.RoundTrip.{header_crc, decode_header-layout}

-- A header with the right magic number, version, header length and CRC whose payload length is
-- 65512 or more is accepted at any length of 24 or more, if its total length is the payload length
-- less 65512: the frame that it announces is shorter than the header itself.
pub decode_header-wrapped :
    (h : Header) (rest : List ℕ) (src_len : ℕ)
    → IsHeader h
    → h.magic ≡ 0xa55a
    → h.version ≡ 1
    → h.header_len ≡ 24
    → 65512 ≤ h.payload_len
    → h.total_len ≡ h.payload_len - 65512
    → 24 ≤ src_len
    → (decode_header (some (layout h (header_crc h) ++ rest)) src_len there
        ≡ ok (record h { header_crc16 = header_crc h }))
      × (h.total_len < 24)
decode_header-wrapped h rest src_len fits magic version header large total room = (
  decode_header-layout h rest src_len fits room (unfold check_header_shape in ground arith),
  omega (arith, fits.payload_len_fits),
)
