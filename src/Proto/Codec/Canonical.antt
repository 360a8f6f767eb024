-- ===== src/Proto/Codec/Canonical.antt =====
-- The bytes of an accepted header are the only ones that stand for it.
use usbmux_tool.Base.{ℕ, ◌≤◌, ◌≡◌, sym, ap, ◌∙◌, arith, List, ◌++◌, drop, IsBytes, some, ok, there}
use usbmux_tool.Proto.Header.{Header}
use usbmux_tool.Proto.Crc.{crc_bytes}
use usbmux_tool.Proto.Codec.{deserialize_header, prepare, encode_header, without_crc, decode_header}
use usbmux_tool.Proto.Codec.Layout.{layout, without_crc-layout, layout-deserialize_header}
use usbmux_tool.Proto.Codec.RoundTrip.{
  encoded, encode_header_lem, Decodes, decode_header-Decodes, check_header_shape-ok,
}

-- Encoding a header that was decoded, over the bytes that it came from, changes no byte and no
-- field, when its payload length is one that the encoder takes.
pub encode_header-decode_header :
    (src : List ℕ) (src_len : ℕ) (h : Header)
    → IsBytes src
    → decode_header (some src) src_len there ≡ ok h
    → h.payload_len ≤ 488
    → encode_header (some src) src_len (some h) ≡ ok (record { dst = src; header = h })
encode_header-decode_header src src_len h bytes done small =
    encode_header_lem src src_len h d.enough small d.held ∙ ap ok same
  where
    d : Decodes src src_len h
    d = decode_header-Decodes src src_len h done

    whole : layout h h.header_crc16 ++ drop 24 src ≡ src
    whole = rw d.fields (unfold deserialize_header in layout-deserialize_header src bytes d.held)

    crc_same : crc_bytes 0xffff (layout h 0) ≡ h.header_crc16
    crc_same =
        ap (crc_bytes 0xffff)
          (sym (without_crc-layout h h.header_crc16 (drop 24 src)) ∙ ap without_crc whole)
        ∙ d.crc

    prepared : prepare h ≡ record h { header_crc16 = 0 }
    prepared = unfold prepare in ground (arith, check_header_shape-ok h d.shape)

    same : encoded src h ≡ record { dst = src; header = h }
    same = unfold encoded in rw (prepared, crc_same) (λ i. record { dst = whole i; header = h })
