-- ===== src/Proto/Codec/RoundTrip.antt =====
-- `ch32mux_encode_header` and `ch32mux_decode_header` undo one another.
use usbmux_tool.Base.{
  ℕ, ◌+◌, ◌%◌, ◌^◌, ◌≤◌, ◌<◌, ◌≡◌, refl, sym, ◌∙◌, arith, List, ◌++◌, length, drop, take, take_all,
  set, length-set, length-take, some, Ret, ok, err_proto, fail_if, ◌>>◌, there, ◌!=◌, replicate,
  leb-true, ltb-false, !=_false,
}
use usbmux_tool.Proto.Header.{Header, IsHeader, check_header_shape}
use usbmux_tool.Proto.Crc.{crc16, crc_bytes}
use usbmux_tool.Proto.Crc.Injective.{crc_bytes-lt}
use usbmux_tool.Proto.Codec.{
  deserialize_header, prepare, Encoded, encode_header, without_crc, decode_header,
}
use usbmux_tool.Proto.Codec.Layout.{
  layout, serialize_header_lem, deserialize_header-layout, without_crc-layout,
}

-- The CRC of a header whose CRC field is cleared.
abbrev pub header_crc : Header → ℕ
header_crc h = crc_bytes 0xffff (layout h 0)

pub crc16_whole :
    (xs : List ℕ) (n : ℕ) → length xs ≡ n → crc16 (some xs) n ≡ ok (crc_bytes 0xffff xs)
unfolding crc16
crc16_whole xs n e = rw (leb-true n (length xs) (omega arith), take_all n xs (omega arith))

unfoldable pub encoded : List ℕ → Header → Encoded
encoded dst h =
    let p = prepare h in
    record {
      dst = layout p (header_crc p) ++ drop 24 dst;
      header = record p { header_crc16 = header_crc p };
    }

-- On success the buffer starts with the layout of the prepared header.
pub encode_header_lem :
    (dst : List ℕ) (dst_len : ℕ) (h : Header)
    → 24 ≤ dst_len
    → h.payload_len ≤ 488
    → 24 ≤ length dst
    → encode_header (some dst) dst_len (some h) ≡ ok (encoded dst h)
unfolding encode_header encoded
encode_header_lem dst dst_len h room small fits =
    rw
      (
        ltb-false dst_len 24 room,
        ltb-false 488 h.payload_len small,
        serialize_header_lem (replicate 24 0) (prepare h) 0 (omega arith),
        crc16_whole (layout (prepare h) 0) 24 refl,
        leb-true 24 (length dst) fits,
        serialize_header_lem dst (prepare h) (header_crc (prepare h)) fits,
      )
      refl

pub length-without_crc : (src : List ℕ) → 24 ≤ length src → length (without_crc src) ≡ 24
unfolding without_crc
length-without_crc src h = omega (
  arith,
  length-set (set (take 24 src) 20 0) 21 0,
  length-set (take 24 src) 20 0,
  length-take 24 src,
)

-- Decoding a buffer that holds a header: the shape, then the CRC.
pub decode_header_lem :
    (src : List ℕ) (src_len : ℕ)
    → 24 ≤ src_len
    → 24 ≤ length src
    → decode_header (some src) src_len there ≡ (
        check_header_shape (deserialize_header src)
        >> (fail_if
              (crc_bytes 0xffff (without_crc src) != (deserialize_header src).header_crc16)
              err_proto
            >> ok (deserialize_header src)))
unfolding decode_header
decode_header_lem src src_len room fits =
    rw
      (
        ltb-false src_len 24 room,
        leb-true 24 (length src) fits,
        crc16_whole (without_crc src) 24 (length-without_crc src fits),
      )
      refl

-- The prepared header has the right shape, and its fields fit.
pub check_header_shape-prepare :
    (h : Header) (crc : ℕ)
    → h.payload_len ≤ 488
    → check_header_shape (record (prepare h) { header_crc16 = crc }) ≡ ok tt
unfolding check_header_shape prepare
check_header_shape-prepare h crc small = ground arith

pub prepare-IsHeader : (h : Header) → IsHeader h → IsHeader (prepare h)
unfolding prepare
prepare-IsHeader h fits = ground arith

-- The CRC of a header is a `uint16_t`.
pub header_crc-lt : (h : Header) → header_crc h < 2 ^ 16
header_crc-lt h = crc_bytes-lt (layout h 0) 0xffff (omega arith)

pub decode_header-layout :
    (h : Header) (rest : List ℕ) (src_len : ℕ)
    → IsHeader h
    → 24 ≤ src_len
    → check_header_shape (record h { header_crc16 = header_crc h }) ≡ ok tt
    → decode_header (some (layout h (header_crc h) ++ rest)) src_len there
      ≡ ok (record h { header_crc16 = header_crc h })
decode_header-layout h rest src_len fits room shape =
    let crc = header_crc h in
    rw
      (
        decode_header_lem (layout h crc ++ rest) src_len room (omega arith),
        deserialize_header-layout h crc rest fits (header_crc-lt h),
        shape,
        without_crc-layout h crc rest,
        !=_false crc crc refl,
      )
      refl

-- Encoding a header with a payload of at most 488 bytes into a buffer of 24 bytes or more, as long
-- as the caller says, succeeds; decoding what it wrote gives back the header that
-- it left, which is the caller's header with the fixed fields, the total length and a CRC filled
-- in; the buffer behind the 24 bytes is as it was.
pub encode-decode :
    (dst : List ℕ) (dst_len src_len : ℕ) (h : Header)
    → IsHeader h
    → 24 ≤ dst_len
    → dst_len ≤ length dst
    → 24 ≤ src_len
    → h.payload_len ≤ 488
    → (e : Encoded) × (encode_header (some dst) dst_len (some h) ≡ ok e)
      × (decode_header (some e.dst) src_len there ≡ ok e.header)
      × (e.header ≡ record h {
        magic = 0xa55a;
        version = 1;
        header_len = 24;
        total_len = 24 + h.payload_len;
        header_crc16 = e.header.header_crc16;
      })
      × (drop 24 e.dst ≡ drop 24 dst)
unfolding encoded prepare
encode-decode dst dst_len src_len h fits room real len small = (
  encoded dst h,
  encode_header_lem dst dst_len h room small (omega arith),
  decode_header-layout (prepare h) (drop 24 dst) src_len (prepare-IsHeader h fits) len
      (check_header_shape-prepare h _ small),
  total,
  refl,
)
  where
    total : (encoded dst h).header ≡ record h {
      magic = 0xa55a;
      version = 1;
      header_len = 24;
      total_len = 24 + h.payload_len;
      header_crc16 = header_crc (prepare h);
    }
    total = ground arith

-- What a decoded header tells of the bytes.
pub record Decodes (src : List ℕ) (src_len : ℕ) (h : Header) : Type 0 where
  pub enough : 24 ≤ src_len
  pub held : 24 ≤ length src
  pub fields : h ≡ deserialize_header src
  pub shape : check_header_shape h ≡ ok tt
  pub crc : crc_bytes 0xffff (without_crc src) ≡ h.header_crc16

decode_header_short :
    (src : List ℕ) (src_len : ℕ) (h : Header)
    → decode_header (some src) src_len there ≡ ok h
    → (24 ≤ src_len) × (24 ≤ length src)
unfolding decode_header
decode_header_short src src_len h done = ground arith

checks_passed :
    (m : Ret Unit) (d h : Header) (c : ℕ)
    → (m >> (fail_if (c != d.header_crc16) err_proto >> ok d)) ≡ ok h
    → (h ≡ d) × (m ≡ ok tt) × (c ≡ d.header_crc16)
checks_passed m d h c done = ground arith

pub decode_header-Decodes :
    (src : List ℕ) (src_len : ℕ) (h : Header)
    → decode_header (some src) src_len there ≡ ok h
    → Decodes src src_len h
decode_header-Decodes src src_len h done =
    let long = decode_header_short src src_len h done in
    let (same, shape, crc) =
      checks_passed (check_header_shape (deserialize_header src)) (deserialize_header src) h
        (crc_bytes 0xffff (without_crc src))
        (sym (decode_header_lem src src_len long.0 long.1) ∙ done) in
    record {
      enough = long.0;
      held = long.1;
      fields = same;
      shape = rw same shape;
      crc = rw same crc;
    }

-- What the shape check lets through.
pub check_header_shape-ok :
    (h : Header)
    → check_header_shape h ≡ ok tt
    → (h.magic ≡ 0xa55a)
      × (h.version ≡ 1)
      × (h.header_len ≡ 24)
      × (h.total_len ≡ (24 + h.payload_len) % 2 ^ 16)
      × (h.total_len ≤ 512)
unfolding check_header_shape
check_header_shape-ok h done = ground arith
