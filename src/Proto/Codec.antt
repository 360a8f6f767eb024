-- ===== src/Proto/Codec.antt =====
-- The frame codec of userspace/src/proto.c: the header's layout in bytes, `ch32mux_encode_header`,
-- `ch32mux_decode_header` and `ch32mux_build_frame`. A buffer is the list of its bytes and the
-- `size_t` that the caller passes for it is an argument of its own; an access that the buffer does
-- not hold is a `fault`. An error leaves the caller's variables alone, so it carries no values.
pub mod Layout
pub mod RoundTrip
pub mod Canonical
pub mod Corruption
pub mod Frame
pub mod Wire
pub mod Prefix
pub mod Wrapped
use usbmux_tool.Base.{
  ℕ, ◌+◌, ◌-◌, Bool, ◌&&◌, Option, none, some, List, length, set, take, splice, replicate, byte_at,
  Ret, ok, err, err_arg, err_proto, err_overflow, fail_if, in_bounds, ◌>>=◌, ◌>>◌, Dest, null,
  there, ltb, leb, ◌!=◌, if◌then◌else◌,
}
use usbmux_tool.Proto.Words.{u16, read_le16, write_le16}
use usbmux_tool.Proto.Header.{
  Header, magic_value, version_value, header_size, max_payload, check_header_shape,
}
use usbmux_tool.Proto.Crc.{crc16}

-- `serialize_header`: the fields at HDR_MAGIC_OFFSET to HDR_RESERVED_OFFSET.
pub serialize_header : List ℕ → Header → ℕ → List ℕ
unfolding write_le16
serialize_header dst h crc =
    let with_magic = write_le16 dst 0 h.magic in
    let with_version = set with_magic 2 h.version in
    let with_header_len = set with_version 3 h.header_len in
    let with_total_len = write_le16 with_header_len 4 h.total_len in
    let with_seq = write_le16 with_total_len 6 h.seq in
    let with_ref_seq = write_le16 with_seq 8 h.ref_seq in
    let with_ch_type = set with_ref_seq 10 h.ch_type in
    let with_ch_id = set with_ch_type 11 h.ch_id in
    let with_msg_type = set with_ch_id 12 h.msg_type in
    let with_opcode = set with_msg_type 13 h.opcode in
    let with_flags = write_le16 with_opcode 14 h.flags in
    let with_status = write_le16 with_flags 16 h.status in
    let with_payload_len = write_le16 with_status 18 h.payload_len in
    let with_crc = write_le16 with_payload_len 20 crc in write_le16 with_crc 22 h.reserved

-- `deserialize_header`
pub deserialize_header : List ℕ → Header
deserialize_header src = record {
  magic = read_le16 src 0;
  version = byte_at src 2;
  header_len = byte_at src 3;
  total_len = read_le16 src 4;
  seq = read_le16 src 6;
  ref_seq = read_le16 src 8;
  ch_type = byte_at src 10;
  ch_id = byte_at src 11;
  msg_type = byte_at src 12;
  opcode = byte_at src 13;
  flags = read_le16 src 14;
  status = read_le16 src 16;
  payload_len = read_le16 src 18;
  header_crc16 = read_le16 src 20;
  reserved = read_le16 src 22;
}

-- The header that `ch32mux_encode_header` computes the CRC of.
pub prepare : Header → Header
prepare h = record h {
  magic = magic_value;
  version = version_value;
  header_len = header_size;
  total_len = u16 (header_size + h.payload_len);
  header_crc16 = 0;
}

-- What a successful `ch32mux_encode_header` leaves in `dst` and in `*header`.
pub record Encoded : Type 0 where
  pub dst : List ℕ
  pub header : Header

-- The local `header_bytes` starts as zeros here; all 24 bytes are written before they are read.
unfoldable pub encode_header : Option (List ℕ) → ℕ → Option Header → Ret Encoded
unfolding prepare
encode_header (some dst) dst_len (some header) = do
  fail_if (ltb dst_len header_size) err_overflow
  fail_if (ltb max_payload header.payload_len) err_overflow
  let h = prepare header
  let header_bytes = serialize_header (replicate header_size 0) h 0
  crc ← crc16 (some header_bytes) header_size
  in_bounds (leb header_size (length dst))
  ok (record { dst = serialize_header dst h crc; header = record h { header_crc16 = crc } })
encode_header dst dst_len header = err err_arg

-- The copy of the header whose CRC field is cleared.
pub without_crc : List ℕ → List ℕ
without_crc src = set (set (take header_size src) 20 0) 21 0

unfoldable pub decode_header : Option (List ℕ) → ℕ → Dest → Ret Header
unfolding without_crc
decode_header (some src) src_len there = do
  fail_if (ltb src_len header_size) err_proto
  in_bounds (leb header_size (length src))
  let header = deserialize_header src
  check_header_shape header
  crc ← crc16 (some (without_crc src)) header_size
  fail_if (crc != header.header_crc16) err_proto
  ok header
decode_header src src_len header = err err_arg

-- What a successful `ch32mux_build_frame` leaves in `dst`, `*frame_len` and `*header`.
pub record Built : Type 0 where
  pub dst : List ℕ
  pub frame_len : ℕ
  pub header : Header

-- The copy of the payload: none if there is nothing to copy.
pub copy_payload : List ℕ → Option (List ℕ) → ℕ → Ret (List ℕ)
copy_payload dst none payload_len = ok dst
copy_payload dst (some payload) payload_len = do
  in_bounds (leb payload_len (length payload) && leb (header_size + payload_len) (length dst))
  ok (splice dst header_size (take payload_len payload))

-- `payload == NULL`
abbrev pub is_null {ℓ} : {A : Type ℓ} → Option A → Bool
is_null none = Bool.true
is_null (some a) = Bool.false

unfoldable pub build_frame :
    Option (List ℕ) → ℕ → Dest → Option Header → Option (List ℕ) → ℕ → Ret Built
unfolding copy_payload
build_frame (some dst) dst_len there (some header) payload payload_len = do
  fail_if (is_null payload && payload_len != 0) err_arg
  fail_if (ltb max_payload payload_len) err_overflow
  fail_if (ltb dst_len (header_size + payload_len)) err_overflow
  e ← encode_header (some dst) dst_len (some (record header { payload_len = u16 payload_len }))
  out ← if payload_len != 0 then copy_payload e.dst payload payload_len else ok e.dst
  ok (record { dst = out; frame_len = header_size + payload_len; header = e.header })
build_frame dst dst_len frame_len header payload payload_len = err err_arg
