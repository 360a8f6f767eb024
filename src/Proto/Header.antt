-- ===== src/Proto/Header.antt =====
-- The protocol's constants, the frame header and its shape: `ch32mux_header_t` of
-- userspace/include/ch32v208_mux/proto.h and `check_header_shape` of userspace/src/proto.c.
use usbmux_tool.Base.{
  ℕ, ◌+◌, ◌-◌, ◌^◌, ◌<◌, Ret, fail_if, ◌>>◌, ok, err_proto, err_overflow, ltb, ◌!=◌,
}
use usbmux_tool.Proto.Words.{u16}

abbrev pub magic_value : ℕ
magic_value = 0xa55a

abbrev pub version_value : ℕ
version_value = 0x01

-- CH32MUX_HEADER_LEN, CH32MUX_MAX_FRAME_LEN and their difference, the largest payload
abbrev pub header_size : ℕ
header_size = 24

abbrev pub max_frame_len : ℕ
max_frame_len = 512

abbrev pub max_payload : ℕ
max_payload = max_frame_len - header_size

pub record Header : Type 0 where
  pub magic : ℕ
  pub version : ℕ
  pub header_len : ℕ
  pub total_len : ℕ
  pub seq : ℕ
  pub ref_seq : ℕ
  pub ch_type : ℕ
  pub ch_id : ℕ
  pub msg_type : ℕ
  pub opcode : ℕ
  pub flags : ℕ
  pub status : ℕ
  pub payload_len : ℕ
  pub header_crc16 : ℕ
  pub reserved : ℕ

-- `memset(&header, 0, sizeof(header))`
abbrev pub zero_header : Header
zero_header = record {
  magic = 0;
  version = 0;
  header_len = 0;
  total_len = 0;
  seq = 0;
  ref_seq = 0;
  ch_type = 0;
  ch_id = 0;
  msg_type = 0;
  opcode = 0;
  flags = 0;
  status = 0;
  payload_len = 0;
  header_crc16 = 0;
  reserved = 0;
}

-- The fields are `uint8_t` and `uint16_t`.
pub record IsHeader (h : Header) : Type 0 where
  pub magic_fits : h.magic < 2 ^ 16
  pub version_fits : h.version < 2 ^ 8
  pub header_len_fits : h.header_len < 2 ^ 8
  pub total_len_fits : h.total_len < 2 ^ 16
  pub seq_fits : h.seq < 2 ^ 16
  pub ref_seq_fits : h.ref_seq < 2 ^ 16
  pub ch_type_fits : h.ch_type < 2 ^ 8
  pub ch_id_fits : h.ch_id < 2 ^ 8
  pub msg_type_fits : h.msg_type < 2 ^ 8
  pub opcode_fits : h.opcode < 2 ^ 8
  pub flags_fits : h.flags < 2 ^ 16
  pub status_fits : h.status < 2 ^ 16
  pub payload_len_fits : h.payload_len < 2 ^ 16
  pub header_crc16_fits : h.header_crc16 < 2 ^ 16
  pub reserved_fits : h.reserved < 2 ^ 16

-- `check_header_shape`; it is only called with the address of a local header.
unfoldable pub check_header_shape : Header → Ret (Unit {0})
check_header_shape h = do
  fail_if (h.magic != magic_value) err_proto
  fail_if (h.version != version_value) err_proto
  fail_if (h.header_len != header_size) err_proto
  fail_if (h.total_len != u16 (h.header_len + h.payload_len)) err_proto
  fail_if (ltb max_frame_len h.total_len) err_overflow
  ok tt
