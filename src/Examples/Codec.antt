-- ===== src/Examples/Codec.antt =====
-- The codec's theorems at concrete headers and frames.
use usbmux_tool.Base.{
  ℕ, ◌+◌, ◌≤◌, ◌<◌, ◌≡◌, ◌≢◌, refl, arith, List, [], ◌∷◌, ◌++◌, some, ok, there, replicate, IsBytes,
  set, take, drop, negsuc,
}
use usbmux_tool.Proto.Header.{Header, IsHeader, zero_header, check_header_shape}
use usbmux_tool.Proto.Crc.{crc_bit, crc_bits, crc_byte, crc_bytes}
use usbmux_tool.Proto.Codec.{Encoded, encode_header, decode_header, build_frame}
use usbmux_tool.Proto.Codec.Layout.{layout}
use usbmux_tool.Proto.Codec.RoundTrip.{header_crc, decode_header-layout, encode-decode}
use usbmux_tool.Proto.Codec.Canonical.{encode_header-decode_header}
use usbmux_tool.Proto.Codec.Corruption.{decode_header-single_byte}
use usbmux_tool.Proto.Codec.Frame.{
  built, build_frame_lem, build_frame_total, decode_header-build_frame,
}
use usbmux_tool.Proto.Codec.Wrapped.{decode_header-wrapped}
use usbmux_tool.Exchange.Payload.{payload_ends}
use usbmux_tool.Proto.Hint.{IrqHint, parse_irq_hint}
use usbmux_tool.Proto.Hint.Laws.{hint_bytes, parse_irq_hint-hint_bytes}
use usbmux_tool.Ble.Scan.{ScanResult, parse_scan_result}
use usbmux_tool.Ble.Scan.Laws.{report_bytes, parse_scan_result-report_bytes}

-- The check value of CRC-16/CCITT-FALSE, of the digits 1 to 9.
crc_check_value : crc_bytes 0xffff (49 ∷ 50 ∷ 51 ∷ 52 ∷ 53 ∷ 54 ∷ 55 ∷ 56 ∷ 57 ∷ []) ≡ 0x29b1
unfolding crc_bytes crc_byte crc_bits crc_bit
crc_check_value = refl

-- A heartbeat, as the caller fills it in and as it goes out.
abbrev pub heartbeat : Header
heartbeat = record zero_header { seq = 7; ref_seq = 3; msg_type = 1; opcode = 7 }

abbrev pub sent_header : Header
sent_header = record heartbeat {
  magic = 0xa55a;
  version = 1;
  header_len = 24;
  total_len = 27;
  payload_len = 3;
}

abbrev pub body : List ℕ
body = 0x11 ∷ 0x22 ∷ 0x33 ∷ []

abbrev room : List ℕ
room = replicate 32 0

abbrev pub wire : List ℕ
wire = layout sent_header (header_crc sent_header) ++ body

heartbeat_fits : IsHeader heartbeat
heartbeat_fits = ground arith

sent_fits : IsHeader sent_header
sent_fits = ground arith

pub wire_decodes :
    decode_header (some wire) 27 there
    ≡ ok (record sent_header { header_crc16 = header_crc sent_header })
wire_decodes =
    decode_header-layout sent_header body 27 sent_fits (omega arith)
      (unfold check_header_shape in refl)

wire-IsBytes : IsBytes wire
wire-IsBytes = ground arith

encode-decode_example :
    (e : Encoded) × (encode_header (some room) 32 (some heartbeat) ≡ ok e)
    × (decode_header (some e.dst) 24 there ≡ ok e.header)
    × (e.header ≡ record heartbeat {
      magic = 0xa55a;
      version = 1;
      header_len = 24;
      total_len = 24;
      header_crc16 = e.header.header_crc16;
    })
    × (drop 24 e.dst ≡ drop 24 room)
encode-decode_example =
    encode-decode room 32 24 heartbeat heartbeat_fits (omega arith) (omega arith) (omega arith)
      (omega arith)

encode_header-decode_header_example :
    encode_header
      (some wire)
      27
      (some (record sent_header { header_crc16 = header_crc sent_header }))
    ≡ ok (record {
      dst = wire;
      header = record sent_header { header_crc16 = header_crc sent_header };
    })
encode_header-decode_header_example =
    encode_header-decode_header wire 27
      (record sent_header { header_crc16 = header_crc sent_header }) wire-IsBytes wire_decodes
      (omega arith)

-- The low byte of the sequence number turns from 7 to 8.
decode_header-single_byte_example : decode_header (some (set wire 6 8)) 27 there ≢ ok sent_header
decode_header-single_byte_example =
    decode_header-single_byte wire 27 27 6 8
      (record sent_header { header_crc16 = header_crc sent_header }) sent_header wire-IsBytes
      (omega arith) (omega arith) (omega arith) wire_decodes

payload_ends_example : (24 + 3 ≡ 27) × (3 ≤ 488)
payload_ends_example =
    payload_ends wire 27 (record sent_header { header_crc16 = header_crc sent_header }) wire_decodes
      refl

build_frame_total_example :
    build_frame (some room) 32 there (some heartbeat) (some body) 3
    ≡ ok (built room heartbeat body 3)
build_frame_total_example =
    build_frame_total room 32 heartbeat (some body) 3 (omega arith) (omega arith)

decode_header-build_frame_example :
    let b = built room heartbeat body 3 in
    (b.frame_len ≡ 27)
    × (decode_header (some b.dst) b.frame_len there ≡ ok b.header)
    × (b.header ≡ record heartbeat {
      magic = 0xa55a;
      version = 1;
      header_len = 24;
      total_len = b.frame_len;
      payload_len = 3;
      header_crc16 = b.header.header_crc16;
    })
    × (take 3 (drop 24 b.dst) ≡ body)
    × (drop b.frame_len b.dst ≡ drop b.frame_len room)
decode_header-build_frame_example =
    decode_header-build_frame room 32 heartbeat (some body) 3 (built room heartbeat body 3)
      heartbeat_fits (omega arith) (omega arith)
      (build_frame_lem room 32 heartbeat (some body) 3 (omega arith) (omega arith) (omega arith)
        (omega arith))

abbrev wrapped : Header
wrapped = record sent_header { payload_len = 65520; total_len = 8 }

decode_header-wrapped_example :
    (decode_header (some (layout wrapped (header_crc wrapped) ++ [])) 64 there
      ≡ ok (record wrapped { header_crc16 = header_crc wrapped }))
    × (8 < 24)
decode_header-wrapped_example =
    decode_header-wrapped wrapped [] 64 (ground arith) refl refl refl (omega arith) refl
      (omega arith)

abbrev hint : IrqHint
hint = record {
  version = 1;
  urgent_flags = 0x80;
  pending_bitmap = 0x0102;
  dropped_bitmap = 3;
  reserved = 0;
}

parse_irq_hint-hint_bytes_example : parse_irq_hint (some (hint_bytes hint ++ [])) 8 there ≡ ok hint
parse_irq_hint-hint_bytes_example =
    parse_irq_hint-hint_bytes hint [] 8 (omega arith) (omega arith) (omega arith)

abbrev report : ScanResult
report = record {
  addr_type = 1;
  event_type = 4;
  rssi = negsuc 59;
  adv_len = 31;
  addr = 1 ∷ 2 ∷ 3 ∷ 4 ∷ 5 ∷ 6 ∷ [];
  adv_prefix = 2 ∷ 1 ∷ 6 ∷ 3 ∷ 3 ∷ 0xaa ∷ [];
}

parse_scan_result-report_bytes_example :
    parse_scan_result (some (report_bytes report ++ [])) 16 there ≡ ok report
parse_scan_result-report_bytes_example =
    parse_scan_result-report_bytes report [] 16 refl refl (omega arith)
