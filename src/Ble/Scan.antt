-- ===== src/Ble/Scan.antt =====
-- `ch32mux_ble_scan_result_t` and `ch32mux_ble_parse_scan_result`.
pub mod Laws
use usbmux_tool.Base.{
  ℕ, ◌-◌, ◌^◌, Option, none, some, List, length, take, drop, byte_at, Ret, ok, err, err_arg,
  err_proto, fail_if, in_bounds, ◌>>◌, Dest, null, there, ltb, leb, ℤ, pos, negsuc, if◌then◌else◌,
}

-- `(int8_t)b`
abbrev pub int8_of_byte : ℕ → ℤ
int8_of_byte b = if ltb b 128 then pos b else negsuc (256 - b - 1)

pub record ScanResult : Type 0 where
  pub addr_type : ℕ
  pub event_type : ℕ
  pub rssi : ℤ
  pub adv_len : ℕ
  pub addr : List ℕ
  pub adv_prefix : List ℕ

unfoldable pub parse_scan_result : Option (List ℕ) → ℕ → Dest → Ret ScanResult
parse_scan_result (some payload) payload_len there = do
  fail_if (ltb payload_len 16) err_proto
  in_bounds (leb 16 (length payload))
  ok (record {
    addr_type = byte_at payload 0;
    event_type = byte_at payload 1;
    rssi = int8_of_byte (byte_at payload 2);
    adv_len = byte_at payload 3;
    addr = take 6 (drop 4 payload);
    adv_prefix = take 6 (drop 10 payload);
  })
parse_scan_result payload payload_len result = err err_arg
