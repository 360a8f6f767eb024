-- ===== src/Ble/Scan/Laws.antt =====
-- `ch32mux_ble_parse_scan_result` reads back what a scan report says.
use usbmux_tool.Base.{
  ℕ, ◌-◌, ◌≤◌, ◌<◌, ◌≡◌, refl, arith, List, ◌∷◌, ◌++◌, some, ok, err, err_proto, length,
  length-append, append_assoc, ap, ◌∙◌, take, drop, take-front, drop-front, Bool-cases, inl, inr,
  there, ltb, leb-true, if◌then◌else◌, ℤ, pos, negsuc,
}
use usbmux_tool.Ble.Scan.{ScanResult, parse_scan_result, int8_of_byte}

-- The byte of a signed 8-bit value.
abbrev pub byte_of_int8 : ℤ → ℕ
byte_of_int8 (pos n) = n
byte_of_int8 (negsuc n) = 255 - n

abbrev pub IsInt8 : ℤ → Type 0
IsInt8 (pos n) = n < 128
IsInt8 (negsuc n) = n < 128

abbrev pub report_bytes : ScanResult → List ℕ
report_bytes r =
    r.addr_type ∷ r.event_type ∷ byte_of_int8 r.rssi ∷ r.adv_len ∷ (r.addr ++ r.adv_prefix)

signed : (v : ℤ) → IsInt8 v → int8_of_byte (byte_of_int8 v) ≡ v
signed (pos n) h = ground arith
signed (negsuc n) h = ground arith

-- A report with six address bytes, six bytes of advertising data and a signal strength from -128 to
-- 127 is read back, the strength as a signed number, whatever follows; a claimed length below 16 is
-- a protocol error.
pub parse_scan_result-report_bytes :
    (r : ScanResult) (rest : List ℕ) (n : ℕ)
    → length r.addr ≡ 6
    → length r.adv_prefix ≡ 6
    → IsInt8 r.rssi
    → parse_scan_result (some (report_bytes r ++ rest)) n there
      ≡ (if ltb n 16 then err err_proto else ok r)
unfolding parse_scan_result
parse_scan_result-report_bytes r rest n p q s =
    rw (leb-true 16 (length (report_bytes r ++ rest)) room) (elim (Bool-cases (ltb n 16)) [
      | inl short ↦ rw short refl
      | inr enough ↦
          rw (enough, append_assoc r.addr r.adv_prefix rest, front, behind, signed r.rssi s) refl
    ])
  where
    front : take 6 (r.addr ++ (r.adv_prefix ++ rest)) ≡ r.addr
    front = take-front 6 r.addr (r.adv_prefix ++ rest) p

    behind : take 6 (drop 6 (r.addr ++ (r.adv_prefix ++ rest))) ≡ r.adv_prefix
    behind =
        ap (λ (t : List ℕ). take 6 t) (drop-front 6 r.addr (r.adv_prefix ++ rest) p)
        ∙ take-front 6 r.adv_prefix rest q

    room : 16 ≤ length (report_bytes r ++ rest)
    room =
        omega (arith, length-append (report_bytes r) rest, length-append r.addr r.adv_prefix, p, q)
