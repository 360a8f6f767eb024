-- ===== src/Cli/Scan.antt =====
-- `cmd_ble_scan`
pub mod Steps
pub mod Ends
pub mod Stops
pub mod Returns
use usbmux_tool.Base.{
  ℕ, zero, suc, ◌+◌, ◌-◌, ◌%◌, ◌^◌, Bool, not, ◌&&◌, Option, none, some, List, [], ◌∷◌, ◌++◌,
  replicate, byte_at, ℤ, pos, negsuc, int_lt, Ret, Code, ok, err, fault, err_timeout, there, ltb,
  leb, ◌==◌, ◌!=◌, if◌then◌else◌,
}
use usbmux_tool.Proto.Header.{Header, max_frame_len}
use usbmux_tool.Proto.Constants.{ch_ble_mgmt, ble_evt_scan_rsp_op}
use usbmux_tool.Device.Platform.{Platform}
use usbmux_tool.Device.State.{State}
use usbmux_tool.Exchange.Accept.{Response, or_empty}
use usbmux_tool.Ble.Manage.{
  BleCap, ScanParam, ble_get_cap, ble_set_scan_param, ble_scan_start, ble_scan_stop,
}
use usbmux_tool.Ble.Event.{ble_read_event}
use usbmux_tool.Ble.Scan.{ScanResult, parse_scan_result}
use usbmux_tool.Cli.Text.{strtoul, number_or_zero}
use usbmux_tool.Cli.Console.{Printed, fprintf, stdout, number, integer, newline}
use usbmux_tool.Cli.Ending.{Outcome, return, undefined_at, print, branch, give_up, failure, running}

-- `time(NULL)`, the seconds of the system's clock
pub record Clock (P : Platform) : Type 0 where
  pub time : P.World → ℕ × P.World

-- 5 seconds, or what the text tells if it is not 0.
unfoldable pub scan_seconds : Option (List ℕ) → ℕ
scan_seconds none = 5
scan_seconds (some seconds_text) =
    let seconds = number_or_zero (strtoul seconds_text) in if seconds == 0 then 5 else seconds

-- `time(NULL) + (time_t)seconds` of the 64-bit `time_t`; `none` is an overflow.
unfoldable pub end_time : ℕ → ℕ → Option ℤ
end_time now seconds =
    if ltb seconds (2 ^ 63)
    then if ltb (now + seconds) (2 ^ 63) then some (pos (now + seconds)) else none
    else let back = 2 ^ 64 - seconds in
      some (if leb back now then pos (now - back) else negsuc (back - now - 1))

abbrev pub cap_lines : BleCap → List Printed
cap_lines cap =
    fprintf stdout "ble cap links=%u scan=%u connect=%u gatt=%u scan_int=%u scan_win=%u\n" (
      number cap.max_links
      ∷ number cap.supports_scan
      ∷ number cap.supports_connect
      ∷ number cap.supports_gatt
      ∷ number cap.scan_interval
      ∷ number cap.scan_window
      ∷ [])
    ∷ []

-- The parameters that are set: those of the device where it tells them.
abbrev pub param_of : BleCap → ScanParam
param_of cap = record {
  interval = if cap.scan_interval != 0 then cap.scan_interval else 16;
  window = if cap.scan_window != 0 then cap.scan_window else 16;
  duration = 0;
  mode = 0x03;
  active = 1;
  white_list = 0;
}

pub print_ble_addr : List ℕ → Printed
print_ble_addr addr = fprintf stdout "%02X:%02X:%02X:%02X:%02X:%02X" (
    number (byte_at addr 5)
    ∷ number (byte_at addr 4)
    ∷ number (byte_at addr 3)
    ∷ number (byte_at addr 2)
    ∷ number (byte_at addr 1)
    ∷ number (byte_at addr 0)
    ∷ [])

-- The loop over `result.adv_prefix`
pub print_prefix : List ℕ → List Printed
print_prefix [] = []
print_prefix (b ∷ bytes) = fprintf stdout "%02X" (number b ∷ []) ∷ print_prefix bytes

pub report_lines : ℕ → ScanResult → List Printed
unfolding print_ble_addr print_prefix
report_lines reports r =
    fprintf stdout "scan[%u] addr=" (number reports ∷ [])
    ∷ print_ble_addr r.addr
    ∷ fprintf stdout " type=%u event=%u rssi=%d adv_len=%u adv_prefix="
        (number r.addr_type ∷ number r.event_type ∷ integer r.rssi ∷ number r.adv_len ∷ [])
    ∷ (print_prefix r.adv_prefix ++ newline ∷ [])

abbrev pub event_lines : Header → ℕ → List Printed
event_lines h payload_len =
    fprintf stdout "event ch=0x%02X id=%u op=0x%02X payload=%zu\n"
      (number h.ch_type ∷ number h.ch_id ∷ number h.opcode ∷ number payload_len ∷ [])
    ∷ []

-- A scan report that was parsed, or not: what is printed, and the number of reports after it.
unfoldable pub count_report : Ret ScanResult → ℕ → Option (List Printed × ℕ)
unfolding report_lines
count_report (ok r) reports = some (report_lines reports r, (reports + 1) % 2 ^ 32)
count_report (err e) reports = some (failure "BLE scan event parse failed: %s\n" e ∷ [], reports)
count_report fault reports = none

-- An event: a scan report, or any other. `none` is undefined behaviour.
unfoldable pub show_event : Response → ℕ → Option (List Printed × ℕ)
unfolding count_report
show_event e reports =
    if e.header.ch_type == ch_ble_mgmt
      && e.header.ch_id == 0
      && e.header.opcode == ble_evt_scan_rsp_op
    then count_report (parse_scan_result (some (or_empty e.payload)) e.len there) reports
    else some (event_lines e.header e.len, reports)

abbrev pub is_timeout : Code → Bool
is_timeout err_timeout = Bool.true
is_timeout e = Bool.false

module _ (P : Platform) (C : Clock P) where
  -- From `ch32mux_ble_scan_stop` on.
  unfoldable pub scan_stop : ℕ → State P.World → Outcome P.World
  scan_stop reports s =
      branch (ble_scan_stop P s)
        (λ r t.
          print (fprintf stdout "ble scan stopped reports=%u\n" (number reports ∷ []) ∷ [])
            (return 0 t))
        (give_up "BLE_SCAN_STOP failed: %s\n")

  -- After an event that was read.
  abbrev pub go_on :
      Option (List Printed × ℕ)
      → (ℕ → State P.World → Outcome P.World)
      → State P.World
      → Outcome P.World
  go_on none again t = undefined_at t
  go_on (some (lines, reports)) again t = print lines (again reports t)

  -- The body of the loop, with the next round.
  unfoldable pub scan_round :
      ℕ → (ℕ → State P.World → Outcome P.World) → State P.World → Outcome P.World
  unfolding scan_stop
  scan_round reports again s =
      branch (ble_read_event P (some (replicate max_frame_len 0)) max_frame_len there s)
        (λ e t. go_on (show_event e reports) again t)
        (λ e t.
          if is_timeout e
          then again reports t
          else print (failure "BLE event read failed: %s\n" e ∷ []) (scan_stop reports t))

  -- `while(time(NULL) <= end_time)`, on fuel.
  unfoldable pub scan_loop : ℕ → ℤ → ℕ → State P.World → Outcome P.World
  unfolding scan_round
  scan_loop zero end reports s = record { exit = running; shown = []; state = s }
  scan_loop (suc fuel) end reports s =
      let again = λ (n : ℕ) (t : State P.World). scan_loop fuel end n t in
      let (now, w) = C.time s.world in
      if int_lt end (pos now)
      then scan_stop reports (record s { world = w })
      else scan_round reports again (record s { world = w })

  unfoldable pub scan_until : ℕ → Option ℤ → State P.World → Outcome P.World
  unfolding scan_loop
  scan_until fuel none s = undefined_at s
  scan_until fuel (some end) s = scan_loop fuel end 0 s

  -- The command, with fuel for its loop.
  unfoldable pub cmd_ble_scan : ℕ → Option (List ℕ) → State P.World → Outcome P.World
  unfolding scan_seconds end_time scan_until
  cmd_ble_scan fuel seconds_text s =
      let seconds = scan_seconds seconds_text in
      branch (ble_get_cap P there s)
        (λ cap t. print (cap_lines cap) (
          branch (ble_set_scan_param P (param_of cap) t)
            (λ r u.
              branch (ble_scan_start P u)
                (λ r' v.
                  print
                    (fprintf stdout "ble scan started for %lu seconds\n" (number seconds ∷ []) ∷ [])
                    (let (now, w) = C.time v.world in
                      scan_until fuel (end_time now seconds) (record v { world = w })))
                (give_up "BLE_SCAN_START failed: %s\n"))
            (give_up "BLE_SET_SCAN_PARAM failed: %s\n")))
        (give_up "BLE_GET_CAP failed: %s\n")
