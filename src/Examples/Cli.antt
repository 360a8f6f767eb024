-- ===== src/Examples/Cli.antt =====
-- The tool's theorems on the board.
use usbmux_tool.Base.{
  replicate, ℕ, ◌-◌, ◌^◌, ◌≤◌, ◌≡◌, ◌+◌, ◌*◌, ◌⊎◌, negsuc, ◌≢◌, refl, arith, List, [], ◌∷◌, none,
  some, length, leb, if◌then◌else◌, ◌<◌,
}
use usbmux_tool.Proto.Header.{zero_header}
use usbmux_tool.Proto.Codec.Wire.{frame_of}
use usbmux_tool.Proto.Names.{device_status_name, result_name}
use usbmux_tool.Proto.Names.Laws.{device_status_name_injective, result_name_injective}
use usbmux_tool.Device.State.{State}
use usbmux_tool.Device.Lifecycle.Ledger.{Moves, nothing}
use usbmux_tool.Device.Lifecycle.{open_device, options_or_default}
use usbmux_tool.Cli.{main}
use usbmux_tool.Cli.Balance.{main-Moves}
use usbmux_tool.Cli.Text.{codes, strtoul}
use usbmux_tool.Cli.Text.Decimal.{decimal}
use usbmux_tool.Cli.Port.{parse_port}
use usbmux_tool.Cli.Port.Laws.{parse_port-decimal, parse_port_negated}
use usbmux_tool.Base.{◌++◌}
use usbmux_tool.Cli.Console.{fprintf, stdout, name, number, newline, dump_hex}
use usbmux_tool.Cli.Console.Rows.{rows, dump_hex-rows}
use usbmux_tool.Cli.Ending.{undefined, exited}
use usbmux_tool.Cli.Loopback.{cmd_uart_loopback}
use usbmux_tool.Cli.Loopback.Verdict.{Passed, cmd_uart_loopback_verdict}
use usbmux_tool.Cli.Scan.Stops.{ScanRun, cmd_ble_scan-ScanRun}
use usbmux_tool.Examples.Bench.{bench}
use usbmux_tool.Cli.Scan.{Clock, scan_seconds, cmd_ble_scan}
use usbmux_tool.Cli.Scan.Returns.{cmd_ble_scan_returns}
use usbmux_tool.Device.Along.{Transfers}
use usbmux_tool.Examples.Transport.{opened_device}
use usbmux_tool.Examples.Board.{
  Desk, board, board_trace, board_laws, desk_clock, desk_ticking, Transfers-seconds,
}

-- The answers to an open and a close of port 1, and the echo in two frames.
abbrev answer : ℕ → ℕ → List ℕ
answer seq opcode =
    frame_of
      (record zero_header { ref_seq = seq; ch_type = 1; ch_id = 1; msg_type = 2; opcode = opcode })
      none 0

abbrev echo_of : List ℕ → List ℕ
echo_of bytes =
    frame_of (record zero_header { ch_type = 2; ch_id = 1; msg_type = 4 }) (some bytes)
      (length bytes)

abbrev desk : List (List ℕ) → Desk
desk packets = record {
  packets = packets;
  calls = [];
  seconds = 100;
  delivered = [];
  received = [];
}

abbrev wired : ℕ → ℕ → List (List ℕ)
wired first last = answer first 3 ∷ echo_of (codes "he") ∷ echo_of (codes "y") ∷ answer last 4 ∷ []

abbrev at_port : List (List ℕ) → State Desk
at_port packets = record { device = some opened_device; world = desk packets }

cmd_uart_loopback_verdict_example :
    let o = cmd_uart_loopback board 1 none (codes "hey") (at_port (wired 65535 2)) in
    ((o.exit ≡ exited 0) × Passed board 1 none (codes "hey") (at_port (wired 65535 2)) o.state)
    ⊎ (o.exit ≡ exited 1)
    ⊎ (o.exit ≡ undefined)
    ⊎ ((o.exit ≡ exited 2) × (488 < length (codes "hey")) × (o.state ≡ at_port (wired 65535 2)))
cmd_uart_loopback_verdict_example =
    cmd_uart_loopback_verdict board 1 none (codes "hey") (at_port (wired 65535 2))

seven : 1 + (scan_seconds none + 1) * 1 ≤ 7
unfolding scan_seconds
seven = omega arith

-- A device that answers the three requests of a scan, sends a report and then nothing more.
abbrev radio : ℕ → ℕ → List ℕ → ℕ → List ℕ
radio seq opcode payload n =
    frame_of (record zero_header { ref_seq = seq; ch_type = 16; msg_type = 2; opcode = opcode })
      (some payload) n

abbrev radio_desk : State Desk
radio_desk = at_port (
    radio 65535 1 (2 ∷ 1 ∷ 1 ∷ 0 ∷ 96 ∷ 0 ∷ 48 ∷ 0 ∷ []) 8
    ∷ radio 1 2 [] 0
    ∷ radio 2 3 [] 0
    ∷ frame_of (record zero_header { seq = 4; ch_type = 16; msg_type = 3; opcode = 0x80 })
        (some (replicate 16 7)) 16
    ∷ [])

radio_early :
    (w : Desk)
    → Transfers board radio_desk.world w
    → (desk_clock.time w).0 + scan_seconds none < 2 ^ 63
unfolding scan_seconds
radio_early w moved = omega (arith, Transfers-seconds radio_desk.world w moved)

cmd_ble_scan_returns_example :
    let o = cmd_ble_scan board desk_clock 7 none radio_desk in
    (o.exit ≡ exited 0) ⊎ (o.exit ≡ exited 1)
cmd_ble_scan_returns_example =
    cmd_ble_scan_returns board board_laws desk_clock desk_ticking 7 none radio_desk opened_device
      refl radio_early seven

-- A port that is none: the device is opened, the usage is shown and the device is closed.
abbrev wrong_port : List (List ℕ)
wrong_port = codes "mux" ∷ codes "uart-cap" ∷ codes "256" ∷ []

wrong_port_ends : (main board desk_clock 1 wrong_port (desk [])).exit ≡ exited 2
unfolding main parse_port open_device options_or_default strtoul
wrong_port_ends = refl

main-Moves_example :
    Moves board board_trace
      (desk [])
      (main board desk_clock 1 wrong_port (desk [])).world
      nothing
      nothing
main-Moves_example =
    main-Moves board board_trace desk_clock (λ w. refl) 1 wrong_port (desk []) 2 wrong_port_ends

parse_port-decimal_example : parse_port (decimal 300) ≡ (if leb 300 255 then some 300 else none)
parse_port-decimal_example = parse_port-decimal 300

parse_port_negated_example : parse_port (45 ∷ decimal (2 ^ 64 - 7)) ≡ some 7
parse_port_negated_example = parse_port_negated 7 (omega arith) (omega arith)

known_status : device_status_name 4 ≢ "ERR_UNKNOWN_DEVICE_STATUS"
unfolding device_status_name
known_status h = cc

device_status_name_injective_example : ◌≡◌ {A = ℕ} 4 4
device_status_name_injective_example = device_status_name_injective 4 4 refl known_status

known_result : result_name (negsuc 4) ≢ "ERR_UNKNOWN"
unfolding result_name
known_result h = cc

result_name_injective_example : negsuc 4 ≡ negsuc 4
result_name_injective_example = result_name_injective (negsuc 4) (negsuc 4) refl known_result

port_texts :
    (parse_port (codes "0") ≡ some 0)
    × (parse_port (codes "255") ≡ some 255)
    × (parse_port (codes "256") ≡ none)
    × (parse_port (codes " 0x1F") ≡ some 31)
    × (parse_port (codes "010") ≡ some 8)
    × (parse_port (codes "7a") ≡ none)
    × (parse_port (codes "") ≡ none)
    × (parse_port (codes "0x") ≡ none)
    × (parse_port (codes "-18446744073709551615") ≡ some 1)
    × (parse_port (codes "-1") ≡ none)
    × (parse_port (codes "99999999999999999999999") ≡ none)
unfolding parse_port strtoul
port_texts = (refl, refl, refl, refl, refl, refl, refl, refl, refl, refl, refl)

-- A clock that stands at 7, and a scan of 5 seconds on a device that does not answer.
abbrev stopped_clock : Clock bench
stopped_clock = record { time = λ w. (7, w) }

cmd_ble_scan-ScanRun_example :
    ScanRun board desk_clock radio_desk (cmd_ble_scan board desk_clock 7 none radio_desk)
cmd_ble_scan-ScanRun_example = cmd_ble_scan-ScanRun board desk_clock 7 none radio_desk

dump_hex-rows_example :
    dump_hex "TX" (codes "a text of 19 bytes.")
    ≡ fprintf stdout "%s (%zu bytes):" (name "TX" ∷ number 19 ∷ [])
      ∷ (rows 20 0 (codes "a text of 19 bytes.") ++ newline ∷ [])
dump_hex-rows_example = dump_hex-rows "TX" (codes "a text of 19 bytes.")
