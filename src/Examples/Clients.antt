-- ===== src/Examples/Clients.antt =====
-- The theorems on the UART's and the radio's commands on the bench.
use usbmux_tool.Base.{ℕ, ◌≡◌, refl, arith, List, some, none, there, replicate}
use usbmux_tool.Proto.Header.{zero_header}
use usbmux_tool.Proto.Codec.Wire.{frame_of}
use usbmux_tool.Exchange.{transact}
use usbmux_tool.Exchange.Laws.{Exchanged}
use usbmux_tool.Exchange.Query.{Reported}
use usbmux_tool.Uart.Sys.{DevInfo, Caps, dev_info_of, caps_of, sys_get_dev_info, sys_get_caps}
use usbmux_tool.Uart.Sys.Laws.{
  dev_info_bytes, caps_bytes, sys_get_dev_info-Reported, sys_get_caps-Reported,
}
use usbmux_tool.Uart.Port.{
  PortCap, UartStats, port_cap_of, uart_stats_of, uart_get_port_cap, uart_get_stats, LineCoding,
  uart_open,
}
use usbmux_tool.Uart.Port.Queries.{
  port_cap_bytes, uart_stats_bytes, uart_get_port_cap-Reported, uart_get_stats-Reported,
}
use usbmux_tool.Uart.Port.Laws.{line_bytes, uart_open-Exchanged}
use usbmux_tool.Ble.Manage
use usbmux_tool.Ble.Manage.{BleCap, ble_get_cap, ble_cap_of, ScanParam, ble_set_scan_param}
use usbmux_tool.Ble.Manage.Laws.{
  ble_cap_bytes, ble_get_cap-Reported, scan_bytes, transact-transact, ble_set_scan_param-Exchanged,
}
use usbmux_tool.Examples.Bench.{World, bench, bench_laws}
use usbmux_tool.Device.State.{State}
use usbmux_tool.Examples.Transport.{opened_device, waiting}

abbrev scan : ScanParam
scan = record {
  interval = 0x0123;
  window = 48;
  duration = 1000;
  mode = 0;
  active = 1;
  white_list = 0;
}

abbrev line : LineCoding
line = record { baudrate = 921600; data_bits = 8; parity = 0; stop_bits = 1 }

-- The empty response to the request number 65535.
abbrev done_open : List ℕ
done_open =
    frame_of
      (record zero_header { ref_seq = 65535; ch_type = 1; ch_id = 2; msg_type = 2; opcode = 3 })
      none 0

abbrev done_scan : List ℕ
done_scan =
    frame_of (record zero_header { ref_seq = 65535; ch_type = 16; msg_type = 2; opcode = 2 }) none 0

-- A scan report of sixteen bytes.
abbrev scan_event : List ℕ
scan_event =
    frame_of (record zero_header { seq = 4; ch_type = 16; msg_type = 3; opcode = 0x80 })
      (some (replicate 16 7)) 16

-- The answer to the request number 65535 on a channel, with the payload that is reported.
abbrev report : ℕ → ℕ → ℕ → List ℕ → ℕ → List ℕ
report ch_type ch_id opcode payload n =
    frame_of
      (record zero_header {
        ref_seq = 65535;
        ch_type = ch_type;
        ch_id = ch_id;
        msg_type = 2;
        opcode = opcode;
      })
      (some payload) n

abbrev info : DevInfo
info = record {
  proto_version = 1;
  fw_major = 0;
  fw_minor = 3;
  fw_patch = 2;
  uart_port_count = 4;
  ble_max_links = 2;
  reserved0 = 0;
  reserved1 = 0;
}

abbrev caps : Caps
caps = record {
  caps_bitmap = 0x01020307;
  uart_port_count = 4;
  ble_max_links = 2;
  net_reserved = 1;
  reserved0 = 0;
}

abbrev port_cap : PortCap
port_cap = record {
  logic_port = 1;
  phy_uart_id = 2;
  state = 1;
  reserved0 = 0;
  rx_capacity = 1024;
  tx_capacity = 512;
  supports_line_coding = 1;
  supports_flush = 1;
  reserved1 = 0;
  reserved2 = 0;
}

abbrev stats : UartStats
stats = record {
  rx_bytes = 70000;
  tx_bytes = 513;
  drop_rx_bytes = 3;
  drop_tx_bytes = 0;
  state = 1;
  data_bits = 8;
  parity = 0;
  stop_bits = 1;
}

abbrev ble_cap : BleCap
ble_cap = record {
  max_links = 2;
  supports_scan = 1;
  supports_connect = 1;
  supports_gatt = 0;
  scan_interval = 96;
  scan_window = 48;
}

-- The bench with the answer to a query waiting.
abbrev info_waits : State World
info_waits = waiting (report 0 0 1 (dev_info_bytes info) 8)

abbrev caps_waits : State World
caps_waits = waiting (report 0 0 2 (caps_bytes caps) 8)

abbrev port_cap_waits : State World
port_cap_waits = waiting (report 1 1 1 (port_cap_bytes port_cap) 12)

abbrev stats_waits : State World
stats_waits = waiting (report 1 1 12 (uart_stats_bytes stats) 20)

abbrev ble_cap_waits : State World
ble_cap_waits = waiting (report 16 0 1 (ble_cap_bytes ble_cap) 8)

uart_open-Exchanged_example :
    let (r, s') = uart_open bench 2 (some line) (waiting done_open) in
    Exchanged bench bench_laws
      (waiting done_open)
      opened_device
      0x01
      2
      0x01
      0x03
      (some (line_bytes line))
      8
      none
      0
      r
      s'
uart_open-Exchanged_example =
    uart_open-Exchanged bench bench_laws (waiting done_open) opened_device 2 (some line) refl
      (omega arith)

transact-transact_example :
    Manage.transact bench 0x03 none 0 none 0 (waiting done_scan)
    ≡ transact bench 0x10 0 0x01 0x03 none 0 none 0 (waiting done_scan)
transact-transact_example = transact-transact bench 0x03 none 0 none 0 (waiting done_scan)

ble_set_scan_param-Exchanged_example :
    let (r, s') = ble_set_scan_param bench scan (waiting done_scan) in
    Exchanged bench bench_laws
      (waiting done_scan)
      opened_device
      0x10
      0
      0x01
      0x02
      (some (scan_bytes scan))
      9
      none
      0
      r
      s'
ble_set_scan_param-Exchanged_example =
    ble_set_scan_param-Exchanged bench bench_laws (waiting done_scan) opened_device scan refl
      (omega arith) (omega arith) (omega arith)

sys_get_dev_info-Reported_example :
    (let (r, s') = sys_get_dev_info bench there info_waits in
      Reported bench bench_laws info_waits opened_device 0 0 0x01 8 dev_info_of r s')
    × (dev_info_of (dev_info_bytes info) ≡ info)
sys_get_dev_info-Reported_example =
    sys_get_dev_info-Reported bench bench_laws info_waits opened_device info refl

sys_get_caps-Reported_example :
    (let (r, s') = sys_get_caps bench there caps_waits in
      Reported bench bench_laws caps_waits opened_device 0 0 0x02 8 caps_of r s')
    × (caps_of (caps_bytes caps) ≡ caps)
sys_get_caps-Reported_example =
    sys_get_caps-Reported bench bench_laws caps_waits opened_device caps refl (omega arith)

uart_get_port_cap-Reported_example :
    (let (r, s') = uart_get_port_cap bench 1 there port_cap_waits in
      Reported bench bench_laws port_cap_waits opened_device 1 1 0x01 12 port_cap_of r s')
    × (port_cap_of (port_cap_bytes port_cap) ≡ port_cap)
uart_get_port_cap-Reported_example =
    uart_get_port_cap-Reported bench bench_laws port_cap_waits opened_device 1 port_cap refl
      (omega arith) (omega arith)

uart_get_stats-Reported_example :
    (let (r, s') = uart_get_stats bench 1 there stats_waits in
      Reported bench bench_laws stats_waits opened_device 1 1 0x0c 20 uart_stats_of r s')
    × (uart_stats_of (uart_stats_bytes stats) ≡ stats)
uart_get_stats-Reported_example =
    uart_get_stats-Reported bench bench_laws stats_waits opened_device 1 stats refl (omega arith)
      (omega arith) (omega arith) (omega arith)

ble_get_cap-Reported_example :
    (let (r, s') = ble_get_cap bench there ble_cap_waits in
      Reported bench bench_laws ble_cap_waits opened_device 0x10 0 0x01 8 ble_cap_of r s')
    × (ble_cap_of (ble_cap_bytes ble_cap) ≡ ble_cap)
ble_get_cap-Reported_example =
    ble_get_cap-Reported bench bench_laws ble_cap_waits opened_device ble_cap refl (omega arith)
      (omega arith)
