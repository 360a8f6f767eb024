-- ===== src/Cli/Commands.antt =====
-- `cmd_probe`, `cmd_heartbeat`, `cmd_uart_cap`, `cmd_uart_open`, and the closing of a port.
use usbmux_tool.Base.{
  ℕ, ◌%◌, ◌^◌, Option, none, some, List, [], ◌∷◌, replicate, length, take, there,
}
use usbmux_tool.Device.Platform.{Platform}
use usbmux_tool.Device.State.{State}
use usbmux_tool.Exchange.Accept.{Response, or_empty}
use usbmux_tool.Uart.Sys.{DevInfo, Caps, sys_get_dev_info, sys_get_caps, sys_heartbeat}
use usbmux_tool.Uart.Port.{LineCoding, PortCap, uart_get_port_cap, uart_open, uart_close}
use usbmux_tool.Cli.Text.{strtoul, number_or_zero}
use usbmux_tool.Cli.Console.{Printed, fprintf, fwrite, stdout, number, newline}
use usbmux_tool.Cli.Ending.{Outcome, return, print, branch, give_up}

abbrev pub probe_lines : DevInfo → Caps → List Printed
probe_lines info caps =
    fprintf stdout "proto=%u fw=%u.%u.%u uart_ports=%u ble_links=%u\n" (
      number info.proto_version
      ∷ number info.fw_major
      ∷ number info.fw_minor
      ∷ number info.fw_patch
      ∷ number info.uart_port_count
      ∷ number info.ble_max_links
      ∷ [])
    ∷ fprintf stdout "caps=0x%08X uart_ports=%u ble_links=%u net_reserved=%u\n" (
        number caps.caps_bitmap
        ∷ number caps.uart_port_count
        ∷ number caps.ble_max_links
        ∷ number caps.net_reserved
        ∷ [])
    ∷ []

-- What is printed of a heartbeat: the first `len` bytes of the local buffer.
abbrev pub heartbeat_lines : Response → List Printed
heartbeat_lines r =
    fprintf stdout "heartbeat response (%zu bytes): " (number r.len ∷ [])
    ∷ fwrite (take r.len (or_empty r.payload))
    ∷ newline
    ∷ []

abbrev pub port_lines : PortCap → List Printed
port_lines cap =
    fprintf stdout
      "port=%u phy_uart=%u state=%u rx_capacity=%u tx_capacity=%u line_coding=%u flush=%u\n"
      (number cap.logic_port
        ∷ number cap.phy_uart_id
        ∷ number cap.state
        ∷ number cap.rx_capacity
        ∷ number cap.tx_capacity
        ∷ number cap.supports_line_coding
        ∷ number cap.supports_flush
        ∷ [])
    ∷ []

-- 115200 8N1, or the rate that the text tells: `(uint32_t)strtoul(baud_text, NULL, 0)`
unfoldable pub line_of : Option (List ℕ) → LineCoding
line_of none = record { baudrate = 115200; data_bits = 8; parity = 0; stop_bits = 1 }
line_of (some baud_text) = record {
  baudrate = number_or_zero (strtoul baud_text) % 2 ^ 32;
  data_bits = 8;
  parity = 0;
  stop_bits = 1;
}

module _ (P : Platform) where
  unfoldable pub cmd_probe : State P.World → Outcome P.World
  cmd_probe s =
      branch (sys_get_dev_info P there s)
        (λ info t.
          branch (sys_get_caps P there t) (λ caps u. print (probe_lines info caps) (return 0 u))
            (give_up "GET_CAPS failed: %s\n"))
        (give_up "GET_DEV_INFO failed: %s\n")

  unfoldable pub cmd_heartbeat : List ℕ → State P.World → Outcome P.World
  cmd_heartbeat text s =
      branch (sys_heartbeat P (some text) (length text) (some (replicate 128 0)) 128 s)
        (λ r t. print (heartbeat_lines r) (return 0 t)) (give_up "HEARTBEAT failed: %s\n")

  unfoldable pub cmd_uart_cap : ℕ → State P.World → Outcome P.World
  cmd_uart_cap port s =
      branch (uart_get_port_cap P port there s) (λ cap t. print (port_lines cap) (return 0 t))
        (give_up "UART_GET_PORT_CAP failed: %s\n")

  unfoldable pub cmd_uart_open : ℕ → Option (List ℕ) → State P.World → Outcome P.World
  unfolding line_of
  cmd_uart_open port baud_text s =
      let line = line_of baud_text in
      branch (uart_open P port (some line) s)
        (λ r t.
          print
            (fprintf stdout "uart %u opened at %u 8N1\n" (number port ∷ number line.baudrate ∷ [])
              ∷ [])
            (return 0 t))
        (give_up "UART_OPEN failed: %s\n")

  -- The branch of `main` for uart-close.
  unfoldable pub cmd_uart_close : ℕ → State P.World → Outcome P.World
  cmd_uart_close port s =
      branch (uart_close P port s)
        (λ r t. print (fprintf stdout "uart %u closed\n" (number port ∷ []) ∷ []) (return 0 t))
        (give_up "UART_CLOSE failed: %s\n")
