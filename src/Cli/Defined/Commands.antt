-- ===== src/Cli/Defined/Commands.antt =====
-- The commands on an open device.
use usbmux_tool.Base.{
  ℕ, zero, suc, ◌+◌, ◌≢◌, Option, some, List, replicate, length, take, splice, there, ltb, not,
  ◌||◌, ◌==◌, ◌!=◌,
}
use usbmux_tool.Device.Platform.{Platform, BulkLaws}
use usbmux_tool.Device.State.{State}
use usbmux_tool.Uart.Sys.{sys_get_dev_info, sys_get_caps, sys_heartbeat}
use usbmux_tool.Uart.Port.{uart_get_port_cap, uart_open, uart_close}
use usbmux_tool.Uart.Stream.{uart_write, uart_read}
use usbmux_tool.Cli.Text.{text_eq}
use usbmux_tool.Cli.Ending.{Exit, undefined}
use usbmux_tool.Cli.Ending.Running.{either_ends}
use usbmux_tool.Cli.Commands.{
  line_of, cmd_probe, cmd_heartbeat, cmd_uart_cap, cmd_uart_open, cmd_uart_close,
}
use usbmux_tool.Cli.Loopback.{
  close_and_fail, compare_echo, take_chunk, read_echo, cmd_uart_loopback,
}
use usbmux_tool.Cli.Defined.{
  IsOpen, branch_defined, sys_get_dev_info-Fine, sys_get_caps-Fine, sys_heartbeat-Fine,
  uart_get_port_cap-Fine, uart_open-Fine, uart_close-Fine, uart_write-Fine, uart_read-Fine,
}

abbrev pub Behaves : Exit → Type 0
Behaves x = x ≢ undefined

module _ (P : Platform) (L : BulkLaws P) where
  pub cmd_probe_defined : (s : State P.World) → IsOpen P s → Behaves (cmd_probe P s).exit
  unfolding cmd_probe
  cmd_probe_defined s o =
      branch_defined P (sys_get_dev_info P there s) _ _ (sys_get_dev_info-Fine P L s o)
        (λ info t p u.
          branch_defined P (sys_get_caps P there t) _ _ (sys_get_caps-Fine P L t u)
            (λ caps v q w h. cc) (λ e v w h. cc))
        (λ e t u h. cc)

  pub cmd_heartbeat_defined :
      (words : List ℕ) (s : State P.World) → IsOpen P s → Behaves (cmd_heartbeat P words s).exit
  unfolding cmd_heartbeat
  cmd_heartbeat_defined words s o =
      branch_defined P (sys_heartbeat P (some words) (length words) (some (replicate 128 0)) 128 s)
        _ _ (sys_heartbeat-Fine P L words s o) (λ r t p u h. cc) (λ e t u h. cc)

  pub cmd_uart_cap_defined :
      (port : ℕ) (s : State P.World) → IsOpen P s → Behaves (cmd_uart_cap P port s).exit
  unfolding cmd_uart_cap
  cmd_uart_cap_defined port s o =
      branch_defined P (uart_get_port_cap P port there s) _ _ (uart_get_port_cap-Fine P L port s o)
        (λ r t p u h. cc) (λ e t u h. cc)

  pub cmd_uart_open_defined :
      (port : ℕ) (baud : Option (List ℕ)) (s : State P.World)
      → IsOpen P s
      → Behaves (cmd_uart_open P port baud s).exit
  unfolding cmd_uart_open
  cmd_uart_open_defined port baud s o =
      branch_defined P (uart_open P port (some (line_of baud)) s) _ _
        (uart_open-Fine P L port (line_of baud) s o) (λ r t p u h. cc) (λ e t u h. cc)

  pub cmd_uart_close_defined :
      (port : ℕ) (s : State P.World) → IsOpen P s → Behaves (cmd_uart_close P port s).exit
  unfolding cmd_uart_close
  cmd_uart_close_defined port s o =
      branch_defined P (uart_close P port s) _ _ (uart_close-Fine P L port s o) (λ r t p u h. cc)
        (λ e t u h. cc)

  close_and_fail_defined :
      (port : ℕ) (s : State P.World) → IsOpen P s → Behaves (close_and_fail P port s).exit
  close_and_fail_defined port s o =
      branch_defined P (uart_close P port s) _ _ (uart_close-Fine P L port s o) (λ r t p u h. cc)
        (λ e t u h. cc)

  compare_echo_defined :
      (port baud : ℕ) (payload rx : List ℕ) (total : ℕ) (s : State P.World)
      → IsOpen P s
      → Behaves (compare_echo P port baud payload rx total s).exit
  unfolding compare_echo
  compare_echo_defined port baud payload rx total s o =
      branch_defined P (uart_close P port s) _ _ (uart_close-Fine P L port s o)
        (λ r t p u.
          either_ends Behaves
            (total != length payload || not (text_eq (take (length payload) rx) payload)) _ _
            (λ h q. cc) (λ h q. cc))
        (λ e t u h. cc)

  read_echo_defined :
      (fuel port baud : ℕ) (payload rx : List ℕ) (total : ℕ) (s : State P.World)
      → IsOpen P s
      → Behaves (read_echo P fuel port baud payload rx total s).exit
  unfolding read_echo take_chunk
  read_echo_defined zero port baud payload rx total s o = λ h. cc
  read_echo_defined (suc fuel) port baud payload rx total s o =
      either_ends Behaves (ltb total (length payload)) _ _
        (λ more.
          branch_defined P (uart_read P port (some (replicate 512 0)) 512 there s) _ _
            (uart_read-Fine P L port s o)
            (λ c t p u.
              either_ends Behaves (c.len == 0 || ltb 512 (total + c.len)) _ _
                (λ bad. close_and_fail_defined port t u)
                (λ good.
                  read_echo_defined fuel port baud payload (splice rx total (take c.len c.bytes))
                    (total + c.len) t u))
            (λ e t u. close_and_fail_defined port t u))
        (λ all. compare_echo_defined port baud payload rx total s o)

  pub cmd_uart_loopback_defined :
      (port : ℕ) (baud : Option (List ℕ)) (payload : List ℕ) (s : State P.World)
      → IsOpen P s
      → Behaves (cmd_uart_loopback P port baud payload s).exit
  unfolding cmd_uart_loopback
  cmd_uart_loopback_defined port baud payload s o =
      either_ends Behaves (ltb 488 (length payload)) _ _ (λ large h. cc)
        (λ small.
          branch_defined P (uart_open P port (some (line_of baud)) s) _ _
            (uart_open-Fine P L port (line_of baud) s o)
            (λ r t p u.
              branch_defined P (uart_write P port (some payload) (length payload) t) _ _
                (uart_write-Fine P L port payload t u)
                (λ done v q w.
                  read_echo_defined (suc (length payload)) port (line_of baud).baudrate payload
                    (replicate 512 0) 0 v w)
                (λ e v w. close_and_fail_defined port v w))
            (λ e t u h. cc))
