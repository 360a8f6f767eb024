-- ===== src/Cli/Loopback.antt =====
-- `cmd_uart_loopback`: what is sent on a port that is wired to itself comes back.
pub mod Steps
pub mod Reads
pub mod Echo
pub mod Verdict
pub mod Ends
use usbmux_tool.Base.{
  ℕ, zero, suc, ◌+◌, Option, none, some, List, [], ◌∷◌, ◌++◌, not, ◌||◌, replicate, length, take,
  splice, there, ltb, leb, ◌==◌, ◌!=◌, if◌then◌else◌,
}
use usbmux_tool.Proto.Header.{max_frame_len, max_payload}
use usbmux_tool.Device.Platform.{Platform}
use usbmux_tool.Device.State.{State}
use usbmux_tool.Uart.Port.{LineCoding, uart_open, uart_close}
use usbmux_tool.Uart.Stream.{Taken, uart_write, uart_read}
use usbmux_tool.Cli.Text.{text_eq}
use usbmux_tool.Cli.Console.{Printed, fprintf, stdout, stderr, number, name, dump_hex}
use usbmux_tool.Cli.Ending.{Outcome, return, print, branch, give_up, code_name, running}
use usbmux_tool.Cli.Commands.{line_of}

abbrev out_of_fuel : {W : Type 0} → State W → Outcome W
out_of_fuel s = record { exit = running; shown = []; state = s }

module _ (P : Platform) where
  -- `(void)ch32mux_uart_close(device, port); return 1;`
  abbrev pub close_and_fail : ℕ → State P.World → Outcome P.World
  close_and_fail port s = branch (uart_close P port s) (λ r. return 1) (λ e. return 1)

  -- From the printing of the totals on.
  unfoldable pub compare_echo : ℕ → ℕ → List ℕ → List ℕ → ℕ → State P.World → Outcome P.World
  compare_echo port baudrate payload rx rx_total s =
      print
        (fprintf stdout "uart %u loopback baud=%u tx=%zu rx=%zu\n"
            (number port ∷ number baudrate ∷ number (length payload) ∷ number rx_total ∷ [])
          ∷ (dump_hex "TX" payload ++ dump_hex "RX" (take rx_total rx)))
        (branch (uart_close P port s)
          (λ r t.
            if rx_total != length payload || not (text_eq (take (length payload) rx) payload)
            then print (fprintf stderr "loopback mismatch\n" [] ∷ []) (return 1 t)
            else print (fprintf stdout "loopback ok\n" [] ∷ []) (return 0 t))
          (give_up "UART_CLOSE failed: %s\n"))

  -- What follows a chunk that was read: too small, too large, or copied behind the others.
  unfoldable pub take_chunk :
      ℕ
      → ℕ
      → List ℕ
      → ℕ
      → Taken
      → (List ℕ → ℕ → State P.World → Outcome P.World)
      → State P.World
      → Outcome P.World
  take_chunk port payload_len rx rx_total chunk again s =
      if chunk.len == 0 || ltb max_frame_len (rx_total + chunk.len)
      then print
          (fprintf stderr "UART_READ invalid chunk len=%zu after %zu/%zu bytes\n"
              (number chunk.len ∷ number rx_total ∷ number payload_len ∷ [])
            ∷ [])
          (close_and_fail port s)
      else again (splice rx rx_total (take chunk.len chunk.bytes)) (rx_total + chunk.len) s

  -- The loop on fuel.
  unfoldable pub read_echo : ℕ → ℕ → ℕ → List ℕ → List ℕ → ℕ → State P.World → Outcome P.World
  unfolding take_chunk compare_echo
  read_echo zero port baudrate payload rx rx_total s = out_of_fuel s
  read_echo (suc fuel) port baudrate payload rx rx_total s =
      let again = λ (next : List ℕ) (total : ℕ) (t : State P.World).
        read_echo fuel port baudrate payload next total t in
      if ltb rx_total (length payload)
      then branch (uart_read P port (some (replicate max_frame_len 0)) max_frame_len there s)
          (λ chunk t. take_chunk port (length payload) rx rx_total chunk again t)
          (λ e t.
            print
              (fprintf stderr "UART_READ failed after %zu/%zu bytes: %s\n"
                  (number rx_total ∷ number (length payload) ∷ name (code_name e) ∷ [])
                ∷ [])
              (close_and_fail port t))
      else compare_echo port baudrate payload rx rx_total s

  unfoldable pub cmd_uart_loopback : ℕ → Option (List ℕ) → List ℕ → State P.World → Outcome P.World
  unfolding read_echo line_of
  cmd_uart_loopback port baud_text payload s =
      let line = line_of baud_text in
      if ltb max_payload (length payload)
      then print (fprintf stderr "payload too large: %zu\n" (number (length payload) ∷ []) ∷ [])
          (return 2 s)
      else branch (uart_open P port (some line) s)
          (λ r t.
            branch (uart_write P port (some payload) (length payload) t)
              (λ done u.
                read_echo (suc (length payload)) port line.baudrate payload
                  (replicate max_frame_len 0) 0 u)
              (λ e u.
                print (fprintf stderr "UART_WRITE failed: %s\n" (name (code_name e) ∷ []) ∷ [])
                  (close_and_fail port u)))
          (give_up "UART_OPEN failed: %s\n")
