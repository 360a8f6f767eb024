-- ===== src/Cli/Loopback/Steps.antt =====
-- The loopback goes along.
use usbmux_tool.Base.{
  ℕ, zero, suc, ◌+◌, Bool-cases, inl, inr, Option, some, List, [], ◌∷◌, replicate, length, take,
  not, ltb, there, ◌||◌, ◌==◌, ◌!=◌, if◌then◌else◌,
}
use usbmux_tool.Device.Platform.{Platform}
use usbmux_tool.Device.State.{State}
use usbmux_tool.Device.Along.{Kept, Along-refl}
use usbmux_tool.Exchange.Accept.{Response}
use usbmux_tool.Uart.Port.{uart_open, uart_close}
use usbmux_tool.Uart.Stream.{Taken, uart_write, uart_read}
use usbmux_tool.Uart.Steps.{uart_open-Goes, uart_close-Goes, uart_write-Goes, uart_read-Goes}
use usbmux_tool.Cli.Text.{text_eq}
use usbmux_tool.Cli.Console.{fprintf, stdout, stderr}
use usbmux_tool.Cli.Ending.{Outcome, return, print}
use usbmux_tool.Cli.Commands.{line_of}
use usbmux_tool.Cli.Loopback.{
  close_and_fail, compare_echo, take_chunk, read_echo, cmd_uart_loopback,
}
use usbmux_tool.Cli.Steps.{Leads, branch-Leads, stays}

module _ (P : Platform) (K : Kept P) where
  close_and_fail-Leads : (port : ℕ) (s : State P.World) → Leads P K s (close_and_fail P port s)
  close_and_fail-Leads port s =
      branch-Leads P K s (uart_close P port s) _ _ (uart_close-Goes P K port s) (stays P K)
        (stays P K)

  compare_echo-Leads :
      (port baud : ℕ) (payload rx : List ℕ) (total : ℕ) (s : State P.World)
      → Leads P K s (compare_echo P port baud payload rx total s)
  unfolding compare_echo
  compare_echo-Leads port baud payload rx total s =
      branch-Leads P K s (uart_close P port s) _ _ (uart_close-Goes P K port s) verdict (stays P K)
    where
      verdict :
          (r : Response) (t : State P.World)
          → Leads P K t (
              if total != length payload || not (text_eq (take (length payload) rx) payload)
              then print (fprintf stderr "loopback mismatch\n" [] ∷ []) (return 1 t)
              else print (fprintf stdout "loopback ok\n" [] ∷ []) (return 0 t))
      verdict r t =
          elim (Bool-cases
            (total != length payload || not (text_eq (take (length payload) rx) payload))) [
              | inl differ ↦ rw differ (Along-refl P K t)
              | inr alike ↦ rw alike (Along-refl P K t)
            ]

  take_chunk-Leads :
      (port n : ℕ) (rx : List ℕ) (total : ℕ) (chunk : Taken)
      (again : List ℕ → ℕ → State P.World → Outcome P.World) (s : State P.World)
      → ((next : List ℕ) (m : ℕ) (t : State P.World) → Leads P K t (again next m t))
      → Leads P K s (take_chunk P port n rx total chunk again s)
  unfolding take_chunk
  take_chunk-Leads port n rx total chunk again s rest =
      elim (Bool-cases (chunk.len == 0 || ltb 512 (total + chunk.len))) [
        | inl wrong ↦ rw wrong (close_and_fail-Leads port s)
        | inr right ↦ rw right (rest _ _ s)
      ]

  read_echo-Leads :
      (fuel port baud : ℕ) (payload rx : List ℕ) (total : ℕ) (s : State P.World)
      → Leads P K s (read_echo P fuel port baud payload rx total s)
  unfolding read_echo
  read_echo-Leads zero port baud payload rx total s = Along-refl P K s
  read_echo-Leads (suc fuel) port baud payload rx total s =
      elim (Bool-cases (ltb total (length payload))) [
        | inr all ↦ rw all (compare_echo-Leads port baud payload rx total s)
        | inl more ↦ rw more (
            branch-Leads P K s (uart_read P port (some (replicate 512 0)) 512 there s) _ _
              (uart_read-Goes P K port (some (replicate 512 0)) 512 there s)
              (λ chunk t.
                take_chunk-Leads port (length payload) rx total chunk
                  (λ next m u. read_echo P fuel port baud payload next m u) t
                  (λ next m u. read_echo-Leads fuel port baud payload next m u))
              (λ e t. close_and_fail-Leads port t))
      ]

  pub cmd_uart_loopback-Leads :
      (port : ℕ) (baud : Option (List ℕ)) (payload : List ℕ) (s : State P.World)
      → Leads P K s (cmd_uart_loopback P port baud payload s)
  unfolding cmd_uart_loopback
  cmd_uart_loopback-Leads port baud payload s = elim (Bool-cases (ltb 488 (length payload))) [
    | inl large ↦ rw large (Along-refl P K s)
    | inr small ↦ rw small (
        branch-Leads P K s (uart_open P port (some (line_of baud)) s) _ _
          (uart_open-Goes P K port (some (line_of baud)) s)
          (λ r t.
            branch-Leads P K t (uart_write P port (some payload) (length payload) t) _ _
              (uart_write-Goes P K port (some payload) (length payload) t)
              (λ done u.
                read_echo-Leads (suc (length payload)) port (line_of baud).baudrate payload
                  (replicate 512 0) 0 u)
              (λ e u. close_and_fail-Leads port u))
          (stays P K))
  ]
