-- ===== src/Cli/Loopback/Ends.antt =====
-- The loop of the loopback ends: every round takes at least one byte, so the fuel is enough.
use usbmux_tool.Base.{
  ℕ, zero, suc, ◌+◌, ◌≤◌, ◌<◌, inl, inr, some, List, replicate, length, take, splice, there, refl,
  ◌≡◌, ◌⊎◌, ◌||◌, not, ◌==◌, ◌!=◌, ltb, arith,
}
use usbmux_tool.Device.Platform.{Platform}
use usbmux_tool.Device.State.{State}
use usbmux_tool.Uart.Port.{uart_close}
use usbmux_tool.Uart.Stream.{uart_read}
use usbmux_tool.Cli.Text.{text_eq}
use usbmux_tool.Cli.Ending.{Exit, exited, undefined}
use usbmux_tool.Cli.Ending.Running.{branch_ends, either_ends}
use usbmux_tool.Cli.Loopback.{close_and_fail, compare_echo, take_chunk, read_echo}

-- The ends of a run that got as far as opening the port.
abbrev pub Short : Exit → Type 0
Short x = (x ≡ exited 0) ⊎ (x ≡ exited 1) ⊎ (x ≡ undefined)

module _ (P : Platform) (port : ℕ) where
  pub close_and_fail_ends : (s : State P.World) → Short (close_and_fail P port s).exit
  close_and_fail_ends s =
      branch_ends Short (uart_close P port s) _ _ (inr (inr refl)) (λ a t. inr (inl refl))
        (λ e t. inr (inl refl))

  compare_echo_ends :
      (baud : ℕ) (payload rx : List ℕ) (total : ℕ) (s : State P.World)
      → Short (compare_echo P port baud payload rx total s).exit
  unfolding compare_echo
  compare_echo_ends baud payload rx total s =
      branch_ends Short (uart_close P port s) _ _ (inr (inr refl))
        (λ r t.
          either_ends Short
            (total != length payload || not (text_eq (take (length payload) rx) payload)) _ _
            (λ h. inr (inl refl)) (λ h. inl refl))
        (λ e t. inr (inl refl))

  pub read_echo_ends :
      (fuel baud : ℕ) (payload rx : List ℕ) (total : ℕ) (s : State P.World)
      → 1 ≤ fuel
      → length payload < total + fuel
      → Short (read_echo P fuel port baud payload rx total s).exit
  unfolding read_echo take_chunk
  read_echo_ends zero baud payload rx total s some_fuel enough = absurd (omega arith)
  read_echo_ends (suc fuel) baud payload rx total s some_fuel enough =
      either_ends Short (ltb total (length payload)) _ _
        (λ more.
          branch_ends Short (uart_read P port (some (replicate 512 0)) 512 there s) _ _
            (inr (inr refl))
            (λ c t.
              either_ends Short (c.len == 0 || ltb 512 (total + c.len)) _ _
                (λ bad. close_and_fail_ends t)
                (λ good.
                  read_echo_ends fuel baud payload (splice rx total (take c.len c.bytes))
                    (total + c.len) t (ground arith) (ground arith)))
            (λ e t. close_and_fail_ends t))
        (λ all. compare_echo_ends baud payload rx total s)
