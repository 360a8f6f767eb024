-- ===== src/Cli/Loopback/Verdict.antt =====
-- The ends of the loopback.
use usbmux_tool.Base.{
  ℕ, suc, subst, length-replicate, ◌≤◌, ◌<◌, false, Bool-cases, inl, inr, Option, some, List, [],
  replicate, length, ok, refl, sym, ◌∙◌, ◌≡◌, ◌⊎◌, ltb, arith,
}
use usbmux_tool.Device.Platform.{Platform}
use usbmux_tool.Device.State.{State}
use usbmux_tool.Exchange.Accept.{Response}
use usbmux_tool.Uart.Port.{uart_open}
use usbmux_tool.Uart.Stream.{uart_write}
use usbmux_tool.Cli.Commands.{line_of}
use usbmux_tool.Cli.Ending.{exited, undefined}
use usbmux_tool.Cli.Ending.Running.{branch_ends}
use usbmux_tool.Cli.Loopback.Ends.{Short, read_echo_ends, close_and_fail_ends}
use usbmux_tool.Cli.Loopback.{cmd_uart_loopback}
use usbmux_tool.Cli.Loopback.Echo.{
  Echoed, branch_exited, close_and_fail_fails, chosen, read_echo-Echoed,
}

module _ (P : Platform) (port : ℕ) where
  pub record Passed (baud : Option (List ℕ)) (payload : List ℕ) (s v : State P.World) : Type 0 where
    pub response : Response
    pub open_port : State P.World
    pub sent_all : State P.World
    pub within : length payload ≤ 488
    pub opened : uart_open P port (some (line_of baud)) s ≡ (ok response, open_port)
    pub written : uart_write P port (some payload) (length payload) open_port ≡ (ok tt, sent_all)
    pub echoed : Echoed P port sent_all [] payload v

  cmd_uart_loopback-Short :
      (baud : Option (List ℕ)) (payload : List ℕ) (s : State P.World)
      → ltb 488 (length payload) ≡ false
      → Short (cmd_uart_loopback P port baud payload s).exit
  unfolding cmd_uart_loopback
  cmd_uart_loopback-Short baud payload s small = rw small (
      branch_ends Short (uart_open P port (some (line_of baud)) s) _ _ (inr (inr refl))
        (λ r t.
          branch_ends Short (uart_write P port (some payload) (length payload) t) _ _
            (inr (inr refl))
            (λ done u.
              read_echo_ends P port (suc (length payload)) (line_of baud).baudrate payload
                (replicate 512 0) 0 u (omega arith) (omega arith))
            (λ e u. close_and_fail_ends P port u))
        (λ e t. inr (inl refl)))

  passed :
      (baud : Option (List ℕ)) (payload : List ℕ) (s : State P.World)
      → (cmd_uart_loopback P port baud payload s).exit ≡ exited 0
      → Passed baud payload s (cmd_uart_loopback P port baud payload s).state
  unfolding cmd_uart_loopback
  passed baud payload s p =
      let (small, here, fine) = chosen P port (ltb 488 (length payload)) _ _ p (λ q. cc) in
      let (r, t, opened, more, here₁) =
        branch_exited P port (uart_open P port (some (line_of baud)) s) _ _ 0 fine (λ e t q. cc) in
      let (done, u, written, last, here₂) =
        branch_exited P port (uart_write P port (some payload) (length payload) t) _ _ 0 more
          (λ e t. close_and_fail_fails P port t) in
      record {
        response = r;
        open_port = t;
        sent_all = u;
        within = ground arith;
        opened = opened;
        written = written;
        echoed = subst (Echoed P port u [] payload) (sym (here ∙ here₁ ∙ here₂)) (
            read_echo-Echoed P port (suc (length payload)) (line_of baud).baudrate payload
              (replicate 512 0) 0 u (length-replicate {A = ℕ} 512 0) last);
      }

  -- The loopback always ends, in one of four ways. It exits with 0, and then the device took the
  -- configuration of the port and the payload, at most 488 bytes, reads of the port succeeded one
  -- after the other and returned the bytes of the payload, no fewer and no more and in this order,
  -- and the port was closed behind them. It exits with 1, or it does what C leaves undefined. It
  -- exits with 2, and then the payload is longer than 488 bytes and nothing was done.
  pub cmd_uart_loopback_verdict :
      (baud : Option (List ℕ)) (payload : List ℕ) (s : State P.World)
      → let o = cmd_uart_loopback P port baud payload s in
        ((o.exit ≡ exited 0) × Passed baud payload s o.state)
        ⊎ (o.exit ≡ exited 1)
        ⊎ (o.exit ≡ undefined)
        ⊎ ((o.exit ≡ exited 2) × (488 < length payload) × (o.state ≡ s))
  cmd_uart_loopback_verdict baud payload s = elim (Bool-cases (ltb 488 (length payload))) [
    | inl large ↦
        inr (inr (inr (unfold cmd_uart_loopback in rw large (refl, (ground arith), refl))))
    | inr small ↦ elim (cmd_uart_loopback-Short baud payload s small) [
      | inl fine ↦ inl (fine, passed baud payload s fine)
      | inr (inl failed) ↦ inr (inl failed)
      | inr (inr wild) ↦ inr (inr (inl wild))
    ]
  ]
