-- ===== src/Cli/Steps.antt =====
-- Every command of the tool goes along: of the world it changes what bulk transfers and the clock
-- change, of the device the sequence number.
use usbmux_tool.Base.{ℕ, Option, some, List, replicate, length, Ret, Code, ok, err, fault, there}
use usbmux_tool.Device.Platform.{Platform}
use usbmux_tool.Device.State.{State}
use usbmux_tool.Device.Along.{Kept, Along, Along-refl, Along-trans}
use usbmux_tool.Uart.Sys.{sys_get_dev_info, sys_get_caps, sys_heartbeat}
use usbmux_tool.Uart.Port.{uart_get_port_cap, uart_open, uart_close}
use usbmux_tool.Uart.Steps.{
  sys_get_dev_info-Goes, sys_get_caps-Goes, sys_heartbeat-Goes, uart_get_port_cap-Goes,
  uart_open-Goes, uart_close-Goes,
}
use usbmux_tool.Cli.Ending.{Outcome, branch}
use usbmux_tool.Cli.Commands.{
  line_of, cmd_probe, cmd_heartbeat, cmd_uart_cap, cmd_uart_open, cmd_uart_close,
}

module _ (P : Platform) (K : Kept P) where
  abbrev pub Leads : State P.World → Outcome P.World → Type 0
  Leads s o = Along P K s o.state

  pub branch-Leads :
      {A : Type 0} (s : State P.World) (r : Ret A × State P.World)
      (next : A → State P.World → Outcome P.World) (failed : Code → State P.World → Outcome P.World)
      → Along P K s r.1
      → ((a : A) (t : State P.World) → Leads t (next a t))
      → ((e : Code) (t : State P.World) → Leads t (failed e t))
      → Leads s (branch r next failed)
  unfolding branch
  branch-Leads s (ok a, t) next failed first on_ok on_err =
      Along-trans P K s t (next a t).state first (on_ok a t)
  branch-Leads s (err e, t) next failed first on_ok on_err =
      Along-trans P K s t (failed e t).state first (on_err e t)
  branch-Leads s (fault, t) next failed first on_ok on_err = first

  -- What is left to do returns at once.
  pub stays : {A : Type 0} (a : A) (t : State P.World) → Along P K t t
  stays a t = Along-refl P K t

  pub cmd_probe-Leads : (s : State P.World) → Leads s (cmd_probe P s)
  unfolding cmd_probe
  cmd_probe-Leads s =
      branch-Leads s (sys_get_dev_info P there s) _ _ (sys_get_dev_info-Goes P K there s)
        (λ info t.
          branch-Leads t (sys_get_caps P there t) _ _ (sys_get_caps-Goes P K there t) stays stays)
        stays

  pub cmd_heartbeat-Leads : (words : List ℕ) (s : State P.World) → Leads s (cmd_heartbeat P words s)
  unfolding cmd_heartbeat
  cmd_heartbeat-Leads words s =
      branch-Leads s (sys_heartbeat P (some words) (length words) (some (replicate 128 0)) 128 s) _
        _ (sys_heartbeat-Goes P K (some words) (length words) (some (replicate 128 0)) 128 s) stays
        stays

  pub cmd_uart_cap-Leads : (port : ℕ) (s : State P.World) → Leads s (cmd_uart_cap P port s)
  unfolding cmd_uart_cap
  cmd_uart_cap-Leads port s =
      branch-Leads s (uart_get_port_cap P port there s) _ _
        (uart_get_port_cap-Goes P K port there s) stays stays

  pub cmd_uart_open-Leads :
      (port : ℕ) (baud : Option (List ℕ)) (s : State P.World)
      → Leads s (cmd_uart_open P port baud s)
  unfolding cmd_uart_open
  cmd_uart_open-Leads port baud s =
      branch-Leads s (uart_open P port (some (line_of baud)) s) _ _
        (uart_open-Goes P K port (some (line_of baud)) s) stays stays

  pub cmd_uart_close-Leads : (port : ℕ) (s : State P.World) → Leads s (cmd_uart_close P port s)
  unfolding cmd_uart_close
  cmd_uart_close-Leads port s =
      branch-Leads s (uart_close P port s) _ _ (uart_close-Goes P K port s) stays stays
