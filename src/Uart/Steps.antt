-- ===== src/Uart/Steps.antt =====
-- Every call of userspace/src/uart.c goes along.
use usbmux_tool.Base.{
  ℕ, Option, none, some, List, replicate, Dest, null, there, Bool-cases, inl, inr, ◌&&◌, ◌!=◌,
}
use usbmux_tool.Proto.Codec.{is_null}
use usbmux_tool.Device.Platform.{Platform}
use usbmux_tool.Device.State.{Device, State, continue, lift, next_seq}
use usbmux_tool.Device.Along.{
  Kept, Along, Goes, Along-refl, Along-trans, continue-Along, next_seq-Along,
}
use usbmux_tool.Exchange.{read_local, request, transact}
use usbmux_tool.Exchange.Accept.{fields_of}
use usbmux_tool.Exchange.Steps.{lift-Goes, read_local-Goes, send_frame-Goes, transact-Goes}
use usbmux_tool.Uart.Sys.{dev_info_of, caps_of, sys_get_dev_info, sys_get_caps, sys_heartbeat}
use usbmux_tool.Uart.Port.{
  LineCoding, line_or_default, open_payload, port_cap_of, uart_get_port_cap, uart_open, uart_close,
}
use usbmux_tool.Uart.Stream.{take_data, uart_write, uart_write_on, uart_read, uart_read_on}

module _ (P : Platform) (K : Kept P) where
  -- A query: an exchange, and the fields of its answer.
  pub query-Along :
      {A : Type 0} (ch_type ch_id opcode size : ℕ) (parse : List ℕ → A) (s : State P.World)
      → let r = transact P ch_type ch_id 1 opcode none 0 (some (replicate size 0)) size s in
        Along P K s (continue r.0 (λ a. lift (fields_of size parse a)) r.1).1
  query-Along ch_type ch_id opcode size parse s =
      continue-Along P K s
        (transact P ch_type ch_id 1 opcode none 0 (some (replicate size 0)) size s)
        (λ a. lift (fields_of size parse a))
        (transact-Goes P K ch_type ch_id 1 opcode none 0 (some (replicate size 0)) size s)
        (λ a. lift-Goes P K (fields_of size parse a))

  pub sys_get_dev_info-Goes : (out : Dest) → Goes P K (sys_get_dev_info P out)
  unfolding sys_get_dev_info
  sys_get_dev_info-Goes null s = Along-refl P K s
  sys_get_dev_info-Goes there s = query-Along 0 0 1 8 dev_info_of s

  pub sys_get_caps-Goes : (out : Dest) → Goes P K (sys_get_caps P out)
  unfolding sys_get_caps
  sys_get_caps-Goes null s = Along-refl P K s
  sys_get_caps-Goes there s = query-Along 0 0 2 8 caps_of s

  pub sys_heartbeat-Goes :
      (payload : Option (List ℕ)) (n : ℕ) (dst : Option (List ℕ)) (capacity : ℕ)
      → Goes P K (sys_heartbeat P payload n dst capacity)
  unfolding sys_heartbeat
  sys_heartbeat-Goes payload n dst capacity s = transact-Goes P K 0 0 1 7 payload n dst capacity s

  pub uart_get_port_cap-Goes : (port : ℕ) (out : Dest) → Goes P K (uart_get_port_cap P port out)
  unfolding uart_get_port_cap
  uart_get_port_cap-Goes port null s = Along-refl P K s
  uart_get_port_cap-Goes port there s = query-Along 1 port 1 12 port_cap_of s

  pub uart_open-Goes : (port : ℕ) (line : Option LineCoding) → Goes P K (uart_open P port line)
  unfolding uart_open
  uart_open-Goes port line s =
      transact-Goes P K 1 port 1 3 (some (open_payload (line_or_default line))) 8 none 0 s

  pub uart_close-Goes : (port : ℕ) → Goes P K (uart_close P port)
  unfolding uart_close
  uart_close-Goes port s = transact-Goes P K 1 port 1 4 none 0 none 0 s

  uart_write_on-Along :
      (device : Option Device) (port : ℕ) (bytes : Option (List ℕ)) (n : ℕ) (s : State P.World)
      → Along P K s (uart_write_on P device port bytes n s).1
  unfolding uart_write_on
  uart_write_on-Along none port bytes n s = Along-refl P K s
  uart_write_on-Along (some d) port bytes n s = elim (Bool-cases (is_null bytes && n != 0)) [
    | inl missing ↦ rw missing (Along-refl P K s)
    | inr given ↦
        let (seq, t) = next_seq s in
        rw given (
          Along-trans P K s t _ (next_seq-Along P K s)
            (send_frame-Goes P K (request P seq 2 port 4 0) bytes n t))
  ]

  pub uart_write-Goes :
      (port : ℕ) (bytes : Option (List ℕ)) (n : ℕ) → Goes P K (uart_write P port bytes n)
  unfolding uart_write
  uart_write-Goes port bytes n s = uart_write_on-Along s.device port bytes n s

  uart_read_on-Along :
      (device : Option Device) (port : ℕ) (dst : Option (List ℕ)) (capacity : ℕ) (len : Dest)
      (s : State P.World)
      → Along P K s (uart_read_on P device port dst capacity len s).1
  unfolding uart_read_on
  uart_read_on-Along (some d) port (some dst) capacity there s =
      continue-Along P K s (read_local P s) (λ f. lift (take_data f port dst capacity))
        (read_local-Goes P K s) (λ f. lift-Goes P K (take_data f port dst capacity))
  uart_read_on-Along none port dst capacity len s = Along-refl P K s
  uart_read_on-Along (some d) port none capacity len s = Along-refl P K s
  uart_read_on-Along (some d) port (some dst) capacity null s = Along-refl P K s

  pub uart_read-Goes :
      (port : ℕ) (dst : Option (List ℕ)) (capacity : ℕ) (len : Dest)
      → Goes P K (uart_read P port dst capacity len)
  unfolding uart_read
  uart_read-Goes port dst capacity len s = uart_read_on-Along s.device port dst capacity len s
