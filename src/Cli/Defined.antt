-- ===== src/Cli/Defined.antt =====
-- The driver's calls on an open device, as the tool makes them: none of them makes an access out of
-- bounds, and the device stays open.
pub mod Commands
pub mod Scan
pub mod Debug
pub mod Run
use usbmux_tool.Base.{
  ℕ, ◌+◌, ◌≤◌, ◌<◌, ◌≡◌, ◌≢◌, refl, sym, ap, ◌∙◌, subst, Bool, true, false, Bool-cases, inl, inr,
  Option, none, some, List, [], ◌∷◌, replicate, length, take, drop, splice, length-splice,
  length-take, length-replicate, Ret, Code, Done, ok, err, fault, there, ltb, leb, leb-true, ◌!=◌,
  if◌then◌else◌, arith,
}
use usbmux_tool.Device.Platform.{Platform, BulkLaws}
use usbmux_tool.Device.State.{Device, State, bump}
use usbmux_tool.Proto.Words.{write_le16, write_le32}
use usbmux_tool.Proto.Codec.Frame.{Holds}
use usbmux_tool.Exchange.{transact}
use usbmux_tool.Exchange.Accept.{Response, or_empty}
use usbmux_tool.Exchange.Payload.{filled}
use usbmux_tool.Exchange.Laws.{Exchanged, transact-Exchanged}
use usbmux_tool.Exchange.Query.{Reported}
use usbmux_tool.Uart.Sys.{sys_get_dev_info, sys_get_caps, sys_heartbeat}
use usbmux_tool.Uart.Sys.Laws.{sys_get_dev_info_answer, sys_get_caps_answer}
use usbmux_tool.Uart.Port.{
  LineCoding, open_payload, line_or_default, uart_get_port_cap, uart_open, uart_close,
}
use usbmux_tool.Uart.Port.Queries.{uart_get_port_cap_answer}
use usbmux_tool.Uart.Stream.{uart_write, uart_read}
use usbmux_tool.Uart.Stream.Laws.{uart_write-Delivered, uart_read-DataRead}
use usbmux_tool.Ble.Manage.{
  ScanParam, scan_payload, ble_get_cap, ble_set_scan_param, ble_scan_start, ble_scan_stop,
}
use usbmux_tool.Ble.Manage.Laws.{transact-transact, ble_get_cap_answer}
use usbmux_tool.Ble.Event.{ble_read_event}
use usbmux_tool.Ble.Event.Laws.{EventRead, ble_read_event-EventRead}
use usbmux_tool.Ble.Scan.{parse_scan_result}
use usbmux_tool.Cli.Ending.{Exit, Outcome, undefined, branch}

module _ (P : Platform) where
  abbrev pub IsOpen : State P.World → Type 0
  IsOpen s = (d : Device) × (s.device ≡ some d)

  -- A call that went well or failed, on a device that is still open.
  pub record Fine {A : Type 0} (r : Ret A × State P.World) : Type 0 where
    pub defined : r.0 ≢ fault
    pub still : IsOpen r.1

  pub branch_defined :
      {A : Type 0} (r : Ret A × State P.World) (next : A → State P.World → Outcome P.World)
      (failed : Code → State P.World → Outcome P.World)
      → Fine r
      → ((a : A) (t : State P.World) → r ≡ (ok a, t) → IsOpen t → (next a t).exit ≢ undefined)
      → ((e : Code) (t : State P.World) → IsOpen t → (failed e t).exit ≢ undefined)
      → (branch r next failed).exit ≢ undefined
  unfolding branch
  branch_defined (ok a, t) next failed f g h = g a t refl f.still
  branch_defined (err e, t) next failed f g h = h e t f.still
  branch_defined (fault, t) next failed f g h = absurd (f.defined refl)

module _ (P : Platform) (L : BulkLaws P) where
  exchange-Fine :
      (s : State P.World) (ch_type ch_id msg_type opcode : ℕ) (payload : Option (List ℕ)) (n : ℕ)
      (dst : Option (List ℕ)) (capacity : ℕ)
      → IsOpen P s
      → Holds payload n
      → Holds dst capacity
      → Fine P (transact P ch_type ch_id msg_type opcode payload n dst capacity s)
  exchange-Fine s ch_type ch_id msg_type opcode payload n dst capacity (d, opened) out into =
      let e =
        transact-Exchanged P L s d ch_type ch_id msg_type opcode payload n dst capacity opened out
          into in
      record { defined = e.defined; still = (bump d, e.device) }

  Reported-Fine :
      {A : Type 0} (s : State P.World) (d : Device) (ch_type ch_id opcode size : ℕ)
      (parse : List ℕ → A) (r : Ret A × State P.World)
      → Reported P L s d ch_type ch_id opcode size parse r.0 r.1
      → Fine P r
  Reported-Fine s d ch_type ch_id opcode size parse r e = record {
    defined = e.defined;
    still = (bump d, e.device);
  }

  pub sys_get_dev_info-Fine : (s : State P.World) → IsOpen P s → Fine P (sys_get_dev_info P there s)
  sys_get_dev_info-Fine s (d, opened) =
      Reported-Fine s d _ _ _ _ _ (sys_get_dev_info P there s)
        (sys_get_dev_info_answer P L s d opened)

  pub sys_get_caps-Fine : (s : State P.World) → IsOpen P s → Fine P (sys_get_caps P there s)
  sys_get_caps-Fine s (d, opened) =
      Reported-Fine s d _ _ _ _ _ (sys_get_caps P there s) (sys_get_caps_answer P L s d opened)

  pub sys_heartbeat-Fine :
      (words : List ℕ) (s : State P.World)
      → IsOpen P s
      → Fine P (sys_heartbeat P (some words) (length words) (some (replicate 128 0)) 128 s)
  unfolding sys_heartbeat
  sys_heartbeat-Fine words s o =
      exchange-Fine s 0 0 1 7 (some words) (length words) (some (replicate 128 0)) 128 o
        (omega arith) (omega (arith, length-replicate {A = ℕ} 128 0))

  pub uart_get_port_cap-Fine :
      (port : ℕ) (s : State P.World) → IsOpen P s → Fine P (uart_get_port_cap P port there s)
  uart_get_port_cap-Fine port s (d, opened) =
      Reported-Fine s d _ _ _ _ _ (uart_get_port_cap P port there s)
        (uart_get_port_cap_answer P L s d port opened)

  pub uart_open-Fine :
      (port : ℕ) (line : LineCoding) (s : State P.World)
      → IsOpen P s
      → Fine P (uart_open P port (some line) s)
  unfolding uart_open open_payload write_le32
  uart_open-Fine port line s o =
      exchange-Fine s 1 port 1 3 (some (open_payload line)) 8 none 0 o (omega arith) tt

  pub uart_close-Fine : (port : ℕ) (s : State P.World) → IsOpen P s → Fine P (uart_close P port s)
  unfolding uart_close
  uart_close-Fine port s o = exchange-Fine s 1 port 1 4 none 0 none 0 o tt tt

  pub uart_write-Fine :
      (port : ℕ) (payload : List ℕ) (s : State P.World)
      → IsOpen P s
      → Fine P (uart_write P port (some payload) (length payload) s)
  uart_write-Fine port payload s (d, opened) =
      let e =
        uart_write-Delivered P L s d port (some payload) (length payload) opened (omega arith)
          refl in
      record { defined = e.defined; still = (bump d, e.device) }

  pub uart_read-Fine :
      (port : ℕ) (s : State P.World)
      → IsOpen P s
      → Fine P (uart_read P port (some (replicate 512 0)) 512 there s)
  uart_read-Fine port s (d, opened) =
      let e =
        uart_read-DataRead P L s d port (replicate 512 0) 512 opened
          (omega (arith, length-replicate {A = ℕ} 512 0)) in
      record { defined = e.defined; still = (d, e.device ∙ opened) }

  pub ble_get_cap-Fine : (s : State P.World) → IsOpen P s → Fine P (ble_get_cap P there s)
  ble_get_cap-Fine s (d, opened) =
      Reported-Fine s d _ _ _ _ _ (ble_get_cap P there s) (ble_get_cap_answer P L s d opened)

  pub ble_set_scan_param-Fine :
      (p : ScanParam) (s : State P.World) → IsOpen P s → Fine P (ble_set_scan_param P p s)
  unfolding ble_set_scan_param scan_payload write_le16
  ble_set_scan_param-Fine p s o =
      rw (transact-transact P 2 (some (scan_payload p)) 9 none 0 s)
        (exchange-Fine s 16 0 1 2 (some (scan_payload p)) 9 none 0 o (omega arith) tt)

  pub ble_scan_start-Fine : (s : State P.World) → IsOpen P s → Fine P (ble_scan_start P s)
  unfolding ble_scan_start
  ble_scan_start-Fine s o =
      rw (transact-transact P 3 none 0 none 0 s) (exchange-Fine s 16 0 1 3 none 0 none 0 o tt tt)

  pub ble_scan_stop-Fine : (s : State P.World) → IsOpen P s → Fine P (ble_scan_stop P s)
  unfolding ble_scan_stop
  ble_scan_stop-Fine s o =
      rw (transact-transact P 4 none 0 none 0 s) (exchange-Fine s 16 0 1 4 none 0 none 0 o tt tt)

  pub ble_read_event-Fine :
      (s : State P.World)
      → IsOpen P s
      → Fine P (ble_read_event P (some (replicate 512 0)) 512 there s)
  ble_read_event-Fine s (d, opened) =
      let e =
        ble_read_event-EventRead P L s d (some (replicate 512 0)) 512 opened
          (omega (arith, length-replicate {A = ℕ} 512 0)) in
      record { defined = e.defined; still = (d, e.device ∙ opened) }

  -- What was read fits the buffer that it was read into.
  pub event_room :
      (s t : State P.World) (e : Response)
      → IsOpen P s
      → ble_read_event P (some (replicate 512 0)) 512 there s ≡ (ok e, t)
      → length (or_empty e.payload) ≡ 512
  event_room s t e (d, opened) came =
      let read =
        ble_read_event-EventRead P L s d (some (replicate 512 0)) 512 opened
          (omega (arith, length-replicate {A = ℕ} 512 0)) in
      let (bytes, count, frame_len, stream, whole, event) =
        read.event e (ap (λ (x : Ret Response × State P.World). x.0) came) in
      ap (λ (o : Option (List ℕ)). length (or_empty o)) event.filled_with
      ∙ room bytes e.len event.within
    where
      room :
          (bytes : List ℕ) (n : ℕ)
          → n ≤ 512
          → length (or_empty (filled (some (replicate 512 0)) bytes n)) ≡ 512
      room bytes n small = elim (Bool-cases (n != 0)) [
        | inr empty ↦ rw empty (length-replicate {A = ℕ} 512 0)
        | inl some_bytes ↦ rw some_bytes (
            length-splice (replicate 512 0) (take n (drop 24 bytes)) 0
              (omega (arith, length-take n (drop 24 bytes), length-replicate {A = ℕ} 512 0))
            ∙ length-replicate {A = ℕ} 512 0)
      ]

pub parse_scan_result-defined :
    (payload : List ℕ) (n : ℕ)
    → length payload ≡ 512
    → parse_scan_result (some payload) n there ≢ fault
unfolding parse_scan_result
parse_scan_result-defined payload n full = elim (Bool-cases (ltb n 16)) [
  | inl short ↦ rw short (λ h. cc)
  | inr long ↦ rw long (rw (leb-true 16 (length payload) (omega (arith, full))) (λ h. cc))
]
