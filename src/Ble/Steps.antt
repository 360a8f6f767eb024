-- ===== src/Ble/Steps.antt =====
-- Every call of userspace/src/ble.c goes along.
use usbmux_tool.Base.{ℕ, Option, none, some, List, replicate, Dest, null, there}
use usbmux_tool.Device.Platform.{Platform}
use usbmux_tool.Device.State.{Device, State, lift}
use usbmux_tool.Device.Along.{Kept, Along, Goes, Along-refl, continue-Along}
use usbmux_tool.Exchange.{read_local}
use usbmux_tool.Exchange.Steps.{lift-Goes, read_local-Goes, transact-Goes}
use usbmux_tool.Uart.Steps.{query-Along}
use usbmux_tool.Ble.Manage
use usbmux_tool.Ble.Manage.{
  ble_cap_of, ble_get_cap, ScanParam, scan_payload, ble_set_scan_param, ble_scan_start,
  ble_scan_stop,
}
use usbmux_tool.Ble.Manage.Laws.{transact-transact}
use usbmux_tool.Ble.Event.{take_event, ble_read_event, ble_read_event_on}

module _ (P : Platform) (K : Kept P) where
  ble_transact-Goes :
      (opcode : ℕ) (payload : Option (List ℕ)) (n : ℕ) (dst : Option (List ℕ)) (capacity : ℕ)
      → Goes P K (Manage.transact P opcode payload n dst capacity)
  ble_transact-Goes opcode payload n dst capacity s =
      rw (transact-transact P opcode payload n dst capacity s)
        (transact-Goes P K 0x10 0 1 opcode payload n dst capacity s)

  pub ble_get_cap-Goes : (out : Dest) → Goes P K (ble_get_cap P out)
  unfolding ble_get_cap
  ble_get_cap-Goes null s = Along-refl P K s
  ble_get_cap-Goes there s =
      rw (transact-transact P 1 none 0 (some (replicate 8 0)) 8 s)
        (query-Along P K 0x10 0 1 8 ble_cap_of s)

  pub ble_set_scan_param-Goes : (p : ScanParam) → Goes P K (ble_set_scan_param P p)
  unfolding ble_set_scan_param
  ble_set_scan_param-Goes p s = ble_transact-Goes 2 (some (scan_payload p)) 9 none 0 s

  pub ble_scan_start-Goes : Goes P K (ble_scan_start P)
  unfolding ble_scan_start
  ble_scan_start-Goes s = ble_transact-Goes 3 none 0 none 0 s

  pub ble_scan_stop-Goes : Goes P K (ble_scan_stop P)
  unfolding ble_scan_stop
  ble_scan_stop-Goes s = ble_transact-Goes 4 none 0 none 0 s

  ble_read_event_on-Along :
      (device : Option Device) (dst : Option (List ℕ)) (capacity : ℕ) (len : Dest)
      (s : State P.World)
      → Along P K s (ble_read_event_on P device dst capacity len s).1
  unfolding ble_read_event_on
  ble_read_event_on-Along (some d) dst capacity there s =
      continue-Along P K s (read_local P s) (λ f. lift (take_event f dst capacity))
        (read_local-Goes P K s) (λ f. lift-Goes P K (take_event f dst capacity))
  ble_read_event_on-Along none dst capacity len s = Along-refl P K s
  ble_read_event_on-Along (some d) dst capacity null s = Along-refl P K s

  pub ble_read_event-Goes :
      (dst : Option (List ℕ)) (capacity : ℕ) (len : Dest)
      → Goes P K (ble_read_event P dst capacity len)
  unfolding ble_read_event
  ble_read_event-Goes dst capacity len s = ble_read_event_on-Along s.device dst capacity len s
