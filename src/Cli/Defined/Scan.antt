-- ===== src/Cli/Defined/Scan.antt =====
-- The scan on an open device, while the end of the scan is a time that the clock can tell.
use usbmux_tool.Base.{
  ℕ, zero, suc, ◌+◌, ◌^◌, ◌<◌, ◌≡◌, ◌≢◌, refl, Bool, true, false, Option, none, some, List,
  replicate, length, ℤ, pos, int_lt, Ret, ok, err, fault, there, ltb-true, subst, ap, ◌&&◌, ◌==◌,
  if◌then◌else◌, arith,
}
use usbmux_tool.Device.Platform.{Platform, BulkLaws}
use usbmux_tool.Device.State.{State}
use usbmux_tool.Device.Along.{Kept, Along, Transfers, transfers_kept}
use usbmux_tool.Exchange.Accept.{Response, or_empty}
use usbmux_tool.Ble.Manage.{ble_get_cap, ble_set_scan_param, ble_scan_start, ble_scan_stop}
use usbmux_tool.Ble.Event.{ble_read_event}
use usbmux_tool.Ble.Steps.{ble_get_cap-Goes, ble_set_scan_param-Goes, ble_scan_start-Goes}
use usbmux_tool.Ble.Scan.{ScanResult, parse_scan_result}
use usbmux_tool.Cli.Console.{Printed}
use usbmux_tool.Cli.Ending.{Outcome}
use usbmux_tool.Cli.Ending.Running.{either_ends}
use usbmux_tool.Cli.Scan.{
  Clock, is_timeout, param_of, count_report, show_event, event_lines, go_on, scan_stop, scan_round,
  scan_loop, scan_until, scan_seconds, end_time, cmd_ble_scan,
}
use usbmux_tool.Cli.Defined.{
  IsOpen, branch_defined, ble_get_cap-Fine, ble_set_scan_param-Fine, ble_scan_start-Fine,
  ble_scan_stop-Fine, ble_read_event-Fine, event_room, parse_scan_result-defined,
}
use usbmux_tool.Cli.Defined.Commands.{Behaves}

module _ (P : Platform) (L : BulkLaws P) (C : Clock P) where
  show_event_defined :
      (e : Response) (n : ℕ) → length (or_empty e.payload) ≡ 512 → show_event e n ≢ none
  unfolding show_event count_report
  show_event_defined e n full =
      go (e.header.ch_type == 16 && e.header.ch_id == 0 && e.header.opcode == 128)
    where
      counted : (r : Ret ScanResult) → r ≢ fault → count_report r n ≢ none
      counted (ok r) h = λ q. cc
      counted (err x) h = λ q. cc
      counted fault h = absurd (h refl)

      go :
          (b : Bool)
          → (if b
              then count_report (parse_scan_result (some (or_empty e.payload)) e.len there) n
              else some (event_lines e.header e.len, n))
            ≢ none
      go true =
          counted (parse_scan_result (some (or_empty e.payload)) e.len there)
            (parse_scan_result-defined (or_empty e.payload) e.len full)
      go false = λ q. cc

  go_on_defined :
      (o : Option (List Printed × ℕ)) (again : ℕ → State P.World → Outcome P.World)
      (s : State P.World)
      → o ≢ none
      → ((n : ℕ) → Behaves (again n s).exit)
      → Behaves (go_on P C o again s).exit
  go_on_defined none again s h g = absurd (h refl)
  go_on_defined (some (lines, n)) again s h g = g n

  scan_stop_defined : (n : ℕ) (s : State P.World) → IsOpen P s → Behaves (scan_stop P C n s).exit
  unfolding scan_stop
  scan_stop_defined n s o =
      branch_defined P (ble_scan_stop P s) _ _ (ble_scan_stop-Fine P L s o) (λ r t p u h. cc)
        (λ e t u h. cc)

  scan_round_defined :
      (n : ℕ) (again : ℕ → State P.World → Outcome P.World) (s : State P.World)
      → IsOpen P s
      → ((m : ℕ) (t : State P.World) → IsOpen P t → Behaves (again m t).exit)
      → Behaves (scan_round P C n again s).exit
  unfolding scan_round
  scan_round_defined n again s o g =
      branch_defined P (ble_read_event P (some (replicate 512 0)) 512 there s) _ _
        (ble_read_event-Fine P L s o)
        (λ e t p u.
          go_on_defined (show_event e n) again t (show_event_defined e n (event_room P L s t e o p))
            (λ m. g m t u))
        (λ e t u.
          either_ends Behaves (is_timeout e) _ _ (λ late. g n t u)
            (λ broken. scan_stop_defined n t u))

  scan_loop_defined :
      (fuel : ℕ) (end : ℤ) (n : ℕ) (s : State P.World)
      → IsOpen P s
      → Behaves (scan_loop P C fuel end n s).exit
  unfolding scan_loop
  scan_loop_defined zero end n s o = λ h. cc
  scan_loop_defined (suc fuel) end n s o =
      let (now, w) = C.time s.world in
      either_ends Behaves (int_lt end (pos now)) _ _
        (λ over. scan_stop_defined n (record s { world = w }) o)
        (λ going.
          scan_round_defined n (λ m t. scan_loop P C fuel end m t) (record s { world = w }) o
            (λ m t u. scan_loop_defined fuel end m t u))

  scan_until_defined :
      (fuel now seconds : ℕ) (s : State P.World)
      → IsOpen P s
      → now + seconds < 2 ^ 63
      → Behaves (scan_until P C fuel (end_time now seconds) s).exit
  unfolding scan_until end_time
  scan_until_defined fuel now seconds s o small =
      rw (ltb-true seconds (2 ^ 63) (omega arith), ltb-true (now + seconds) (2 ^ 63) small)
        ((scan_loop_defined fuel (pos (now + seconds)) 0 s o))

  -- The clock is read for the end of the scan behind the transfers of the three requests.
  pub cmd_ble_scan_defined :
      (fuel : ℕ) (seconds : Option (List ℕ)) (s : State P.World)
      → ((w : P.World) → Transfers P s.world w → (C.time w).0 + scan_seconds seconds < 2 ^ 63)
      → IsOpen P s
      → Behaves (cmd_ble_scan P C fuel seconds s).exit
  unfolding cmd_ble_scan
  cmd_ble_scan_defined fuel seconds s early o =
      branch_defined P (ble_get_cap P there s) _ _ (ble_get_cap-Fine P L s o)
        (λ cap t p u.
          branch_defined P (ble_set_scan_param P (param_of cap) t) _ _
            (ble_set_scan_param-Fine P L (param_of cap) t u)
            (λ r v q w.
              branch_defined P (ble_scan_start P v) _ _ (ble_scan_start-Fine P L v w)
                (λ r' x q' y.
                  let (now, z) = C.time x.world in
                  scan_until_defined fuel now (scan_seconds seconds) (record x { world = z }) y
                    (early x.world (
                      K.chain s.world t.world x.world
                        (reached s t _ p (ble_get_cap-Goes P K there s))
                        (K.chain t.world v.world x.world
                          (reached t v _ q (ble_set_scan_param-Goes P K (param_of cap) t))
                          (reached v x _ q' (ble_scan_start-Goes P K v))))))
                (λ e x y h. cc))
            (λ e v w h. cc))
        (λ e t u h. cc)
    where
      K : Kept P
      K = transfers_kept P

      reached :
          {A : Type 0} (a b : State P.World) (r : Ret A × State P.World) {x : Ret A}
          → r ≡ (x, b)
          → Along P K a r.1
          → Transfers P a.world b.world
      reached a b r p l =
          subst (λ (y : State P.World). Transfers P a.world y.world) (ap (λ y. y.1) p) l.world
