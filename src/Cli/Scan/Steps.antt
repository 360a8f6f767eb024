-- ===== src/Cli/Scan/Steps.antt =====
-- The scan goes along, if the clock does.
use usbmux_tool.Base.{
  ℕ, zero, suc, Bool-cases, inl, inr, Option, none, some, List, [], ◌∷◌, replicate, ℤ, pos, int_lt,
  Code, there, refl, if◌then◌else◌,
}
use usbmux_tool.Device.Platform.{Platform}
use usbmux_tool.Device.State.{State}
use usbmux_tool.Device.Along.{Kept, Along, Along-refl, Along-trans}
use usbmux_tool.Ble.Manage.{ble_get_cap, ble_set_scan_param, ble_scan_start, ble_scan_stop}
use usbmux_tool.Ble.Event.{ble_read_event}
use usbmux_tool.Ble.Steps.{
  ble_get_cap-Goes, ble_set_scan_param-Goes, ble_scan_start-Goes, ble_scan_stop-Goes,
  ble_read_event-Goes,
}
use usbmux_tool.Cli.Console.{Printed}
use usbmux_tool.Cli.Ending.{Outcome, print, failure}
use usbmux_tool.Cli.Scan.{
  Clock, is_timeout, param_of, show_event, go_on, scan_stop, scan_round, scan_loop, scan_until,
  scan_seconds, end_time, cmd_ble_scan,
}
use usbmux_tool.Cli.Steps.{Leads, branch-Leads, stays}

module _ (P : Platform) (K : Kept P) (C : Clock P)
    (ticks : (w : P.World) → K.Rel w (C.time w).1) where
  scan_stop-Leads : (n : ℕ) (s : State P.World) → Leads P K s (scan_stop P C n s)
  unfolding scan_stop
  scan_stop-Leads n s =
      branch-Leads P K s (ble_scan_stop P s) _ _ (ble_scan_stop-Goes P K s) (stays P K) (stays P K)

  go_on-Leads :
      (o : Option (List Printed × ℕ)) (again : ℕ → State P.World → Outcome P.World)
      (s : State P.World)
      → ((n : ℕ) (t : State P.World) → Leads P K t (again n t))
      → Leads P K s (go_on P C o again s)
  go_on-Leads none again s rest = Along-refl P K s
  go_on-Leads (some (lines, n)) again s rest = rest n s

  scan_round-Leads :
      (n : ℕ) (again : ℕ → State P.World → Outcome P.World) (s : State P.World)
      → ((m : ℕ) (t : State P.World) → Leads P K t (again m t))
      → Leads P K s (scan_round P C n again s)
  unfolding scan_round
  scan_round-Leads n again s rest =
      branch-Leads P K s (ble_read_event P (some (replicate 512 0)) 512 there s) _ _
        (ble_read_event-Goes P K (some (replicate 512 0)) 512 there s)
        (λ e t. go_on-Leads (show_event e n) again t rest) failed
    where
      failed :
          (e : Code) (t : State P.World)
          → Leads P K t (
              if is_timeout e
              then again n t
              else print (failure "BLE event read failed: %s\n" e ∷ []) (scan_stop P C n t))
      failed e t = elim (Bool-cases (is_timeout e)) [
        | inl late ↦ rw late (rest n t)
        | inr broken ↦ rw broken (scan_stop-Leads n t)
      ]

  looked-Along : (s : State P.World) → Along P K s (record s { world = (C.time s.world).1 })
  looked-Along s = record { world = ticks s.world; device = refl }

  scan_loop-Leads :
      (fuel : ℕ) (end : ℤ) (n : ℕ) (s : State P.World) → Leads P K s (scan_loop P C fuel end n s)
  unfolding scan_loop
  scan_loop-Leads zero end n s = Along-refl P K s
  scan_loop-Leads (suc fuel) end n s =
      let t : State P.World = record s { world = (C.time s.world).1 } in
      elim (Bool-cases (int_lt end (pos (C.time s.world).0))) [
        | inl over ↦ rw over (Along-trans P K s t _ (looked-Along s) (scan_stop-Leads n t))
        | inr going ↦ rw going (
            Along-trans P K s t _ (looked-Along s) (
              scan_round-Leads n (λ m u. scan_loop P C fuel end m u) t
                (λ m u. scan_loop-Leads fuel end m u)))
      ]

  scan_until-Leads :
      (fuel : ℕ) (end : Option ℤ) (s : State P.World) → Leads P K s (scan_until P C fuel end s)
  unfolding scan_until
  scan_until-Leads fuel none s = Along-refl P K s
  scan_until-Leads fuel (some end) s = scan_loop-Leads fuel end 0 s

  pub cmd_ble_scan-Leads :
      (fuel : ℕ) (seconds : Option (List ℕ)) (s : State P.World)
      → Leads P K s (cmd_ble_scan P C fuel seconds s)
  unfolding cmd_ble_scan
  cmd_ble_scan-Leads fuel seconds s =
      branch-Leads P K s (ble_get_cap P there s) _ _ (ble_get_cap-Goes P K there s)
        (λ cap t.
          branch-Leads P K t (ble_set_scan_param P (param_of cap) t) _ _
            (ble_set_scan_param-Goes P K (param_of cap) t)
            (λ r u.
              branch-Leads P K u (ble_scan_start P u) _ _ (ble_scan_start-Goes P K u)
                (λ r' v.
                  let x : State P.World = record v { world = (C.time v.world).1 } in
                  Along-trans P K v x _ (looked-Along v)
                    (scan_until-Leads fuel (end_time (C.time v.world).0 (scan_seconds seconds)) x))
                (stays P K))
            (stays P K))
        (stays P K)
