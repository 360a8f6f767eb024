-- ===== src/Cli/Scan/Stops.antt =====
-- A scan that was started is stopped.
use usbmux_tool.Base.{
  ℕ, zero, suc, Bool, true, false, Option, none, some, List, [], ◌∷◌, replicate, ℤ, pos, int_lt,
  ◌≡◌, refl, Ret, Code, ok, err, fault, there, if◌then◌else◌,
}
use usbmux_tool.Device.Platform.{Platform}
use usbmux_tool.Device.State.{State}
use usbmux_tool.Exchange.Accept.{Response}
use usbmux_tool.Ble.Manage.{BleCap, ble_get_cap, ble_set_scan_param, ble_scan_start, ble_scan_stop}
use usbmux_tool.Ble.Event.{ble_read_event}
use usbmux_tool.Cli.Console.{Printed, fprintf, stdout, number}
use usbmux_tool.Cli.Ending.{
  Outcome, exited, undefined, running, branch, print, return, give_up, failure, undefined_at,
}
use usbmux_tool.Cli.Scan.{
  Clock, cap_lines, scan_seconds, end_time, is_timeout, param_of, show_event, go_on, scan_stop,
  scan_round, scan_loop, scan_until, cmd_ble_scan,
}

module _ (P : Platform) (C : Clock P) where
  -- The end is the answer to a stop request: 0 if it was accepted, 1 if it failed.
  pub data Stopped (o : Outcome P.World) : Type 0 where
    accepted :
        (last : State P.World) (r : Response)
        → ble_scan_stop P last ≡ (ok r, o.state)
        → o.exit ≡ exited 0
        → Stopped o
    refused :
        (last : State P.World) (e : Code)
        → ble_scan_stop P last ≡ (err e, o.state)
        → o.exit ≡ exited 1
        → Stopped o

  pub data Scanned (o : Outcome P.World) : Type 0 where
    stopped : Stopped o → Scanned o
    still_running : o.exit ≡ running → Scanned o
    wild : o.exit ≡ undefined → Scanned o

  scan_stop-Scanned : (n : ℕ) (s : State P.World) → Scanned (scan_stop P C n s)
  unfolding scan_stop branch
  scan_stop-Scanned n s = go (ble_scan_stop P s) refl
    where
      go :
          (r : Ret Response × State P.World)
          → ble_scan_stop P s ≡ r
          → Scanned (
              branch r
                (λ a t.
                  print
                    (fprintf stdout "ble scan stopped reports=%u\n" (number n ∷ []) ∷ [])
                    (return 0 t))
                (give_up "BLE_SCAN_STOP failed: %s\n"))
      go (ok a, t) p = stopped (accepted s a p refl)
      go (err e, t) p = stopped (refused s e p refl)
      go (fault, t) p = wild refl

  branch-Scanned :
      {A : Type 0} (r : Ret A × State P.World) (next : A → State P.World → Outcome P.World)
      (failed : Code → State P.World → Outcome P.World)
      → ((a : A) (t : State P.World) → Scanned (next a t))
      → ((e : Code) (t : State P.World) → Scanned (failed e t))
      → Scanned (branch r next failed)
  unfolding branch
  branch-Scanned (ok a, t) next failed g h = g a t
  branch-Scanned (err e, t) next failed g h = h e t
  branch-Scanned (fault, t) next failed g h = wild refl

  printed : (lines : List Printed) (o : Outcome P.World) → Scanned o → Scanned (print lines o)
  printed lines o (stopped (accepted last r p q)) = stopped (accepted last r p q)
  printed lines o (stopped (refused last e p q)) = stopped (refused last e p q)
  printed lines o (still_running p) = still_running p
  printed lines o (wild p) = wild p

  go_on-Scanned :
      (x : Option (List Printed × ℕ)) (again : ℕ → State P.World → Outcome P.World)
      (s : State P.World)
      → ((n : ℕ) (t : State P.World) → Scanned (again n t))
      → Scanned (go_on P C x again s)
  go_on-Scanned none again s h = wild refl
  go_on-Scanned (some (lines, n)) again s h = printed lines (again n s) (h n s)

  either-Scanned :
      (b : Bool) (x y : Outcome P.World) → Scanned x → Scanned y → Scanned (if b then x else y)
  either-Scanned true x y p q = p
  either-Scanned false x y p q = q

  scan_loop-Scanned :
      (fuel : ℕ) (end : ℤ) (n : ℕ) (s : State P.World) → Scanned (scan_loop P C fuel end n s)
  unfolding scan_loop scan_round
  scan_loop-Scanned zero end n s = still_running refl
  scan_loop-Scanned (suc fuel) end n s =
      let (now, w) = C.time s.world in
      let t : State P.World = record s { world = w } in
      let again = λ (m : ℕ) (u : State P.World). scan_loop-Scanned fuel end m u in
      either-Scanned (int_lt end (pos now)) _ _ (scan_stop-Scanned n t) (
        branch-Scanned (ble_read_event P (some (replicate 512 0)) 512 there t) _ _
          (λ e u. go_on-Scanned (show_event e n) (λ m v. scan_loop P C fuel end m v) u again)
          (λ e u. either-Scanned (is_timeout e) _ _ (again n u) (
            printed (failure "BLE event read failed: %s\n" e ∷ []) (scan_stop P C n u)
              (scan_stop-Scanned n u))))

  scan_until-Scanned :
      (fuel : ℕ) (end : Option ℤ) (s : State P.World) → Scanned (scan_until P C fuel end s)
  unfolding scan_until
  scan_until-Scanned fuel none s = wild refl
  scan_until-Scanned fuel (some end) s = scan_loop-Scanned fuel end 0 s

  branch-by :
      (Q : Outcome P.World → Type 0) {A : Type 0} (r : Ret A × State P.World)
      (next : A → State P.World → Outcome P.World) (failed : Code → State P.World → Outcome P.World)
      → ((a : A) (t : State P.World) → r ≡ (ok a, t) → Q (next a t))
      → ((e : Code) (t : State P.World) → r ≡ (err e, t) → Q (failed e t))
      → ((t : State P.World) → Q (undefined_at t))
      → Q (branch r next failed)
  unfolding branch
  branch-by Q (ok a, t) next failed g h u = g a t refl
  branch-by Q (err e, t) next failed g h u = h e t refl
  branch-by Q (fault, t) next failed g h u = u t

  -- Why a scan was not started: which of the three requests failed, and the state behind it.
  pub data NotStarted (s z : State P.World) : Type 0 where
    no_cap : (e : Code) → ble_get_cap P there s ≡ (err e, z) → NotStarted s z
    no_param :
        (cap : BleCap) (t : State P.World) (e : Code)
        → ble_get_cap P there s ≡ (ok cap, t)
        → ble_set_scan_param P (param_of cap) t ≡ (err e, z)
        → NotStarted s z
    no_start :
        (cap : BleCap) (t u : State P.World) (r : Response) (e : Code)
        → ble_get_cap P there s ≡ (ok cap, t)
        → ble_set_scan_param P (param_of cap) t ≡ (ok r, u)
        → ble_scan_start P u ≡ (err e, z)
        → NotStarted s z

  pub data ScanRun (s : State P.World) (o : Outcome P.World) : Type 0 where
    not_started : NotStarted s o.state → o.exit ≡ exited 1 → ScanRun s o
    started :
        (cap : BleCap) (t u v : State P.World) (r r' : Response)
        → ble_get_cap P there s ≡ (ok cap, t)
        → ble_set_scan_param P (param_of cap) t ≡ (ok r, u)
        → ble_scan_start P u ≡ (ok r', v)
        → Scanned o
        → ScanRun s o
    wild_start : o.exit ≡ undefined → ScanRun s o

  -- The scan asks for the capabilities, sets the parameters by them and starts, in this order. If
  -- one of the three requests fails, the command returns 1 at once. Once the scan is started, and
  -- whatever comes of its events, the command does not return before it has asked the device
  -- to stop, as the last thing that it does, and it returns 0 if that was accepted and 1 if it was
  -- not. Otherwise its loop is still running or it did what C leaves undefined.
  pub cmd_ble_scan-ScanRun :
      (fuel : ℕ) (seconds : Option (List ℕ)) (s : State P.World)
      → ScanRun s (cmd_ble_scan P C fuel seconds s)
  unfolding cmd_ble_scan
  cmd_ble_scan-ScanRun fuel seconds s =
      branch-by (ScanRun s) (ble_get_cap P there s) _ _
        (λ cap t p.
          branch-by (λ o. ScanRun s (print (cap_lines cap) o))
            (ble_set_scan_param P (param_of cap) t) _ _
            (λ r u q.
              branch-by (λ o. ScanRun s (print (cap_lines cap) o)) (ble_scan_start P u) _ _
                (λ r' v h.
                  let (now, w) = C.time v.world in
                  started cap t u v r r' p q h (
                    printed (cap_lines cap) _ (
                      printed
                        (fprintf stdout "ble scan started for %lu seconds\n"
                            (number (scan_seconds seconds) ∷ [])
                          ∷ [])
                        _
                        (scan_until-Scanned fuel (end_time now (scan_seconds seconds))
                          (record v { world = w })))))
                (λ e v h. not_started (no_start cap t u r e p q h) refl) (λ v. wild_start refl))
            (λ e u q. not_started (no_param cap t e p q) refl) (λ u. wild_start refl))
        (λ e t p. not_started (no_cap e p) refl) (λ t. wild_start refl)
