-- ===== src/Cli/Scan/Ends.antt =====
-- The loop of the scan ends, on a clock that goes.
use native.Mathlib.Nat.{mul-le-mul_right}
use usbmux_tool.Base.{
  ℕ, zero, suc, ◌+◌, ◌-◌, ◌*◌, ◌^◌, ◌≤◌, ◌<◌, false, Bool-cases, inl, inr, Option, none, some, List,
  replicate, ℤ, pos, int_lt, leb, ltb, there, ◌≡◌, ◌≢◌, arith,
}
use usbmux_tool.Device.Platform.{Platform}
use usbmux_tool.Device.State.{State}
use usbmux_tool.Device.Along.{Kept}
use usbmux_tool.Ble.Manage.{ble_get_cap, ble_set_scan_param, ble_scan_start, ble_scan_stop}
use usbmux_tool.Ble.Event.{ble_read_event}
use usbmux_tool.Ble.Steps.{ble_read_event-Goes}
use usbmux_tool.Cli.Console.{Printed}
use usbmux_tool.Cli.Ending.{Exit, Outcome, running}
use usbmux_tool.Cli.Ending.Running.{branch_ends, branch_ends_after, either_ends}
use usbmux_tool.Cli.Scan.{
  Clock, scan_seconds, end_time, is_timeout, param_of, show_event, go_on, scan_stop, scan_round,
  scan_loop, scan_until, cmd_ble_scan,
}

-- A clock with `rate` steps in a second. `time` tells the full seconds, each look at it takes a
-- step at least, and a bulk transfer does not turn it back.
pub record Ticking (P : Platform) (C : Clock P) : Type 0 where
  pub rate : ℕ
  pub steps : P.World → ℕ
  pub tells :
      (w : P.World)
      → let (now, w') = C.time w in (now * rate ≤ steps w') × (steps w' < (now + 1) * rate)
  pub passes : (w : P.World) → steps w < steps (C.time w).1
  pub bulk :
      (h : Option ℕ) (ep : ℕ) (buf : List ℕ) (t : ℕ) (w : P.World)
      → steps w ≤ steps (P.bulk_transfer h ep buf t w).world

abbrev clock_kept : (P : Platform) (C : Clock P) → Ticking P C → Kept P
clock_kept P C T = record {
  Rel = λ w w'. T.steps w ≤ T.steps w';
  same = λ w. omega arith;
  chain = λ u v w p q. omega arith;
  bulk = T.bulk;
}

-- The loop is left behind the second `last`.
abbrev EndsBy : Option ℤ → ℕ → Type 0
EndsBy none last = Unit
EndsBy (some end) last = (now : ℕ) → int_lt end (pos now) ≡ false → now ≤ last

-- A scan is never longer than it was told to be.
end_time-EndsBy : (now seconds : ℕ) → EndsBy (end_time now seconds) (now + seconds)
unfolding end_time
end_time-EndsBy now seconds = elim (Bool-cases (ltb seconds (2 ^ 63))) [
  | inl small ↦ elim (Bool-cases (ltb (now + seconds) (2 ^ 63))) [
    | inl fits ↦ rw small (rw fits (λ n h. ground arith))
    | inr over ↦ rw small (rw over tt)
  ]
  | inr large ↦ elim (Bool-cases (leb (2 ^ 64 - seconds) now)) [
    | inl later ↦ rw large (rw later (λ n h. ground arith))
    | inr before ↦ rw large (rw before (λ n h. absurd (cc)))
  ]
]

abbrev Stops : Exit → Type 0
Stops x = x ≢ running

module _ (P : Platform) (C : Clock P) (T : Ticking P C) where
  scan_stop_ends : (n : ℕ) (s : State P.World) → (scan_stop P C n s).exit ≢ running
  unfolding scan_stop
  scan_stop_ends n s =
      branch_ends Stops (ble_scan_stop P s) _ _ (λ q. cc) (λ r t q. cc) (λ e t q. cc)

  go_on_ends :
      (o : Option (List Printed × ℕ)) (again : ℕ → State P.World → Outcome P.World)
      (s : State P.World)
      → ((n : ℕ) → (again n s).exit ≢ running)
      → (go_on P C o again s).exit ≢ running
  go_on_ends none again s h = λ q. cc
  go_on_ends (some (lines, n)) again s h = h n

  scan_round_ends :
      (n : ℕ) (again : ℕ → State P.World → Outcome P.World) (s : State P.World)
      → ((m : ℕ) (t : State P.World)
          → T.steps s.world ≤ T.steps t.world
          → (again m t).exit ≢ running)
      → (scan_round P C n again s).exit ≢ running
  unfolding scan_round
  scan_round_ends n again s h =
      let (r, t) = ble_read_event P (some (replicate 512 0)) 512 there s in
      let later : T.steps s.world ≤ T.steps t.world =
        (ble_read_event-Goes P (clock_kept P C T) (some (replicate 512 0)) 512 there s).world in
      branch_ends_after Stops (r, t) _ _ (λ q. cc)
        (λ e. go_on_ends (show_event e n) again t (λ m. h m t later))
        (λ e.
          either_ends Stops (is_timeout e) _ _ (λ late. h n t later) (λ broken. scan_stop_ends n t))

  scan_loop_ends :
      (fuel : ℕ) (end : ℤ) (last n : ℕ) (s : State P.World)
      → ((now : ℕ) → int_lt end (pos now) ≡ false → now ≤ last)
      → 1 ≤ fuel
      → (last + 1) * T.rate ≤ T.steps s.world + fuel
      → (scan_loop P C fuel end n s).exit ≢ running
  unfolding scan_loop
  scan_loop_ends zero end last n s before some_fuel enough = absurd (omega arith)
  scan_loop_ends (suc fuel) end last n s before some_fuel enough =
      let (now, w) = C.time s.world in
      either_ends Stops (int_lt end (pos now)) _ _
        (λ over. scan_stop_ends n (record s { world = w }))
        (λ going.
          let early : now ≤ last = before now going in
          let bound : (now + 1) * T.rate ≤ (last + 1) * T.rate =
            mul-le-mul_right T.rate (omega (arith, early)) in
          scan_round_ends n (λ m t. scan_loop P C fuel end m t) (record s { world = w })
            (λ m t later.
              scan_loop_ends fuel end last m t before
                (omega (arith, bound, T.passes s.world, (T.tells s.world).1))
                (omega (arith, bound, T.passes s.world, later))))

  scan_until_ends :
      (fuel last : ℕ) (end : Option ℤ) (s : State P.World)
      → EndsBy end last
      → 1 ≤ fuel
      → (last + 1) * T.rate ≤ T.steps s.world + fuel
      → (scan_until P C fuel end s).exit ≢ running
  unfolding scan_until
  scan_until_ends fuel last none s by some_fuel enough = λ q. cc
  scan_until_ends fuel last (some end) s by some_fuel enough =
      scan_loop_ends fuel end last 0 s by some_fuel enough

  -- One more round than the clock has steps in the scan's time and a second is enough.
  pub cmd_ble_scan_ends :
      (fuel : ℕ) (seconds : Option (List ℕ)) (s : State P.World)
      → 1 + (scan_seconds seconds + 1) * T.rate ≤ fuel
      → (cmd_ble_scan P C fuel seconds s).exit ≢ running
  unfolding cmd_ble_scan
  cmd_ble_scan_ends fuel seconds s enough =
      branch_ends Stops (ble_get_cap P there s) _ _ (λ q. cc)
        (λ cap t.
          branch_ends Stops (ble_set_scan_param P (param_of cap) t) _ _ (λ q. cc)
            (λ r u.
              branch_ends Stops (ble_scan_start P u) _ _ (λ q. cc)
                (λ r' v.
                  let (now, w) = C.time v.world in
                  scan_until_ends fuel (now + scan_seconds seconds)
                    (end_time now (scan_seconds seconds)) (record v { world = w })
                    (end_time-EndsBy now (scan_seconds seconds)) (omega (arith, enough))
                    (omega (arith, enough, (T.tells v.world).0)))
                (λ e v q. cc))
            (λ e u q. cc))
        (λ e t q. cc)
