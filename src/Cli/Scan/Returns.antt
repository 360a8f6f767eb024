-- ===== src/Cli/Scan/Returns.antt =====
-- A scan returns, with 0 or 1.
use usbmux_tool.Base.{ℕ, ◌+◌, ◌*◌, ◌^◌, ◌≤◌, ◌<◌, ◌⊎◌, inl, inr, Option, some, List, ◌≡◌, ◌≢◌}
use usbmux_tool.Device.Platform.{Platform, BulkLaws}
use usbmux_tool.Device.State.{Device, State}
use usbmux_tool.Device.Along.{Transfers}
use usbmux_tool.Cli.Ending.{Outcome, exited, undefined, running}
use usbmux_tool.Cli.Scan.{Clock, scan_seconds, cmd_ble_scan}
use usbmux_tool.Cli.Scan.Ends.{Ticking, cmd_ble_scan_ends}
use usbmux_tool.Cli.Scan.Stops.{
  ScanRun, not_started, started, wild_start, Scanned, stopped, still_running, wild, accepted,
  refused, cmd_ble_scan-ScanRun,
}
use usbmux_tool.Cli.Defined.Scan.{cmd_ble_scan_defined}

module _ (P : Platform) (C : Clock P) where
  Scanned-exit :
      (o : Outcome P.World)
      → Scanned P C o
      → o.exit ≢ running
      → o.exit ≢ undefined
      → (o.exit ≡ exited 0) ⊎ (o.exit ≡ exited 1)
  Scanned-exit o (stopped (accepted last r p zero)) h k = inl zero
  Scanned-exit o (stopped (refused last e p one)) h k = inr one
  Scanned-exit o (still_running q) h k = absurd (h q)
  Scanned-exit o (wild q) h k = absurd (k q)

  ScanRun-exit :
      (s : State P.World) (o : Outcome P.World)
      → ScanRun P C s o
      → o.exit ≢ running
      → o.exit ≢ undefined
      → (o.exit ≡ exited 0) ⊎ (o.exit ≡ exited 1)
  ScanRun-exit s o (not_started why one) h k = inr one
  ScanRun-exit s o (started cap t u v r r' p q p' run) h k = Scanned-exit o run h k
  ScanRun-exit s o (wild_start q) h k = absurd (k q)

module _ (P : Platform) (L : BulkLaws P) (C : Clock P) (T : Ticking P C) where
  -- On an open device, a libusb that reports what it moved, and a clock with a number of steps in a
  -- second, of which each look takes at least one and a bulk transfer takes none back: if the clock
  -- and the seconds of the scan together stay below 2 ^ 63 after whatever transfers the scan begins
  -- with, and the fuel has one more round than the clock has steps in the seconds of the scan and
  -- one more, then the scan returns, whatever the device answers, and its exit code is 0 or 1.
  pub cmd_ble_scan_returns :
      (fuel : ℕ) (seconds : Option (List ℕ)) (s : State P.World) (d : Device)
      → s.device ≡ some d
      → ((w : P.World) → Transfers P s.world w → (C.time w).0 + scan_seconds seconds < 2 ^ 63)
      → 1 + (scan_seconds seconds + 1) * T.rate ≤ fuel
      → let o = cmd_ble_scan P C fuel seconds s in (o.exit ≡ exited 0) ⊎ (o.exit ≡ exited 1)
  cmd_ble_scan_returns fuel seconds s d opened early enough =
      ScanRun-exit P C s (cmd_ble_scan P C fuel seconds s) (cmd_ble_scan-ScanRun P C fuel seconds s)
        (cmd_ble_scan_ends P C T fuel seconds s enough)
        (cmd_ble_scan_defined P L C fuel seconds s early (d, opened))
