-- ===== src/Cli/Defined/Run.antt =====
-- A whole run of the tool does nothing that C leaves undefined.
use usbmux_tool.Base.{ℕ, Option, none, some, List, [], ◌∷◌, if◌then◌else◌}
use usbmux_tool.Device.Platform.{Platform}
use usbmux_tool.Device.State.{Device, State}
use usbmux_tool.Cli.Text.{codes, text_eq}
use usbmux_tool.Cli.Scan.{scan_seconds}

-- The text of the seconds of a scan, where there is one.
abbrev pub first : List (List ℕ) → Option (List ℕ)
first [] = none
first (x ∷ more) = some x

-- The seconds of the scan that the arguments ask for, 0 if they ask for another command.
abbrev pub scan_length : List (List ℕ) → ℕ
scan_length [] = 0
scan_length (command ∷ args) =
    if text_eq command (codes "ble-scan") then scan_seconds (first args) else 0
