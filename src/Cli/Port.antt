-- ===== src/Cli/Port.antt =====
-- `parse_port`
pub mod Laws
use usbmux_tool.Base.{ℕ, Bool, Option, none, some, List, [], ◌∷◌, ltb, if◌then◌else◌}
use usbmux_tool.Cli.Text.{strtoul}

abbrev pub accept_port : Option (ℕ × List ℕ) → Option ℕ
accept_port none = none
accept_port (some (value, [])) = if ltb 255 value then none else some value
accept_port (some (value, c ∷ rest)) = none

-- `none` is -1, which leaves `*port` alone.
unfoldable pub parse_port : List ℕ → Option ℕ
parse_port text = accept_port (strtoul text)
