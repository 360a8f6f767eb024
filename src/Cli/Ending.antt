-- ===== src/Cli/Ending.antt =====
-- How a command of the tool ends, and the pattern in which it calls the driver.
pub mod Running
use Prim.Native.String.{String}
use usbmux_tool.Base.{ℕ, List, [], ◌∷◌, ◌++◌, pos, Code, Ret, ok, err, fault}
use usbmux_tool.Proto.Names.{code_number, result_name}
use usbmux_tool.Device.State.{State}
use usbmux_tool.Cli.Console.{Printed, fprintf, stderr, name, Arg}

-- A command returns a number, or it does what C leaves undefined, or its loop is still running.
pub data Exit : Type 0 where
  exited : ℕ → Exit
  undefined : Exit
  running : Exit

pub record Outcome (W : Type 0) : Type 0 where
  pub exit : Exit
  pub shown : List Printed
  pub state : State W

abbrev pub code_name : Code → String
unfolding result_name
code_name e = result_name (code_number e)

-- `fprintf(stderr, message, ch32mux_result_name(ret))`
abbrev pub failure : String → Code → Printed
failure message e = fprintf stderr message (name (code_name e) ∷ [])

module _ {W : Type 0} where
  -- `return n;`
  abbrev pub return : ℕ → State W → Outcome W
  return n s = record { exit = exited n; shown = []; state = s }

  abbrev pub undefined_at : State W → Outcome W
  undefined_at s = record { exit = undefined; shown = []; state = s }

  -- What is printed before the rest.
  abbrev pub print : List Printed → Outcome W → Outcome W
  print events o = record o { shown = events ++ o.shown }

  -- `if(ret != CH32MUX_OK) { ... }`, with what follows on success and on an error.
  unfoldable pub branch :
      {A : Type 0}
      → Ret A × State W
      → (A → State W → Outcome W)
      → (Code → State W → Outcome W)
      → Outcome W
  branch (ok a, s) next failed = next a s
  branch (err e, s) next failed = failed e s
  branch (fault, s) next failed = undefined_at s

  -- The failure is reported, and the command returns 1.
  abbrev pub give_up : String → Code → State W → Outcome W
  give_up message e s = print (failure message e ∷ []) (return 1 s)
