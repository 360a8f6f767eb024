-- ===== src/Cli.antt =====
-- userspace/tools/ch32v208-mux-cli.c: opening the device, and `main`.
pub mod Text
pub mod Port
pub mod Console
pub mod Ending
pub mod Commands
pub mod Loopback
pub mod Scan
pub mod Debug
pub mod Steps
pub mod Balance
pub mod Defined
use usbmux_tool.Base.{
  ℕ, ◌&&◌, Bool, Option, none, some, List, [], ◌∷◌, there, Ret, Done, Code, ok, err, fault,
  if◌then◌else◌,
}
use usbmux_tool.Device.Platform.{Platform}
use usbmux_tool.Device.State.{Device, State}
use usbmux_tool.Device.Lifecycle.{Opened, default_open_options, open_device, close}
use Text.{codes, text_eq}
use Port.{parse_port}
use Console.{Printed, fprintf, stderr, number, name, text}
use Ending.{Outcome, Exit, exited, undefined, return, undefined_at, print, code_name}
use Commands.{cmd_probe, cmd_heartbeat, cmd_uart_cap, cmd_uart_open, cmd_uart_close}
use Loopback.{cmd_uart_loopback}
use Scan.{Clock, cmd_ble_scan}
use Debug.{cmd_debug_xfer}

unfoldable pub usage : List ℕ → Printed
usage argv0 =
    fprintf stderr
      "Usage:\n  %s probe\n  %s heartbeat [text]\n  %s uart-cap <port>\n  %s uart-open <port> [baud]\n  %s uart-loopback <port> [baud] [payload]\n  %s uart-close <port>\n  %s ble-scan [seconds]\n  %s debug-xfer\n"
      (text argv0
        ∷ text argv0
        ∷ text argv0
        ∷ text argv0
        ∷ text argv0
        ∷ text argv0
        ∷ text argv0
        ∷ text argv0
        ∷ [])

-- How the program ends: its exit code, what it printed, and the world.
pub record Ended (W : Type 0) : Type 0 where
  pub exit : Exit
  pub shown : List Printed
  pub world : W

module _ (P : Platform) (C : Clock P) where
  -- `usage(argv[0]); exit_code = 2;`
  abbrev pub misused : List ℕ → State P.World → Outcome P.World
  unfolding usage
  misused argv0 s = print (usage argv0 ∷ []) (return 2 s)

  -- A command on a port, if the text is the number of one.
  abbrev pub on_port :
      List ℕ → Option ℕ → (ℕ → State P.World → Outcome P.World) → State P.World → Outcome P.World
  unfolding usage
  on_port argv0 none command s = misused argv0 s
  on_port argv0 (some port) command s = command port s

  -- The commands that take arguments, by `argv[2]` and what follows it.
  unfoldable pub heartbeat_args : List ℕ → List (List ℕ) → State P.World → Outcome P.World
  heartbeat_args argv0 [] s = cmd_heartbeat P (codes "ping") s
  heartbeat_args argv0 (words ∷ more) s = cmd_heartbeat P words s

  unfoldable pub uart_cap_args : List ℕ → List (List ℕ) → State P.World → Outcome P.World
  unfolding usage
  uart_cap_args argv0 (port ∷ []) s = on_port argv0 (parse_port port) (cmd_uart_cap P) s
  uart_cap_args argv0 args s = misused argv0 s

  unfoldable pub uart_open_args : List ℕ → List (List ℕ) → State P.World → Outcome P.World
  unfolding usage
  uart_open_args argv0 (port ∷ []) s =
      on_port argv0 (parse_port port) (λ p. cmd_uart_open P p none) s
  uart_open_args argv0 (port ∷ baud ∷ []) s =
      on_port argv0 (parse_port port) (λ p. cmd_uart_open P p (some baud)) s
  uart_open_args argv0 args s = misused argv0 s

  unfoldable pub uart_loopback_args : List ℕ → List (List ℕ) → State P.World → Outcome P.World
  unfolding usage
  uart_loopback_args argv0 (port ∷ []) s =
      on_port argv0 (parse_port port)
        (λ p. cmd_uart_loopback P p none (codes "ch32v208-loopback-0")) s
  uart_loopback_args argv0 (port ∷ baud ∷ []) s =
      on_port argv0 (parse_port port)
        (λ p. cmd_uart_loopback P p (some baud) (codes "ch32v208-loopback-0")) s
  uart_loopback_args argv0 (port ∷ baud ∷ payload ∷ []) s =
      on_port argv0 (parse_port port) (λ p. cmd_uart_loopback P p (some baud) payload) s
  uart_loopback_args argv0 args s = misused argv0 s

  unfoldable pub uart_close_args : List ℕ → List (List ℕ) → State P.World → Outcome P.World
  unfolding usage
  uart_close_args argv0 (port ∷ []) s = on_port argv0 (parse_port port) (cmd_uart_close P) s
  uart_close_args argv0 args s = misused argv0 s

  unfoldable pub ble_scan_args : ℕ → List ℕ → List (List ℕ) → State P.World → Outcome P.World
  unfolding usage
  ble_scan_args fuel argv0 [] s = cmd_ble_scan P C fuel none s
  ble_scan_args fuel argv0 (seconds ∷ []) s = cmd_ble_scan P C fuel (some seconds) s
  ble_scan_args fuel argv0 args s = misused argv0 s

  -- The choice of the command by `argv[1]`.
  unfoldable pub dispatch : ℕ → List ℕ → List ℕ → List (List ℕ) → State P.World → Outcome P.World
  unfolding usage heartbeat_args uart_cap_args uart_open_args uart_loopback_args uart_close_args
      ble_scan_args
  dispatch fuel argv0 command args s =
      if text_eq command (codes "probe")
      then cmd_probe P s
      else if text_eq command (codes "debug-xfer")
      then cmd_debug_xfer P s
      else if text_eq command (codes "heartbeat")
      then heartbeat_args argv0 args s
      else if text_eq command (codes "uart-cap")
      then uart_cap_args argv0 args s
      else if text_eq command (codes "uart-open")
      then uart_open_args argv0 args s
      else if text_eq command (codes "uart-loopback")
      then uart_loopback_args argv0 args s
      else if text_eq command (codes "uart-close")
      then uart_close_args argv0 args s
      else if text_eq command (codes "ble-scan")
      then ble_scan_args fuel argv0 args s
      else misused argv0 s

  -- `ch32mux_close(device); return exit_code;`, where the command returned.
  unfoldable pub close_after : Exit → Outcome P.World → Ended P.World
  close_after (exited n) o = record {
    exit = exited n;
    shown = o.shown;
    world = close P o.state.device o.state.world;
  }
  close_after exit o = record { exit = exit; shown = o.shown; world = o.state.world }

  -- The static `open_device`, with the default options.
  unfoldable pub open_default : P.World → Opened P.World
  open_default w = open_device P (some default_open_options) there w

  -- `main` behind the opening.
  unfoldable pub run_opened :
      ℕ → List ℕ → List ℕ → List (List ℕ) → Ret Done → Option Device → P.World → Ended P.World
  unfolding dispatch close_after
  run_opened fuel argv0 command args (ok done) device w =
      let o = dispatch fuel argv0 command args (record { device = device; world = w }) in
      close_after o.exit o
  run_opened fuel argv0 command args (err e) device w = record {
    exit = exited 1;
    shown =
        fprintf stderr "open %04X:%04X failed: %s\n"
          (number 0x1a86 ∷ number 0x2080 ∷ name (code_name e) ∷ [])
        ∷ [];
    world = w;
  }
  run_opened fuel argv0 command args fault device w = record {
    exit = undefined;
    shown = [];
    world = w;
  }

  -- `main`, with fuel for the loop of a scan. A call with no `argv[0]` is undefined.
  unfoldable pub main : ℕ → List (List ℕ) → P.World → Ended P.World
  unfolding run_opened open_default usage
  main fuel [] w = record { exit = undefined; shown = []; world = w }
  main fuel (argv0 ∷ []) w = record { exit = exited 2; shown = usage argv0 ∷ []; world = w }
  main fuel (argv0 ∷ command ∷ args) w =
      let o = open_default w in run_opened fuel argv0 command args o.ret o.device o.world
