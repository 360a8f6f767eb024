-- ===== src/Cli/Balance.antt =====
-- What a run of the tool takes of libusb and of the heap, it asks to be given back.
use usbmux_tool.Base.{
  ℕ, subst, append-nil, Bool, true, false, Option, none, some, List, [], ◌∷◌, ◌≡◌, ◌≢◌, refl, sym,
  ap, ◌∙◌, there, Ret, Done, ok, err, fault, if◌then◌else◌,
}
use usbmux_tool.Device.Platform.{Platform}
use usbmux_tool.Device.State.{Device, State}
use usbmux_tool.Device.Along.{Kept, Along, Along-refl, parts}
use usbmux_tool.Device.Lifecycle.{Opened, default_open_options, options_or_default, open_device}
use usbmux_tool.Device.Lifecycle.Ledger.{
  Traced, Moves, Moves-trans, Moves-refl, Held, nothing, Moves-none,
}
use usbmux_tool.Device.Lifecycle.Closing.{held_by_any, IsSound}
use usbmux_tool.Device.Lifecycle.Claiming.{Settled}
use usbmux_tool.Device.Lifecycle.Balance.{open_device-Settled, closes, Settled-IsSound}
use usbmux_tool.Cli.{
  on_port, heartbeat_args, uart_cap_args, uart_open_args, uart_loopback_args, uart_close_args,
  ble_scan_args, dispatch, close_after, open_default, run_opened, main, usage,
}
use usbmux_tool.Cli.Text.{codes, text_eq}
use usbmux_tool.Cli.Port.{parse_port}
use usbmux_tool.Cli.Ending.{Outcome, Exit, exited, undefined, running}
use usbmux_tool.Cli.Scan.{Clock}
use usbmux_tool.Cli.Steps.{
  Leads, cmd_probe-Leads, cmd_heartbeat-Leads, cmd_uart_cap-Leads, cmd_uart_open-Leads,
  cmd_uart_close-Leads,
}
use usbmux_tool.Cli.Loopback.Steps.{cmd_uart_loopback-Leads}
use usbmux_tool.Cli.Scan.Steps.{cmd_ble_scan-Leads}
use usbmux_tool.Cli.Debug.Steps.{cmd_debug_xfer-Leads}

module _ (P : Platform) (K : Kept P) (C : Clock P)
    (ticks : (w : P.World) → K.Rel w (C.time w).1) where
  on_port-Leads :
      (argv0 : List ℕ) (port : Option ℕ) (command : ℕ → State P.World → Outcome P.World)
      (s : State P.World)
      → ((p : ℕ) → Leads P K s (command p s))
      → Leads P K s (on_port P C argv0 port command s)
  unfolding usage
  on_port-Leads argv0 none command s h = Along-refl P K s
  on_port-Leads argv0 (some p) command s h = h p

  heartbeat_args-Leads :
      (argv0 : List ℕ) (args : List (List ℕ)) (s : State P.World)
      → Leads P K s (heartbeat_args P C argv0 args s)
  unfolding heartbeat_args
  heartbeat_args-Leads argv0 [] s = cmd_heartbeat-Leads P K (codes "ping") s
  heartbeat_args-Leads argv0 (words ∷ more) s = cmd_heartbeat-Leads P K words s

  uart_cap_args-Leads :
      (argv0 : List ℕ) (args : List (List ℕ)) (s : State P.World)
      → Leads P K s (uart_cap_args P C argv0 args s)
  unfolding uart_cap_args
  uart_cap_args-Leads argv0 [] s = Along-refl P K s
  uart_cap_args-Leads argv0 (port ∷ []) s =
      on_port-Leads argv0 (parse_port port) _ s (λ p. cmd_uart_cap-Leads P K p s)
  uart_cap_args-Leads argv0 (port ∷ x ∷ more) s = Along-refl P K s

  uart_open_args-Leads :
      (argv0 : List ℕ) (args : List (List ℕ)) (s : State P.World)
      → Leads P K s (uart_open_args P C argv0 args s)
  unfolding uart_open_args
  uart_open_args-Leads argv0 [] s = Along-refl P K s
  uart_open_args-Leads argv0 (port ∷ []) s =
      on_port-Leads argv0 (parse_port port) _ s (λ p. cmd_uart_open-Leads P K p none s)
  uart_open_args-Leads argv0 (port ∷ baud ∷ []) s =
      on_port-Leads argv0 (parse_port port) _ s (λ p. cmd_uart_open-Leads P K p (some baud) s)
  uart_open_args-Leads argv0 (port ∷ baud ∷ x ∷ more) s = Along-refl P K s

  uart_loopback_args-Leads :
      (argv0 : List ℕ) (args : List (List ℕ)) (s : State P.World)
      → Leads P K s (uart_loopback_args P C argv0 args s)
  unfolding uart_loopback_args
  uart_loopback_args-Leads argv0 [] s = Along-refl P K s
  uart_loopback_args-Leads argv0 (port ∷ []) s =
      on_port-Leads argv0 (parse_port port) _ s
        (λ p. cmd_uart_loopback-Leads P K p none (codes "ch32v208-loopback-0") s)
  uart_loopback_args-Leads argv0 (port ∷ baud ∷ []) s =
      on_port-Leads argv0 (parse_port port) _ s
        (λ p. cmd_uart_loopback-Leads P K p (some baud) (codes "ch32v208-loopback-0") s)
  uart_loopback_args-Leads argv0 (port ∷ baud ∷ payload ∷ []) s =
      on_port-Leads argv0 (parse_port port) _ s
        (λ p. cmd_uart_loopback-Leads P K p (some baud) payload s)
  uart_loopback_args-Leads argv0 (port ∷ baud ∷ payload ∷ x ∷ more) s = Along-refl P K s

  uart_close_args-Leads :
      (argv0 : List ℕ) (args : List (List ℕ)) (s : State P.World)
      → Leads P K s (uart_close_args P C argv0 args s)
  unfolding uart_close_args
  uart_close_args-Leads argv0 [] s = Along-refl P K s
  uart_close_args-Leads argv0 (port ∷ []) s =
      on_port-Leads argv0 (parse_port port) _ s (λ p. cmd_uart_close-Leads P K p s)
  uart_close_args-Leads argv0 (port ∷ x ∷ more) s = Along-refl P K s

  ble_scan_args-Leads :
      (fuel : ℕ) (argv0 : List ℕ) (args : List (List ℕ)) (s : State P.World)
      → Leads P K s (ble_scan_args P C fuel argv0 args s)
  unfolding ble_scan_args
  ble_scan_args-Leads fuel argv0 [] s = cmd_ble_scan-Leads P K C ticks fuel none s
  ble_scan_args-Leads fuel argv0 (seconds ∷ []) s =
      cmd_ble_scan-Leads P K C ticks fuel (some seconds) s
  ble_scan_args-Leads fuel argv0 (seconds ∷ x ∷ more) s = Along-refl P K s

  either :
      (b : Bool) (x y : Outcome P.World) (s : State P.World)
      → Leads P K s x
      → Leads P K s y
      → Leads P K s (if b then x else y)
  either true x y s p q = p
  either false x y s p q = q

  pub dispatch-Leads :
      (fuel : ℕ) (argv0 command : List ℕ) (args : List (List ℕ)) (s : State P.World)
      → Leads P K s (dispatch P C fuel argv0 command args s)
  unfolding dispatch
  dispatch-Leads fuel argv0 command args s =
      either (text_eq command (codes "probe")) _ _ s (cmd_probe-Leads P K s) (
        either (text_eq command (codes "debug-xfer")) _ _ s (cmd_debug_xfer-Leads P K s) (
          either (text_eq command (codes "heartbeat")) _ _ s (heartbeat_args-Leads argv0 args s) (
            either (text_eq command (codes "uart-cap")) _ _ s (uart_cap_args-Leads argv0 args s) (
              either (text_eq command (codes "uart-open")) _ _ s (uart_open_args-Leads argv0 args s)
                (either (text_eq command (codes "uart-loopback")) _ _ s
                  (uart_loopback_args-Leads argv0 args s)
                  (either (text_eq command (codes "uart-close")) _ _ s
                    (uart_close_args-Leads argv0 args s)
                    (either (text_eq command (codes "ble-scan")) _ _ s
                      (ble_scan_args-Leads fuel argv0 args s) (Along-refl P K s))))))))

-- What is held, and that it is sound, does not depend on the sequence number.
held_by_any-parts : (o : Option Device) → held_by_any (parts o) ≡ held_by_any o
held_by_any-parts none = refl
held_by_any-parts (some d) = refl

some_of : (a b : Device) → some a ≡ some b → a ≡ b
some_of a b p = cc

along-IsSound :
    (o o' : Option Device)
    → parts o' ≡ parts o
    → ((d : Device) → o ≡ some d → IsSound d)
    → (d : Device) → o' ≡ some d
    → IsSound d
along-IsSound none o' p h d q = absurd (none_some (sym p ∙ ap parts q))
  where
    none_some : none ≢ some (record d { next_seq = 0 })
    none_some e = cc
along-IsSound (some e) o' p h d q =
    let at : IsSound (record d { next_seq = 0 }) =
      subst IsSound (some_of _ _ (sym p ∙ ap parts q)) (unnumbered (h e refl)) in
    record {
      needs_context = at.needs_context;
      driver_handle = at.driver_handle;
      interface_handle = at.interface_handle;
    }
  where
    unnumbered : IsSound e → IsSound (record e { next_seq = 0 })
    unnumbered s = record {
      needs_context = s.needs_context;
      driver_handle = s.driver_handle;
      interface_handle = s.interface_handle;
    }

abbrev calls_kept : (P : Platform) → Traced P → Kept P
calls_kept P T = record {
  Rel = λ w w'. T.calls w' ≡ T.calls w;
  same = λ w. refl;
  chain = λ u v w p q. q ∙ p;
  bulk = T.at_bulk;
}

module _ (P : Platform) (T : Traced P) (C : Clock P)
    (ticks : (w : P.World) → T.calls (C.time w).1 ≡ T.calls w) where
  close_after-Moves :
      (x : Exit) (o : Outcome P.World) (n : ℕ) (w : P.World)
      → (close_after P C x o).exit ≡ exited n
      → Moves P T w o.state.world nothing (held_by_any o.state.device)
      → ((d : Device) → o.state.device ≡ some d → IsSound d)
      → Moves P T w (close_after P C x o).world nothing nothing
  unfolding close_after
  close_after-Moves (exited m) o n w p moves sound =
      closes P T o.state.device w o.state.world nothing moves sound
  close_after-Moves undefined o n w p moves sound = absurd (cc)
  close_after-Moves running o n w p moves sound = absurd (cc)

  run_opened-Moves :
      (fuel : ℕ) (argv0 command : List ℕ) (args : List (List ℕ)) (r : Ret Done)
      (device : Option Device) (w v : P.World) (n : ℕ)
      → Settled P T default_open_options w nothing (record { ret = r; device = device; world = v })
      → (run_opened P C fuel argv0 command args r device v).exit ≡ exited n
      → Moves P T w (run_opened P C fuel argv0 command args r device v).world nothing nothing
  unfolding run_opened
  run_opened-Moves fuel argv0 command args (ok u) device w v n s p =
      close_after-Moves o.exit o n w p
        (subst (λ (h : Held). Moves P T w o.state.world nothing h) same_held
          (Moves-trans P T s.moves (
            Moves-none P T v o.state.world (held_by_any device)
              (along.world ∙ sym (append-nil (T.calls v))))))
        (along-IsSound device o.state.device along.device
          (Settled-IsSound P T default_open_options w nothing opened s))
    where
      opened : Opened P.World
      opened = record { ret = ok tt; device = device; world = v }

      o : Outcome P.World
      o = dispatch P C fuel argv0 command args (record { device = device; world = v })

      along : Along P (calls_kept P T) (record { device = device; world = v }) o.state
      along =
          dispatch-Leads P (calls_kept P T) C ticks fuel argv0 command args
            (record { device = device; world = v })

      same_held : held_by_any device ≡ held_by_any o.state.device
      same_held =
          sym (held_by_any-parts device)
          ∙ ap held_by_any (sym along.device)
          ∙ held_by_any-parts o.state.device
  run_opened-Moves fuel argv0 command args (err e) device w v n s p =
      subst (λ (h : Option Device). Moves P T w v nothing (held_by_any h)) (s.failure (λ q. cc))
        s.moves
  run_opened-Moves fuel argv0 command args fault device w v n s p = absurd (cc)

  -- Where each call is recorded with its arguments, one that takes if it succeeded and one that
  -- gives back when it is made, the reading of the clock is none, and a successful `libusb_init`
  -- sets the context: every run of the tool that
  -- ends, whatever its arguments are and whatever the device answers, asks for everything that it
  -- took to be given back, in order and with the pointer and the number that it was taken with: the
  -- interface, the kernel's driver, the handle, the context and the memory.
  pub main-Moves :
      (fuel : ℕ) (argv : List (List ℕ)) (w : P.World) (n : ℕ)
      → (main P C fuel argv w).exit ≡ exited n
      → Moves P T w (main P C fuel argv w).world nothing nothing
  unfolding main open_default options_or_default
  main-Moves fuel [] w n p = absurd (cc)
  main-Moves fuel (argv0 ∷ []) w n p = Moves-refl P T w nothing
  main-Moves fuel (argv0 ∷ command ∷ args) w n p =
      let o = open_device P (some default_open_options) there w in
      run_opened-Moves fuel argv0 command args o.ret o.device w o.world n
        (open_device-Settled P T (some default_open_options) there w) p
