-- ===== src/Device/Hint.antt =====
-- `ch32mux_read_hint` and `ch32mux_debug_bulk_transfer` of userspace/src/device.c.
pub mod Steps
use usbmux_tool.Base.{
  ℕ, not, Option, none, some, List, length, take, drop, replicate, ◌++◌, Ret, Done, ok, err, fault,
  err_arg, err_proto, ℤ, pos, int_eq, is_nonpositive, Dest, there, leb, if◌then◌else◌,
}
use usbmux_tool.Proto.Hint.{IrqHint, hint_size, parse_irq_hint}
use usbmux_tool.Device.Platform.{Platform, Transfer}
use usbmux_tool.Device.State.{Device, State, Call, map_libusb_error}

-- CH32MUX_EP_HINT_IN
abbrev pub ep_hint_in : ℕ
ep_hint_in = 0x81

module _ (P : Platform) where
  -- What follows the interrupt transfer into the local `raw`.
  pub hint_round : Transfer P.World → Ret IrqHint
  unfolding map_libusb_error
  hint_round t =
      if not (int_eq t.status P.success)
      then err (map_libusb_error P t.status)
      else if not (int_eq t.transferred (pos hint_size))
      then err err_proto
      else parse_irq_hint (some t.buffer) hint_size there

  pub read_hint_on : Option Device → Dest → Call P.World IrqHint
  unfolding hint_round
  read_hint_on (some d) there s =
      let raw = replicate hint_size 0 in
      let t = P.interrupt_transfer d.handle ep_hint_in raw d.timeout_ms s.world in
      (hint_round t, record s { world = t.world })
  read_hint_on device hint s = (err err_arg, s)

  unfoldable pub read_hint : Dest → Call P.World IrqHint
  unfolding read_hint_on
  read_hint hint s = read_hint_on s.device hint s

-- The caller's buffer, `*transferred` and `*libusb_status` after a debug transfer. The two are
-- left alone on an argument error, where they are `none`; a caller's NULL for one of them is a
-- caller that does not look at it.
pub record DebugOut (W : Type 0) : Type 0 where
  pub ret : Ret Done
  pub bytes : Option (List ℕ)
  pub transferred : Option ℤ
  pub libusb_status : Option ℤ
  pub state : State W

module _ (P : Platform) where
  unfoldable pub debug_done : Transfer P.World → List ℕ → State P.World → DebugOut P.World
  unfolding map_libusb_error
  debug_done t rest s = record {
    ret = if int_eq t.status P.success then ok tt else err (map_libusb_error P t.status);
    bytes = some (t.buffer ++ rest);
    transferred = some t.transferred;
    libusb_status = some t.status;
    state = record s { world = t.world };
  }

  abbrev debug_refused : Ret Done → Option (List ℕ) → State P.World → DebugOut P.World
  debug_refused r bytes s = record {
    ret = r;
    bytes = bytes;
    transferred = none;
    libusb_status = none;
    state = s;
  }

  -- The first `length` bytes of `data` are handed to libusb.
  unfoldable pub debug_transfer_on :
      Option Device → ℕ → Option (List ℕ) → ℤ → ℕ → State P.World → DebugOut P.World
  unfolding debug_done
  debug_transfer_on (some d) endpoint (some bytes) (pos n) timeout s =
      if is_nonpositive (pos n)
      then debug_refused (err err_arg) (some bytes) s
      else if leb n (length bytes)
      then debug_done (P.bulk_transfer d.handle endpoint (take n bytes) timeout s.world)
          (drop n bytes) s
      else debug_refused fault (some bytes) s
  debug_transfer_on device endpoint bytes n timeout s = debug_refused (err err_arg) bytes s

  unfoldable pub debug_bulk_transfer :
      ℕ → Option (List ℕ) → ℤ → ℕ → State P.World → DebugOut P.World
  unfolding debug_transfer_on
  debug_bulk_transfer endpoint bytes n timeout s =
      debug_transfer_on s.device endpoint bytes n timeout s
