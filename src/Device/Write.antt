-- ===== src/Device/Write.antt =====
-- `ch32mux_write_frame` and `ch32mux_debug_bulk_transfer` of userspace/src/device.c.
pub mod Laws
pub mod Progress
pub mod Steps
use usbmux_tool.Base.{
  ℕ, zero, suc, ◌+◌, ◌-◌, ◌%◌, ◌^◌, Bool, true, false, ◌||◌, not, Option, none, some, List, length,
  take, drop, Ret, Done, ok, err, fault, err_arg, err_overflow, err_io, ℤ, pos, negsuc, int_eq,
  is_nonpositive, int_of_size, size_of_int, ltb, leb, ◌==◌, if◌then◌else◌,
}
use usbmux_tool.Proto.Header.{max_frame_len}
use usbmux_tool.Device.Platform.{Platform, Transfer}
use usbmux_tool.Device.State.{Device, State, Call, map_libusb_error}

-- CH32MUX_EP_FRAME_OUT
abbrev pub ep_frame_out : ℕ
ep_frame_out = 0x03

-- `(uint64_t)n`
abbrev pub u64 : ℕ → ℕ
u64 n = n % 2 ^ 64

-- The `n` bytes at `&frame[offset]`, handed to libusb: undefined where the buffer ends before.
abbrev pub window : List ℕ → ℕ → ℤ → Option (List ℕ)
window frame offset (negsuc n) = none
window frame offset (pos n) =
    if leb (offset + n) (length frame) then some (take n (drop offset frame)) else none

module _ (P : Platform) where
  -- One round, with what comes after it: the transfer's result decides.
  pub write_round : Transfer P.World → ℕ → (ℕ → P.World → Ret Done × P.World) → Ret Done × P.World
  unfolding map_libusb_error
  write_round t offset again =
      if not (int_eq t.status P.success)
      then (err (map_libusb_error P t.status), t.world)
      else if is_nonpositive t.transferred
      then (err err_io, t.world)
      else again (u64 (offset + size_of_int t.transferred)) t.world

  abbrev send : Device → Option (List ℕ) → P.World → Option (Transfer P.World)
  send d none w = none
  send d (some bytes) w = some (P.bulk_transfer d.handle ep_frame_out bytes d.timeout_ms w)

  abbrev after_send :
      Option (Transfer P.World)
      → P.World
      → ℕ
      → (ℕ → P.World → Ret Done × P.World)
      → Ret Done × P.World
  after_send none w offset again = (fault, w)
  after_send (some t) w offset again = write_round t offset again

  -- The loop of `ch32mux_write_frame`; out of fuel it would be a `fault` too.
  pub write_loop : ℕ → Device → List ℕ → ℕ → ℕ → P.World → Ret Done × P.World
  unfolding write_round
  write_loop zero d frame frame_len offset w = (fault, w)
  write_loop (suc fuel) d frame frame_len offset w =
      let again = λ (o : ℕ) (w' : P.World). write_loop fuel d frame frame_len o w' in
      let chunk = int_of_size (frame_len - offset) in
      if ltb offset frame_len
      then after_send (send d (window frame offset chunk) w) w offset again
      else (ok tt, w)

  pub write_frame_on :
      Option Device → Option (List ℕ) → ℕ → State P.World → Ret Done × State P.World
  unfolding write_loop
  write_frame_on (some d) (some frame) frame_len s =
      if frame_len == 0 || ltb max_frame_len frame_len
      then (err err_overflow, s)
      else let (r, w) = write_loop (suc frame_len) d frame frame_len 0 s.world in
        (r, record s { world = w })
  write_frame_on device frame frame_len s = (err err_arg, s)

  unfoldable pub write_frame : Option (List ℕ) → ℕ → Call P.World Done
  unfolding write_frame_on
  write_frame frame frame_len s = write_frame_on s.device frame frame_len s
