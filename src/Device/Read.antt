-- ===== src/Device/Read.antt =====
-- `ch32mux_read_frame` of userspace/src/device.c.
pub mod Stage
pub mod Steps
pub mod Laws
pub mod Progress
use usbmux_tool.Base.{
  ℕ, zero, suc, ◌+◌, ◌-◌, ◌%◌, ◌^◌, Bool, true, false, ◌&&◌, not, Option, none, some, List, length,
  take, drop, splice, Ret, Done, ok, err, fault, err_arg, err_overflow, err_io, ℤ, pos, negsuc,
  int_eq, int_lt, is_nonpositive, int_of_size, size_of_int, Dest, null, there, ltb, leb, ◌==◌,
  if◌then◌else◌,
}
use usbmux_tool.Proto.Header.{Header, header_size}
use usbmux_tool.Proto.Codec.{decode_header}
use usbmux_tool.Device.Platform.{Platform, Transfer}
use usbmux_tool.Device.State.{Device, State, Call, map_libusb_error}
use usbmux_tool.Device.Write.{u64, window}

-- CH32MUX_EP_FRAME_IN and CH32MUX_EP_PACKET_SIZE
abbrev pub ep_frame_in : ℕ
ep_frame_in = 0x82

abbrev pub ep_packet_size : ℕ
ep_packet_size = 64

-- What a read leaves behind: its result, the caller's buffer, which changes on errors too,
-- `*frame_len`, and the world.
pub record ReadOut (W : Type 0) : Type 0 where
  pub ret : Ret Done
  pub frame : List ℕ
  pub frame_len : ℕ
  pub world : W

-- `frame_capacity - offset` as `size_t`
abbrev pub room_left : ℕ → ℕ → ℕ
room_left capacity offset = u64 (capacity + 2 ^ 64 - offset)

-- The capacity of one transfer: at most a packet.
abbrev pub packet : ℤ → ℤ
packet capacity = if int_lt (pos ep_packet_size) capacity then pos ep_packet_size else capacity

-- The header that is complete now: the frame's length becomes the target, if it fits.
abbrev pub retarget : Ret Header → ℕ → Ret ℕ
retarget (ok h) capacity = if ltb capacity h.total_len then err err_overflow else ok h.total_len
retarget (err e) capacity = err e
retarget fault capacity = fault

-- The target after a round that reached `offset`.
pub next_target : List ℕ → ℕ → ℕ → ℕ → Ret ℕ
next_target frame capacity offset target =
    if target == header_size && leb header_size offset
    then retarget (decode_header (some frame) offset there) capacity
    else ok target

module _ (P : Platform) where
  abbrev resume :
      Ret ℕ → List ℕ → P.World → (ℕ → List ℕ → P.World → ReadOut P.World) → ReadOut P.World
  resume (ok target) frame w again = again target frame w
  resume (err e) frame w again = record { ret = err e; frame = frame; frame_len = 0; world = w }
  resume fault frame w again = record { ret = fault; frame = frame; frame_len = 0; world = w }

  -- What follows a transfer into `&frame[offset]`.
  pub read_round :
      Transfer P.World
      → List ℕ
      → ℕ
      → ℕ
      → ℕ
      → (ℕ → ℕ → List ℕ → P.World → ReadOut P.World)
      → ReadOut P.World
  unfolding map_libusb_error next_target
  read_round t old capacity offset target again =
      let frame = splice old offset t.buffer in
      let reached = u64 (offset + size_of_int t.transferred) in
      if not (int_eq t.status P.success)
      then record {
        ret = err (map_libusb_error P t.status);
        frame = frame;
        frame_len = 0;
        world = t.world;
      }
      else if is_nonpositive t.transferred
      then record { ret = err err_io; frame = frame; frame_len = 0; world = t.world }
      else resume (next_target frame capacity reached target) frame t.world (again reached)

  abbrev receive : Device → Option (List ℕ) → P.World → Option (Transfer P.World)
  receive d none w = none
  receive d (some bytes) w = some (P.bulk_transfer d.handle ep_frame_in bytes d.timeout_ms w)

  abbrev after_receive :
      Option (Transfer P.World)
      → List ℕ
      → ℕ
      → ℕ
      → ℕ
      → (ℕ → ℕ → List ℕ → P.World → ReadOut P.World)
      → P.World
      → ReadOut P.World
  after_receive none frame capacity offset target again w = record {
    ret = fault;
    frame = frame;
    frame_len = 0;
    world = w;
  }
  after_receive (some t) frame capacity offset target again w =
      read_round t frame capacity offset target again

  -- The loop; out of fuel it would be a `fault`.
  pub read_loop : ℕ → Device → ℕ → ℕ → ℕ → List ℕ → P.World → ReadOut P.World
  unfolding read_round
  read_loop zero d capacity offset target frame w = record {
    ret = fault;
    frame = frame;
    frame_len = 0;
    world = w;
  }
  read_loop (suc fuel) d capacity offset target frame w =
      let again =
        λ (o : ℕ) (t : ℕ) (f : List ℕ) (w' : P.World). read_loop fuel d capacity o t f w' in
      let left = int_of_size (room_left capacity offset) in
      if ltb offset target
      then if is_nonpositive left
        then record { ret = err err_overflow; frame = frame; frame_len = 0; world = w }
        else after_receive (receive d (window frame offset (packet left)) w) frame capacity offset
            target again w
      else record { ret = ok tt; frame = frame; frame_len = target; world = w }

-- A call of `ch32mux_read_frame` in a state: the frame buffer and `*frame_len` after it.
pub record FrameRead (W : Type 0) : Type 0 where
  pub ret : Ret Done
  pub frame : Option (List ℕ)
  pub frame_len : Option ℕ
  pub state : State W

module _ (P : Platform) where
  abbrev pub read_out : State P.World → ReadOut P.World → FrameRead P.World
  read_out s out = record {
    ret = out.ret;
    frame = some out.frame;
    frame_len = some out.frame_len;
    state = record s { world = out.world };
  }

  pub read_frame_on :
      Option Device → Option (List ℕ) → ℕ → Option ℕ → State P.World → FrameRead P.World
  unfolding read_loop
  read_frame_on (some d) (some frame) capacity (some frame_len) s =
      if ltb capacity header_size
      then record {
        ret = err err_overflow;
        frame = some frame;
        frame_len = some frame_len;
        state = s;
      }
      else read_out s (read_loop P (suc capacity) d capacity 0 header_size frame s.world)
  read_frame_on device frame capacity frame_len s = record {
    ret = err err_arg;
    frame = frame;
    frame_len = frame_len;
    state = s;
  }

  unfoldable pub read_frame : Option (List ℕ) → ℕ → Option ℕ → State P.World → FrameRead P.World
  unfolding read_frame_on
  read_frame frame capacity frame_len s = read_frame_on s.device frame capacity frame_len s
