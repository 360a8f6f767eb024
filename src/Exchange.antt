-- ===== src/Exchange.antt =====
-- The request and response exchange, the static `transact` of userspace/src/uart.c. The one of
-- userspace/src/ble.c is in the module Ble.
pub mod Accept
pub mod Payload
pub mod Answer
pub mod Delivery
pub mod Arrival
pub mod Laws
pub mod Query
pub mod Steps
use usbmux_tool.Base.{ℕ, Option, none, some, List, Done, Ret, err, err_arg, there}
use usbmux_tool.Proto.Header.{Header, zero_header, max_frame_len}
use usbmux_tool.Proto.Codec.{build_frame}
use usbmux_tool.Device.Platform.{Platform}
use usbmux_tool.Device.State.{Device, State, Call, lift, ◌>>=◌, ◌>>◌, next_seq}
use usbmux_tool.Device.Write.{write_frame}
use usbmux_tool.Device.Read.{read_frame}
use Accept.{LocalFrame, local_frame, frame_buffer, Response, accept}

module _ (P : Platform) where
  -- `ch32mux_read_frame` into a local buffer.
  unfoldable pub read_local : Call P.World LocalFrame
  read_local s =
      let out = read_frame P (some frame_buffer) max_frame_len (some 0) s in
      (local_frame out.ret out, out.state)

  -- `ch32mux_build_frame` into a local buffer and `ch32mux_write_frame` of the result.
  unfoldable pub send_frame : Header → Option (List ℕ) → ℕ → Call P.World Done
  send_frame h payload payload_len = do
    b ← lift (build_frame (some frame_buffer) max_frame_len there (some h) payload payload_len)
    write_frame P (some b.dst) b.frame_len

  abbrev pub request : ℕ → ℕ → ℕ → ℕ → ℕ → Header
  request seq ch_type ch_id msg_type opcode = record zero_header {
    seq = seq;
    ch_type = ch_type;
    ch_id = ch_id;
    msg_type = msg_type;
    opcode = opcode;
  }

  unfoldable pub transact_on :
      Option Device
      → ℕ
      → ℕ
      → ℕ
      → ℕ
      → Option (List ℕ)
      → ℕ
      → Option (List ℕ)
      → ℕ
      → Call P.World Response
  transact_on none ch_type ch_id msg_type opcode payload payload_len rsp_payload rsp_capacity s =
      (err err_arg, s)
  transact_on (some d) ch_type ch_id msg_type opcode payload payload_len rsp_payload rsp_capacity
        s =
      let (seq, s') = next_seq s in
      (do
        send_frame (request seq ch_type ch_id msg_type opcode) payload payload_len
        frame ← read_local
        lift (accept frame seq ch_type ch_id opcode rsp_payload rsp_capacity))
        s'

  -- `transact` of userspace/src/uart.c; the device that it is called with is that of the state.
  unfoldable pub transact :
      ℕ → ℕ → ℕ → ℕ → Option (List ℕ) → ℕ → Option (List ℕ) → ℕ → Call P.World Response
  unfolding transact_on
  transact ch_type ch_id msg_type opcode payload payload_len rsp_payload rsp_capacity s =
      transact_on s.device ch_type ch_id msg_type opcode payload payload_len rsp_payload
        rsp_capacity s
