-- ===== src/Ble/Event.antt =====
-- `ch32mux_ble_read_event`.
pub mod Laws
use usbmux_tool.Base.{
  ℕ, ◌&&◌, Option, some, List, Ret, ok, err, err_arg, err_proto, err_overflow, fail_if, ◌>>=◌, ◌>>◌,
  Dest, there, ltb, ◌!=◌, if◌then◌else◌,
}
use usbmux_tool.Proto.Constants.{msg_evt}
use usbmux_tool.Proto.Codec.{decode_header, is_null}
use usbmux_tool.Device.Platform.{Platform}
use usbmux_tool.Device.State.{Device, Call, continue}
use usbmux_tool.Exchange.{read_local}
use usbmux_tool.Exchange.Accept.{LocalFrame, Response, copy_out}

-- The tests on the frame that was read, and the copy of its payload; the result has the header,
-- the caller's buffer and `*payload_len`.
unfoldable pub take_event : LocalFrame → Option (List ℕ) → ℕ → Ret Response
take_event frame payload payload_capacity = do
  h ← decode_header (some frame.bytes) frame.frame_len there
  fail_if (h.msg_type != msg_evt) err_proto
  fail_if (ltb payload_capacity h.payload_len) err_overflow
  fail_if (h.payload_len != 0 && is_null payload) err_arg
  copied ← if h.payload_len != 0 then copy_out payload frame.bytes h.payload_len else ok payload
  ok (record { header = h; payload = copied; len = h.payload_len })

module _ (P : Platform) where
  unfoldable pub ble_read_event_on :
      Option Device → Option (List ℕ) → ℕ → Dest → Call P.World Response
  ble_read_event_on (some d) payload payload_capacity there s =
      continue (read_local P s).0 (λ frame s'. (take_event frame payload payload_capacity, s'))
        (read_local P s).1
  ble_read_event_on device payload payload_capacity payload_len s = (err err_arg, s)

  -- The header may be NULL, which is a caller that does not look at it.
  unfoldable pub ble_read_event : Option (List ℕ) → ℕ → Dest → Call P.World Response
  unfolding ble_read_event_on
  ble_read_event payload payload_capacity payload_len s =
      ble_read_event_on s.device payload payload_capacity payload_len s
