-- ===== src/Ble/Manage/Reply.antt =====
-- What the static `transact` of userspace/src/ble.c does with the frame that it has read.
use usbmux_tool.Base.{
  ℕ, ◌+◌, ◌&&◌, ◌||◌, Option, none, some, List, length, take, drop, splice, Ret, ok, err_arg,
  err_proto, err_device_status, err_overflow, fail_if, in_bounds, ◌>>=◌, ◌>>◌, there, ltb, leb,
  ◌!=◌, if◌then◌else◌, ◌≡◌, refl,
}
use usbmux_tool.Proto.Header.{header_size}
use usbmux_tool.Proto.Constants.{ch_ble_mgmt, msg_rsp}
use usbmux_tool.Proto.Codec.{decode_header, is_null}
use usbmux_tool.Exchange.Accept.{LocalFrame, Response, accept, copy_out}

-- `memcpy(rsp_payload, &in[CH32MUX_HEADER_LEN], rsp.payload_len)` where there is something to copy.
unfoldable pub copy_reply : Option (List ℕ) → List ℕ → ℕ → Ret (Option (List ℕ))
copy_reply none bytes n = ok none
copy_reply (some dst) bytes n = do
  in_bounds (leb n (length dst) && leb (header_size + n) (length bytes))
  ok (some (splice dst 0 (take n (drop header_size bytes))))

-- From `ch32mux_decode_header` on: the tests on the answer to the request `seq`.
unfoldable pub accept_reply : LocalFrame → ℕ → ℕ → Option (List ℕ) → ℕ → Ret Response
unfolding copy_reply
accept_reply frame seq opcode rsp_payload rsp_capacity = do
  rsp ← decode_header (some frame.bytes) frame.frame_len there
  fail_if
      (rsp.msg_type != msg_rsp
        || rsp.ref_seq != seq
        || rsp.ch_type != ch_ble_mgmt
        || rsp.ch_id != 0
        || rsp.opcode != opcode)
      err_proto
  fail_if (rsp.status != 0) err_device_status
  fail_if (ltb rsp_capacity rsp.payload_len) err_overflow
  fail_if (rsp.payload_len != 0 && is_null rsp_payload) err_arg
  copied ←
      if rsp.payload_len != 0
      then copy_reply rsp_payload frame.bytes rsp.payload_len
      else ok rsp_payload
  ok (record { header = rsp; payload = copied; len = rsp.payload_len })

-- The tests are those of userspace/src/uart.c for the channel CH32MUX_CH_BLE_MGMT, number 0.
pub accept_reply-accept :
    (frame : LocalFrame) (seq opcode : ℕ) (dst : Option (List ℕ)) (capacity : ℕ)
    → accept_reply frame seq opcode dst capacity ≡ accept frame seq 0x10 0 opcode dst capacity
unfolding accept_reply accept copy_reply copy_out
accept_reply-accept frame seq opcode none capacity = refl
accept_reply-accept frame seq opcode (some dst) capacity = refl
