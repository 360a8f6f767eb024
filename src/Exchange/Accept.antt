-- ===== src/Exchange/Accept.antt =====
-- What the exchanges do with a frame that was read: the checks on a response's header and the copy
-- of its payload, of the two static `transact`.
use usbmux_tool.Base.{
  ℕ, ◌+◌, ◌&&◌, ◌||◌, Option, none, some, List, length, length-replicate, ◌≡◌, take, drop, splice,
  replicate, Ret, Done, ok, err, fault, err_arg, err_proto, err_device_status, err_overflow,
  fail_if, in_bounds, ◌>>=◌, ◌>>◌, there, ltb, leb, ◌!=◌, if◌then◌else◌,
}
use usbmux_tool.Proto.Header.{Header, header_size, max_frame_len}
use usbmux_tool.Proto.Constants.{msg_rsp}
use usbmux_tool.Proto.Codec.{decode_header, is_null}
use usbmux_tool.Device.Read.{FrameRead}

-- A local `uint8_t buffer[CH32MUX_MAX_FRAME_LEN]`. C leaves it uninitialised; here it holds zeros,
-- and the theorems on reads say that only bytes that were received are looked at.
unfoldable pub frame_buffer : List ℕ
frame_buffer = replicate max_frame_len 0

pub length-frame_buffer : length frame_buffer ≡ 512
unfolding frame_buffer
length-frame_buffer = length-replicate {A = ℕ} 512 0

-- A frame in a local buffer, and its length.
pub record LocalFrame : Type 0 where
  pub bytes : List ℕ
  pub frame_len : ℕ

abbrev pub or_empty : Option (List ℕ) → List ℕ
or_empty none = List.[]
or_empty (some bytes) = bytes

abbrev pub or_zero : Option ℕ → ℕ
or_zero none = 0
or_zero (some n) = n

-- The frame that a successful read left in the local buffer.
abbrev pub local_frame : {W : Type 0} → Ret Done → FrameRead W → Ret LocalFrame
local_frame (ok _) out =
    ok (record { bytes = or_empty out.frame; frame_len = or_zero out.frame_len })
local_frame (err e) out = err e
local_frame fault out = fault

-- `memcpy(dst, &in[CH32MUX_HEADER_LEN], n)` where there is something to copy.
unfoldable pub copy_out : Option (List ℕ) → List ℕ → ℕ → Ret (Option (List ℕ))
copy_out none frame n = ok none
copy_out (some dst) frame n = do
  in_bounds (leb n (length dst) && leb (header_size + n) (length frame))
  ok (some (splice dst 0 (take n (drop header_size frame))))

-- A response: its header, the caller's buffer and the length of the payload. A caller that passes
-- NULL for the header or the length does not look at them.
pub record Response : Type 0 where
  pub header : Header
  pub payload : Option (List ℕ)
  pub len : ℕ

-- The tests after `ch32mux_read_frame`: the header of the frame again, that it answers this
-- request, that the device reports success, and that the payload has a place to go.
unfoldable pub accept : LocalFrame → ℕ → ℕ → ℕ → ℕ → Option (List ℕ) → ℕ → Ret Response
unfolding copy_out
accept frame seq ch_type ch_id opcode rsp_payload rsp_capacity = do
  rsp ← decode_header (some frame.bytes) frame.frame_len there
  fail_if
      (rsp.msg_type != msg_rsp
        || rsp.ref_seq != seq
        || rsp.ch_type != ch_type
        || rsp.ch_id != ch_id
        || rsp.opcode != opcode)
      err_proto
  fail_if (rsp.status != 0) err_device_status
  fail_if (ltb rsp_capacity rsp.payload_len) err_overflow
  fail_if (rsp.payload_len != 0 && is_null rsp_payload) err_arg
  copied ←
      if rsp.payload_len != 0
      then copy_out rsp_payload frame.bytes rsp.payload_len
      else ok rsp_payload
  ok (record { header = rsp; payload = copied; len = rsp.payload_len })

-- `if(payload_len != n) return CH32MUX_ERR_PROTO;` and then the fields of the local payload.
abbrev pub fields_of : {A : Type 0} → ℕ → (List ℕ → A) → Response → Ret A
fields_of n parse r = do fail_if (r.len != n) err_proto; ok (parse (or_empty r.payload))
