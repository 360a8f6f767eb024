-- ===== src/Ble/Manage.antt =====
-- The static `transact` of userspace/src/ble.c and the calls that are made with it.
pub mod Laws
pub mod Reply
use usbmux_tool.Base.{
  ℕ, Option, none, some, List, replicate, set, byte_at, ok, err, err_arg, Dest, null, there,
}
use usbmux_tool.Proto.Words.{read_le16, write_le16}
use usbmux_tool.Proto.Header.{Header, zero_header, max_frame_len}
use usbmux_tool.Proto.Constants.{
  ch_ble_mgmt, msg_cmd, ble_get_cap_op, ble_set_scan_param_op, ble_scan_start_op, ble_scan_stop_op,
}
use usbmux_tool.Proto.Codec.{build_frame}
use usbmux_tool.Device.Platform.{Platform}
use usbmux_tool.Device.State.{Device, Call, lift, next_seq, ◌>>=◌, ◌>>◌}
use usbmux_tool.Device.Write.{write_frame}
use usbmux_tool.Device.Read.{read_frame}
use usbmux_tool.Exchange.Accept.{LocalFrame, local_frame, frame_buffer, Response, fields_of}
use Reply.{accept_reply}

-- The header of a command of the radio.
abbrev pub command_header : ℕ → ℕ → Header
command_header seq opcode = record zero_header {
  seq = seq;
  ch_type = ch_ble_mgmt;
  ch_id = 0;
  msg_type = msg_cmd;
  opcode = opcode;
}

module _ (P : Platform) where
  -- `ch32mux_read_frame(device, in, sizeof(in), &in_len)`
  unfoldable pub receive_reply : Call P.World LocalFrame
  receive_reply s =
      let out = read_frame P (some frame_buffer) max_frame_len (some 0) s in
      (local_frame out.ret out, out.state)

  unfoldable pub transact_on :
      Option Device → ℕ → Option (List ℕ) → ℕ → Option (List ℕ) → ℕ → Call P.World Response
  transact_on none opcode payload payload_len rsp_payload rsp_capacity s = (err err_arg, s)
  transact_on (some d) opcode payload payload_len rsp_payload rsp_capacity s =
      let (seq, s') = next_seq s in
      (do
        b ← lift (
            build_frame (some frame_buffer) max_frame_len there (some (command_header seq opcode))
              payload payload_len)
        write_frame P (some b.dst) b.frame_len
        frame ← receive_reply
        lift (accept_reply frame seq opcode rsp_payload rsp_capacity))
        s'

  -- `transact` of userspace/src/ble.c
  unfoldable pub transact : ℕ → Option (List ℕ) → ℕ → Option (List ℕ) → ℕ → Call P.World Response
  unfolding transact_on
  transact opcode payload payload_len rsp_payload rsp_capacity s =
      transact_on s.device opcode payload payload_len rsp_payload rsp_capacity s

-- `ch32mux_ble_cap_t`
pub record BleCap : Type 0 where
  pub max_links : ℕ
  pub supports_scan : ℕ
  pub supports_connect : ℕ
  pub supports_gatt : ℕ
  pub scan_interval : ℕ
  pub scan_window : ℕ

pub ble_cap_of : List ℕ → BleCap
ble_cap_of payload = record {
  max_links = byte_at payload 0;
  supports_scan = byte_at payload 1;
  supports_connect = byte_at payload 2;
  supports_gatt = byte_at payload 3;
  scan_interval = read_le16 payload 4;
  scan_window = read_le16 payload 6;
}

-- The arguments of `ch32mux_ble_set_scan_param`.
pub record ScanParam : Type 0 where
  pub interval : ℕ
  pub window : ℕ
  pub duration : ℕ
  pub mode : ℕ
  pub active : ℕ
  pub white_list : ℕ

unfoldable pub scan_payload : ScanParam → List ℕ
scan_payload p =
    let with_interval = write_le16 (replicate 9 0) 0 p.interval in
    let with_window = write_le16 with_interval 2 p.window in
    let with_duration = write_le16 with_window 4 p.duration in
    let with_mode = set with_duration 6 p.mode in
    let with_active = set with_mode 7 p.active in set with_active 8 p.white_list

module _ (P : Platform) where
  unfoldable pub ble_get_cap : Dest → Call P.World BleCap
  unfolding ble_cap_of
  ble_get_cap null s = (err err_arg, s)
  ble_get_cap there s =
      (do
        r ← transact P ble_get_cap_op none 0 (some (replicate 8 0)) 8
        lift (fields_of 8 ble_cap_of r))
        s

  unfoldable pub ble_set_scan_param : ScanParam → Call P.World Response
  unfolding scan_payload
  ble_set_scan_param p = transact P ble_set_scan_param_op (some (scan_payload p)) 9 none 0

  unfoldable pub ble_scan_start : Call P.World Response
  ble_scan_start = transact P ble_scan_start_op none 0 none 0

  unfoldable pub ble_scan_stop : Call P.World Response
  ble_scan_stop = transact P ble_scan_stop_op none 0 none 0
