-- ===== src/Cli/Debug.antt =====
-- `cmd_debug_xfer`: one request by hand, and the raw answer.
pub mod Steps
use Prim.Native.String.{String}
use usbmux_tool.Base.{
  ℕ, ◌+◌, ◌-◌, Bool, ◌&&◌, not, Option, none, some, List, [], ◌∷◌, ◌++◌, replicate, length, take,
  drop, ℤ, pos, negsuc, int_of_size, size_of_int, is_nonpositive, Ret, Done, Code, ok, err, fault,
  there, ltb, leb, if◌then◌else◌,
}
use usbmux_tool.Proto.Words.{u16}
use usbmux_tool.Proto.Header.{Header, zero_header, max_frame_len}
use usbmux_tool.Proto.Constants.{ch_sys, msg_cmd, sys_get_dev_info_op}
use usbmux_tool.Proto.Codec.{Built, decode_header, build_frame}
use usbmux_tool.Proto.Names.{code_number, result_name}
use usbmux_tool.Device.Platform.{Platform}
use usbmux_tool.Device.State.{State, next_seq, timeout_ms}
use usbmux_tool.Device.Write.{ep_frame_out}
use usbmux_tool.Device.Read.{ep_frame_in, ep_packet_size}
use usbmux_tool.Device.Hint.{DebugOut, debug_bulk_transfer}
use usbmux_tool.Exchange.{request}
use usbmux_tool.Exchange.Accept.{frame_buffer, or_empty}
use usbmux_tool.Cli.Console.{Printed, Arg, fprintf, stdout, number, integer, name, dump_hex}
use usbmux_tool.Cli.Ending.{Outcome, return, undefined_at, print, branch, give_up, code_name}

-- `ch32mux_result_name(ret)`
unfoldable pub ret_name : Ret Done → String
unfolding result_name
ret_name (ok done) = result_name (pos 0)
ret_name (err e) = code_name e
ret_name fault = ""

-- `*transferred` and `*libusb_status`, which are 0 before the call.
abbrev pub int_or_zero : Option ℤ → ℤ
int_or_zero none = pos 0
int_or_zero (some v) = v

-- `(int)total - transferred`
unfoldable pub int_less : ℕ → ℤ → ℤ
int_less total (pos n) = if leb n total then pos (total - n) else negsuc (n - total - 1)
int_less total (negsuc n) = pos (total + n + 1)

abbrev pub int_sum : ℤ → ℤ → ℤ
int_sum (pos a) (pos b) = pos (a + b)
int_sum (pos a) (negsuc b) = if ltb b a then pos (a - b - 1) else negsuc (b - a)
int_sum (negsuc a) (pos b) = if ltb a b then pos (b - a - 1) else negsuc (a - b)
int_sum (negsuc a) (negsuc b) = negsuc (a + b + 1)

-- `if(count > 0) dump_hex(title, in, (size_t)count);` with the rest: undefined if `in` is shorter.
unfoldable pub dump_window : {W : Type 0} → Bool → String → List ℕ → ℤ → Outcome W → Outcome W
dump_window shown title bytes count rest =
    if shown
    then if leb (size_of_int count) (length bytes)
      then print (dump_hex title (take (size_of_int count) bytes)) rest
      else undefined_at rest.state
    else rest

abbrev pub header_lines : Header → List Printed
header_lines h =
    fprintf stdout
      "rsp magic=0x%04X seq=%u ref=%u ch=0x%02X id=%u msg=0x%02X op=0x%02X status=0x%04X payload=%u total=%u\n"
      (number h.magic
        ∷ number h.seq
        ∷ number h.ref_seq
        ∷ number h.ch_type
        ∷ number h.ch_id
        ∷ number h.msg_type
        ∷ number h.opcode
        ∷ number h.status
        ∷ number h.payload_len
        ∷ number h.total_len
        ∷ [])
    ∷ []

module _ (P : Platform) where
  abbrev pub status_args : DebugOut P.World → List Arg
  unfolding ret_name
  status_args o =
      name (ret_name o.ret)
      ∷ integer (int_or_zero o.libusb_status)
      ∷ name (P.error_name (int_or_zero o.libusb_status))
      ∷ integer (int_or_zero o.transferred)
      ∷ []

  -- The remainder of a longer answer was asked for at `&in[n]`.
  unfoldable pub show_remainder : List ℕ → ℕ → DebugOut P.World → Outcome P.World
  show_remainder bytes n o =
      print
        (fprintf stdout "bulk IN remainder ret=%s libusb=%d(%s) transferred=%d\n" (status_args o)
          ∷ [])
        (dump_window (not (is_nonpositive (int_or_zero o.transferred))) "EP2 IN combined"
          (take n bytes ++ or_empty o.bytes) (int_sum (pos n) (int_or_zero o.transferred))
          (return 0 o.state))

  unfoldable pub read_remainder : Header → List ℕ → ℤ → State P.World → Outcome P.World
  unfolding show_remainder int_less
  read_remainder h bytes (pos n) s =
      if ltb (u16 n) h.total_len && leb h.total_len max_frame_len
      then if leb n (length bytes)
        then show_remainder bytes n (
            debug_bulk_transfer P ep_frame_in (some (drop n bytes)) (int_less h.total_len (pos n))
              (timeout_ms s.device) s)
        else undefined_at s
      else return 0 s
  read_remainder h bytes (negsuc n) s =
      if ltb (u16 (size_of_int (negsuc n))) h.total_len && leb h.total_len max_frame_len
      then undefined_at s
      else return 0 s

  -- The first packet of the answer, decoded.
  unfoldable pub show_header : List ℕ → ℤ → Ret Done × State P.World → Outcome P.World
  unfolding read_remainder ret_name
  show_header bytes count r =
      branch r
        (λ done t.
          branch (decode_header (some bytes) (size_of_int count) there, t)
            (λ h u.
              print
                (fprintf stdout "decode ret=%s\n" (name (ret_name (ok tt)) ∷ []) ∷ header_lines h)
                (read_remainder h bytes count u))
            (λ e u.
              print (fprintf stdout "decode ret=%s\n" (name (code_name e) ∷ []) ∷ []) (return 1 u)))
        (λ e t. return 1 t)

  unfoldable pub show_answer : DebugOut P.World → Outcome P.World
  unfolding show_header dump_window ret_name
  show_answer o =
      print
        (fprintf stdout "bulk IN ep=0x%02X ret=%s libusb=%d(%s) transferred=%d\n"
            (number ep_frame_in ∷ status_args o)
          ∷ [])
        (dump_window (not (is_nonpositive (int_or_zero o.transferred))) "EP2 IN raw"
          (or_empty o.bytes) (int_or_zero o.transferred)
          (show_header (or_empty o.bytes) (int_or_zero o.transferred) (o.ret, o.state)))

  unfoldable pub send_by_hand : Built → State P.World → Outcome P.World
  unfolding show_answer
  send_by_hand b s =
      let o =
        debug_bulk_transfer P ep_frame_out (some b.dst) (int_of_size b.frame_len)
          (timeout_ms s.device) s in
      print
        (fprintf stdout "timeout=%u ms\n" (number (timeout_ms s.device) ∷ [])
          ∷ (dump_hex "EP3 OUT GET_DEV_INFO" (take b.frame_len b.dst)
              ++ fprintf stdout "bulk OUT ep=0x%02X ret=%s libusb=%d(%s) transferred=%d\n"
                  (number ep_frame_out ∷ status_args o)
                ∷ []))
        (branch (o.ret, o.state)
          (λ done t. show_answer (
            debug_bulk_transfer P ep_frame_in (some (replicate max_frame_len 0))
              (pos ep_packet_size) (timeout_ms t.device) t))
          (λ e t. return 1 t))

  unfoldable pub cmd_debug_xfer : State P.World → Outcome P.World
  unfolding send_by_hand
  cmd_debug_xfer s =
      let (seq, t) = next_seq s in
      branch
        (
          build_frame (some frame_buffer) max_frame_len there
              (some (request P seq ch_sys 0 msg_cmd sys_get_dev_info_op)) none 0,
          t,
        )
        send_by_hand (give_up "build frame failed: %s\n")
