-- ===== src/Cli/Debug/Steps.antt =====
-- The request by hand goes along.
use Prim.Native.String.{String}
use usbmux_tool.Base.{
  ℕ, Bool, true, false, Done, Bool-cases, inl, inr, some, List, replicate, length, take, ◌++◌, drop,
  ℤ, pos, negsuc, int_of_size, size_of_int, is_nonpositive, not, leb, ltb, Ret, there, ◌&&◌,
}
use usbmux_tool.Proto.Words.{u16}
use usbmux_tool.Proto.Header.{Header, max_frame_len}
use usbmux_tool.Proto.Codec.{decode_header, Built}
use usbmux_tool.Device.Platform.{Platform}
use usbmux_tool.Device.State.{State, next_seq, timeout_ms}
use usbmux_tool.Device.Along.{Kept, Along, Along-refl, Along-trans, next_seq-Along}
use usbmux_tool.Device.Write.{ep_frame_out}
use usbmux_tool.Device.Read.{ep_frame_in, ep_packet_size}
use usbmux_tool.Device.Hint.{DebugOut, debug_bulk_transfer}
use usbmux_tool.Device.Hint.Steps.{debug_bulk_transfer-Along}
use usbmux_tool.Exchange.Accept.{or_empty}
use usbmux_tool.Cli.Ending.{Outcome, return}
use usbmux_tool.Cli.Debug.{
  int_or_zero, int_less, int_sum, dump_window, show_remainder, read_remainder, show_header,
  show_answer, send_by_hand, cmd_debug_xfer,
}
use usbmux_tool.Cli.Steps.{Leads, branch-Leads, stays}

module _ (P : Platform) (K : Kept P) where
  dump_window-Leads :
      (b : Bool) (title : String) (bytes : List ℕ) (count : ℤ) (rest : Outcome P.World)
      (s : State P.World)
      → Leads P K s rest
      → Leads P K s (dump_window b title bytes count rest)
  unfolding dump_window
  dump_window-Leads false title bytes count rest s h = h
  dump_window-Leads true title bytes count rest s h =
      elim (Bool-cases (leb (size_of_int count) (length bytes))) [
        | inl fits ↦ rw fits h
        | inr short ↦ rw short h
      ]

  show_remainder-Leads :
      (bytes : List ℕ) (n : ℕ) (o : DebugOut P.World) (s : State P.World)
      → Along P K s o.state
      → Leads P K s (show_remainder P bytes n o)
  unfolding show_remainder
  show_remainder-Leads bytes n o s h =
      dump_window-Leads (not (is_nonpositive (int_or_zero o.transferred))) "EP2 IN combined"
        (take n bytes ++ or_empty o.bytes) (int_sum (pos n) (int_or_zero o.transferred))
        (return 0 o.state) s h

  read_remainder-Leads :
      (h : Header) (bytes : List ℕ) (count : ℤ) (s : State P.World)
      → Leads P K s (read_remainder P h bytes count s)
  unfolding read_remainder
  read_remainder-Leads h bytes (pos n) s =
      elim (Bool-cases (ltb (u16 n) h.total_len && leb h.total_len max_frame_len)) [
        | inr all ↦ rw all (Along-refl P K s)
        | inl more ↦ elim (Bool-cases (leb n (length bytes))) [
          | inr short ↦ rw more (rw short (Along-refl P K s))
          | inl fits ↦ rw more (
              rw fits (
                show_remainder-Leads bytes n
                  (debug_bulk_transfer P ep_frame_in (some (drop n bytes))
                    (int_less h.total_len (pos n)) (timeout_ms s.device) s)
                  s
                  (debug_bulk_transfer-Along P K ep_frame_in (some (drop n bytes))
                    (int_less h.total_len (pos n)) (timeout_ms s.device) s)))
        ]
      ]
  read_remainder-Leads h bytes (negsuc n) s =
      elim (Bool-cases
        (ltb (u16 (size_of_int (negsuc n))) h.total_len && leb h.total_len max_frame_len)) [
          | inr all ↦ rw all (Along-refl P K s)
          | inl more ↦ rw more (Along-refl P K s)
        ]

  show_header-Leads :
      (bytes : List ℕ) (count : ℤ) (r : Ret Done × State P.World) (s : State P.World)
      → Along P K s r.1
      → Leads P K s (show_header P bytes count r)
  unfolding show_header
  show_header-Leads bytes count r s h =
      branch-Leads P K s r _ _ h
        (λ done t.
          branch-Leads P K t (decode_header (some bytes) (size_of_int count) there, t) _ _
            (Along-refl P K t) (λ h u. read_remainder-Leads h bytes count u) (stays P K))
        (stays P K)

  show_answer-Leads :
      (o : DebugOut P.World) (s : State P.World)
      → Along P K s o.state
      → Leads P K s (show_answer P o)
  unfolding show_answer
  show_answer-Leads o s h =
      dump_window-Leads (not (is_nonpositive (int_or_zero o.transferred))) "EP2 IN raw"
        (or_empty o.bytes) (int_or_zero o.transferred)
        (show_header P (or_empty o.bytes) (int_or_zero o.transferred) (o.ret, o.state)) s
        (show_header-Leads (or_empty o.bytes) (int_or_zero o.transferred) (o.ret, o.state) s h)

  send_by_hand-Leads : (b : Built) (s : State P.World) → Leads P K s (send_by_hand P b s)
  unfolding send_by_hand
  send_by_hand-Leads b s =
      let o =
        debug_bulk_transfer P ep_frame_out (some b.dst) (int_of_size b.frame_len)
          (timeout_ms s.device) s in
      branch-Leads P K s (o.ret, o.state) _ _
        (debug_bulk_transfer-Along P K ep_frame_out (some b.dst) (int_of_size b.frame_len)
          (timeout_ms s.device) s)
        (λ done t.
          show_answer-Leads
            (debug_bulk_transfer P ep_frame_in (some (replicate max_frame_len 0))
              (pos ep_packet_size) (timeout_ms t.device) t)
            t
            (debug_bulk_transfer-Along P K ep_frame_in (some (replicate max_frame_len 0))
              (pos ep_packet_size) (timeout_ms t.device) t))
        (stays P K)

  pub cmd_debug_xfer-Leads : (s : State P.World) → Leads P K s (cmd_debug_xfer P s)
  unfolding cmd_debug_xfer
  cmd_debug_xfer-Leads s = Along-trans P K s (next_seq s).1 _ (next_seq-Along P K s) (
      branch-Leads P K (next_seq s).1 (_, (next_seq s).1) _ _ (Along-refl P K (next_seq s).1)
        send_by_hand-Leads (stays P K))
