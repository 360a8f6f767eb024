-- ===== src/Cli/Defined/Debug.antt =====
-- The request by hand on an open device.
use Prim.Native.String.{String}
use usbmux_tool.Base.{
  ℕ, ◌+◌, ◌≤◌, ◌≡◌, ◌≢◌, refl, ap, Bool, true, false, Bool-cases, inl, inr, Option, none, some,
  List, [], replicate, length, take, pos, Ret, Code, ok, err, fault, there, ltb, leb, not, ◌&&◌,
  if◌then◌else◌, arith,
}
use usbmux_tool.Device.Platform.{Platform, BulkLaws}
use usbmux_tool.Device.State.{State}
use usbmux_tool.Exchange.Accept.{or_empty}
use usbmux_tool.Base.{
  length-replicate, drop, subst, sym, length-append, length-take, length-drop, leb-true, pos_part,
  int_eq, is_nonpositive, ◌++◌, Done,
}
use usbmux_tool.Device.State.{Device}
use usbmux_tool.Device.Hint.{DebugOut, debug_done, debug_transfer_on, debug_bulk_transfer}
use usbmux_tool.Base.{◌-◌, ◌∙◌}
use usbmux_tool.Proto.Words.{u16}
use usbmux_tool.Proto.Header.{Header}
use usbmux_tool.Proto.Codec.{prepare, Built, decode_header}
use usbmux_tool.Proto.Codec.Prefix.{decode_header-defined_any}
use usbmux_tool.Device.State.{bump, next_seq, timeout_ms}
use usbmux_tool.Cli.Ending.{return}
use usbmux_tool.Proto.Codec.Layout.{layout}
use usbmux_tool.Proto.Codec.Frame.{built, sized, frame_bytes, build_frame_total}
use usbmux_tool.Proto.Codec.RoundTrip.{header_crc}
use usbmux_tool.Exchange.{request}
use usbmux_tool.Exchange.Accept.{frame_buffer, length-frame_buffer}
use usbmux_tool.Cli.Debug.{
  int_or_zero, int_less, dump_window, show_remainder, read_remainder, show_header, show_answer,
  send_by_hand, cmd_debug_xfer,
}
use usbmux_tool.Cli.Ending.{Outcome}
use usbmux_tool.Cli.Defined.{IsOpen, branch_defined}
use usbmux_tool.Cli.Defined.Commands.{Behaves}

module _ (P : Platform) (L : BulkLaws P) where
  -- What a transfer leaves: the buffer as long as before, and as many bytes moved as fit.
  pub record Window (n : ℕ) (bytes : List ℕ) (o : DebugOut P.World) : Type 0 where
    pub defined : o.ret ≢ fault
    pub still : IsOpen P o.state
    pub count : ℕ
    pub counted : int_or_zero o.transferred ≡ pos count
    pub small : count ≤ n
    pub same_size : length (or_empty o.bytes) ≡ length bytes

  debug_transfer_on-Window :
      (ep n : ℕ) (bytes : List ℕ) (t : ℕ) (s : State P.World) (d : Device)
      → s.device ≡ some d
      → n ≤ length bytes
      → Window n bytes (debug_transfer_on P (some d) ep (some bytes) (pos n) t s)
  unfolding debug_transfer_on debug_done
  debug_transfer_on-Window ep n bytes t s d opened fits =
      elim (Bool-cases (is_nonpositive (pos n))) [
        | inl nothing_asked ↦ rw nothing_asked (record {
          defined = λ h. cc;
          still = (d, opened);
          count = 0;
          counted = refl;
          small = omega arith;
          same_size = refl;
        })
        | inr asked ↦
            let (whole, small, size) = L.counts d.handle ep (take n bytes) t s.world in
            rw asked (
              rw (leb-true n (length bytes) fits) (record {
                defined =
                    done
                      (int_eq (P.bulk_transfer d.handle ep (take n bytes) t s.world).status
                        P.success)
                      _;
                still = (d, opened);
                count = pos_part (P.bulk_transfer d.handle ep (take n bytes) t s.world).transferred;
                counted = whole;
                small = omega (arith, small, length-take n bytes);
                same_size = omega (
                  arith,
                  size,
                  length-take n bytes,
                  length-drop n bytes,
                  length-append (P.bulk_transfer d.handle ep (take n bytes) t s.world).buffer
                      (drop n bytes),
                );
              }))
      ]
    where
      done : (b : Bool) (e : Code) → ◌≢◌ {A = Ret Done} (if b then ok tt else err e) fault
      done true e h = cc
      done false e h = cc

  debug_bulk_transfer-Window :
      (ep n : ℕ) (bytes : List ℕ) (t : ℕ) (s : State P.World)
      → IsOpen P s
      → n ≤ length bytes
      → Window n bytes (debug_bulk_transfer P ep (some bytes) (pos n) t s)
  unfolding debug_bulk_transfer
  debug_bulk_transfer-Window ep n bytes t s (d, opened) fits =
      subst
        (λ (x : Option Device). Window n bytes (debug_transfer_on P x ep (some bytes) (pos n) t s))
        (sym opened) (debug_transfer_on-Window ep n bytes t s d opened fits)

  dump_window_defined :
      (b : Bool) (title : String) (bytes : List ℕ) (count : ℕ) (rest : Outcome P.World)
      → count ≤ length bytes
      → Behaves rest.exit
      → Behaves (dump_window b title bytes (pos count) rest).exit
  unfolding dump_window
  dump_window_defined false title bytes count rest fits h = h
  dump_window_defined true title bytes count rest fits h = rw (leb-true count (length bytes) fits) h

  show_remainder_defined :
      (bytes : List ℕ) (k n : ℕ) (o : DebugOut P.World)
      → k ≤ length bytes
      → n ≤ length bytes - k
      → Window n (drop k bytes) o
      → Behaves (show_remainder P bytes k o).exit
  unfolding show_remainder
  show_remainder_defined bytes k n o fits room w = rw (w.counted) (
      dump_window_defined (not (is_nonpositive (pos w.count))) "EP2 IN combined"
        (take k bytes ++ or_empty o.bytes) (k + w.count) (return 0 o.state)
        (omega (
          arith,
          w.small,
          w.same_size,
          length-append (take k bytes) (or_empty o.bytes),
          length-take k bytes,
          length-drop k bytes,
        ))
        (λ h. cc))

  read_remainder_defined :
      (h : Header) (bytes : List ℕ) (k : ℕ) (s : State P.World)
      → IsOpen P s
      → k ≤ 64
      → length bytes ≡ 512
      → Behaves (read_remainder P h bytes (pos k) s).exit
  unfolding read_remainder int_less
  read_remainder_defined h bytes k s o small full =
      elim (Bool-cases (ltb (u16 k) h.total_len && leb h.total_len 512)) [
        | inr all ↦ rw all (λ q. cc)
        | inl more ↦
            let bound : (k ≤ h.total_len) × (h.total_len ≤ 512) = ground arith in
            rw
              (
                more,
                leb-true k (length bytes) (omega (arith, full)),
                leb-true k h.total_len bound.0,
              )
              (show_remainder_defined bytes k (h.total_len - k) _ (omega (arith, full))
                (omega (arith, full, bound.1))
                (debug_bulk_transfer-Window 0x82 (h.total_len - k) (drop k bytes)
                  (timeout_ms s.device) s o (omega (arith, full, bound.1, length-drop k bytes))))
      ]

  show_answer_defined :
      (bytes : List ℕ) (o : DebugOut P.World)
      → length bytes ≡ 512
      → Window 64 bytes o
      → Behaves (show_answer P o).exit
  unfolding show_answer show_header
  show_answer_defined bytes o full w = rw (w.counted) (
      dump_window_defined (not (is_nonpositive (pos w.count))) "EP2 IN raw" (or_empty o.bytes)
        w.count _ (omega (arith, w.small, w.same_size, full))
        (branch_defined P (o.ret, o.state) _ _ (record { defined = w.defined; still = w.still })
          (λ done t p u.
            branch_defined P (decode_header (some (or_empty o.bytes)) w.count there, t) _ _
              (record {
                defined =
                    decode_header-defined_any (or_empty o.bytes) w.count
                      (omega (arith, w.small, w.same_size, full));
                still = u;
              })
              (λ h v q x.
                read_remainder_defined h (or_empty o.bytes) w.count v x w.small
                  (w.same_size ∙ full))
              (λ e v x h. cc))
          (λ e t u h. cc)))

  request_room :
      (dst : List ℕ) (h : Header)
      → ((built dst h [] 0).frame_len ≡ 24) × (24 ≤ length (built dst h [] 0).dst)
  unfolding built frame_bytes
  request_room dst h = (
    refl,
    omega (
      arith,
      length-append (layout (prepare (sized h 0)) (header_crc (prepare (sized h 0))) ++ [])
          (drop 24 dst),
    ),
  )

  send_by_hand_defined :
      (b : Built) (s : State P.World)
      → IsOpen P s
      → b.frame_len ≡ 24
      → 24 ≤ length b.dst
      → Behaves (send_by_hand P b s).exit
  unfolding send_by_hand
  send_by_hand_defined b s o size room = rw size (
      let w = debug_bulk_transfer-Window 0x03 24 b.dst (timeout_ms s.device) s o room in
      branch_defined P (_, _) _ _ (record { defined = w.defined; still = w.still })
        (λ done t p u. show_answer_defined (replicate 512 0) _ (length-replicate {A = ℕ} 512 0) (
          debug_bulk_transfer-Window 0x82 64 (replicate 512 0) (timeout_ms t.device) t u
            (omega (arith, length-replicate {A = ℕ} 512 0))))
        (λ e t u h. cc))

  next_seq-IsOpen : (s : State P.World) → IsOpen P s → IsOpen P (next_seq s).1
  unfolding next_seq bump
  next_seq-IsOpen s (d, opened) = rw opened (bump d, refl)

  pub cmd_debug_xfer_defined : (s : State P.World) → IsOpen P s → Behaves (cmd_debug_xfer P s).exit
  unfolding cmd_debug_xfer
  cmd_debug_xfer_defined s o =
      let (seq, t) = next_seq s in
      let h = request P seq 0 0 1 1 in
      rw (build_frame_total frame_buffer 512 h none 0 (omega (arith, length-frame_buffer)) tt) (
        branch_defined P (ok (built frame_buffer h [] 0), t) _ _
          (record { defined = λ q. cc; still = next_seq-IsOpen s o })
          (λ b u p v.
            let same : built frame_buffer h [] 0 ≡ b =
              built_of _ b (ap (λ (x : Ret Built × State P.World). x.0) p) in
            let (size, room) =
              subst (λ (x : Built). (x.frame_len ≡ 24) × (24 ≤ length x.dst)) same
                (request_room frame_buffer h) in
            send_by_hand_defined b u v size room)
          (λ e u v q. cc))
    where
      built_of : (a b : Built) → ◌≡◌ {A = Ret Built} (ok a) (ok b) → a ≡ b
      built_of a b q = cc
