-- ===== src/Exchange/Delivery.antt =====
-- Building a frame and writing it: what the wire has seen.
use usbmux_tool.Base.{
  ℕ, ◌+◌, ◌≤◌, ◌≡◌, ◌≢◌, refl, sym, ap, ◌∙◌, arith, Bool-cases, inl, inr, false, Option, none, some,
  List, ◌++◌, length, take, take_all, append-nil, ◌&&◌, Ret, Done, Code, ok, err, fault, err_arg,
  err_overflow, there, ltb, ◌!=◌, if◌then◌else◌,
}
use usbmux_tool.Proto.Header.{Header}
use usbmux_tool.Proto.Codec.{build_frame, is_null}
use usbmux_tool.Proto.Codec.Frame.{Holds, given, built, build_frame_total}
use usbmux_tool.Proto.Codec.Wire.{frame_of, length-frame_of, built_front}
use usbmux_tool.Device.Platform.{Platform, BulkLaws}
use usbmux_tool.Device.State.{Device, State}
use usbmux_tool.Device.Write.{write_frame}
use usbmux_tool.Device.Write.Laws.{write_frame-Sent}
use usbmux_tool.Exchange.{send_frame}
use usbmux_tool.Exchange.Accept.{frame_buffer, length-frame_buffer}

-- The header that a caller of `ch32mux_build_frame` asks with, field by field: the number of the
-- request, its channel, the type of the message and the opcode; all else is 0.
abbrev pub asking : ℕ → ℕ → ℕ → ℕ → ℕ → Header
asking seq ch_type ch_id msg_type opcode = record {
  magic = 0;
  version = 0;
  header_len = 0;
  total_len = 0;
  seq = seq;
  ref_seq = 0;
  ch_type = ch_type;
  ch_id = ch_id;
  msg_type = msg_type;
  opcode = opcode;
  flags = 0;
  status = 0;
  payload_len = 0;
  header_crc16 = 0;
  reserved = 0;
}

module _ (P : Platform) (L : BulkLaws P) where
  -- After building and writing a frame from the state `s`: the wire has taken a first part of it,
  -- all of it on success, and nothing was received.
  pub record Delivered (s : State P.World) (h : Header) (payload : Option (List ℕ)) (n : ℕ)
      (r : Ret Done) (s' : State P.World) : Type 0 where
    pub defined : r ≢ fault
    pub device : s'.device ≡ s.device
    pub quiet : L.received s'.world ≡ L.received s.world
    pub count : ℕ
    pub wire : L.delivered s'.world ≡ L.delivered s.world ++ take count (frame_of h payload n)
    pub whole :
        r ≡ ok tt → (n ≤ 488) × (L.delivered s'.world ≡ L.delivered s.world ++ frame_of h payload n)

  -- A frame that is not built sends nothing.
  refused-Delivered :
      (s : State P.World) (h : Header) (payload : Option (List ℕ)) (n : ℕ) (e : Code)
      → Delivered s h payload n (err e) s
  refused-Delivered s h payload n e = record {
    defined = λ h. cc;
    device = refl;
    quiet = refl;
    count = 0;
    wire = sym (append-nil (L.delivered s.world));
    whole = λ h. absurd (cc);
  }

  written-Delivered :
      (s : State P.World) (d : Device) (h : Header) (payload : Option (List ℕ)) (n : ℕ)
      → s.device ≡ some d
      → n ≤ 488
      → n ≤ length (given payload)
      → let b = built frame_buffer h (given payload) n in
        let (r, s') = write_frame P (some b.dst) b.frame_len s in Delivered s h payload n r s'
  written-Delivered s d h payload n opened small held =
      let b = built frame_buffer h (given payload) n in
      let room : 24 + n ≤ length frame_buffer = omega (arith, length-frame_buffer) in
      let (front, size, len) =
        built_front frame_buffer h payload n (24 + n) held room (omega arith) in
      let (sent, kept) =
        write_frame-Sent P L s d b.dst b.frame_len opened (omega (arith, len)) (omega (arith, len))
          (omega (arith, len, size, room)) in
      record {
        defined = sent.defined;
        device = kept;
        quiet = sent.quiet;
        count = sent.count;
        wire =
            sent.wire
            ∙ ap (λ (x : List ℕ). L.delivered s.world ++ x)
                (built_front frame_buffer h payload n sent.count held room
                  (omega (arith, sent.within, len))).0;
        whole = λ fine. (
          small,
          sent.wire
              ∙ ap (λ (x : List ℕ). L.delivered s.world ++ x)
                  (ap (λ (k : ℕ). take k b.dst) (sent.whole fine ∙ len)
                    ∙ front
                    ∙ take_all (24 + n) (frame_of h payload n)
                        (omega (arith, length-frame_of h payload n held))),
        );
      }

  -- `send_frame` in any state with a device: built or refused, and then written.
  pub send_frame-Delivered :
      (s : State P.World) (d : Device) (h : Header) (payload : Option (List ℕ)) (n : ℕ)
      → s.device ≡ some d
      → Holds payload n
      → let (r, s') = send_frame P h payload n s in Delivered s h payload n r s'
  unfolding send_frame
  send_frame-Delivered s d h payload n opened held = elim (Bool-cases (is_null payload && n != 0)) [
    | inl bad ↦ rw (total, bad) (refused-Delivered s h payload n err_arg)
    | inr given_ok ↦ elim (Bool-cases (ltb 488 n)) [
      | inl large ↦ rw (total, given_ok, large) (refused-Delivered s h payload n err_overflow)
      | inr small ↦ elim (Bool-cases (ltb 512 (24 + n))) [
        | inl over ↦ absurd (ground arith)
        | inr fits ↦
            rw (total, given_ok, small, fits)
              (written-Delivered s d h payload n opened (ground arith)
                (all_given payload held given_ok))
      ]
    ]
  ]
    where
      total : build_frame (some frame_buffer) 512 there (some h) payload n ≡ (
          if is_null payload && n != 0
          then err err_arg
          else if ltb 488 n
          then err err_overflow
          else if ltb 512 (24 + n)
          then err err_overflow
          else ok (built frame_buffer h (given payload) n))
      total =
          build_frame_total frame_buffer 512 h payload n (omega (arith, length-frame_buffer)) held

      all_given :
          (payload : Option (List ℕ))
          → Holds payload n
          → (is_null payload && n != 0) ≡ false
          → n ≤ length (given payload)
      all_given none p q = ground arith
      all_given (some bytes) p q = p
