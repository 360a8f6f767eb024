-- ===== src/Device/Write/Laws.antt =====
-- What the wire has seen after `ch32mux_write_frame`.
use usbmux_tool.Base.{
  ℕ, zero, suc, ◌+◌, ◌-◌, ◌%◌, ◌^◌, ◌≤◌, ◌<◌, ◌≡◌, ◌≢◌, refl, sym, ap, ◌∙◌, arith, Bool-cases, inl,
  inr, List, ◌++◌, append_assoc, length, take, drop, take-add, take-take, length-take, length-drop,
  Ret, Done, ok, err, fault, some, pos, pos_part, int_of_size, Code, err_io, int_of_size_small,
  size_of_int_pos, positive, leb-true, ltb-false, ==_false, append-nil, is_nonpositive, int_eq, ltb,
}
use usbmux_tool.Device.Platform.{Platform, Transfer, BulkLaws}
use usbmux_tool.Device.State.{Device, State, map_libusb_error}
use usbmux_tool.Device.Write.{write_round, write_loop, write_frame, window}

module _ (P : Platform) (L : BulkLaws P) where
  -- After a run that returned `r` in the world `w`: the wire has taken the first `count` bytes of
  -- the frame behind what was there before, all of them on success; nothing was received, and
  -- nothing was out of bounds.
  pub record Sent (base heard : List ℕ) (frame : List ℕ) (frame_len : ℕ) (r : Ret Done)
      (w : P.World) : Type 0 where
    pub count : ℕ
    pub within : count ≤ frame_len
    pub wire : L.delivered w ≡ base ++ take count frame
    pub quiet : L.received w ≡ heard
    pub whole : r ≡ ok tt → count ≡ frame_len
    pub defined : r ≢ fault

  pub window_lem :
      (frame : List ℕ) (offset frame_len : ℕ)
      → offset ≤ frame_len
      → frame_len ≤ 512
      → frame_len ≤ length frame
      → window frame offset (int_of_size (frame_len - offset))
        ≡ some (take (frame_len - offset) (drop offset frame))
  window_lem frame offset frame_len p q r =
      let chunk = frame_len - offset in
      rw
        (
          int_of_size_small chunk (omega arith),
          leb-true (offset + chunk) (length frame) (omega arith),
        )
        refl

  advance :
      (base frame : List ℕ) (offset n m : ℕ)
      → n ≤ m
      → (base ++ take offset frame) ++ take n (take m (drop offset frame))
        ≡ base ++ take (offset + n) frame
  advance base frame offset n m h =
      rw (take-take n m (drop offset frame) h, take-add offset n frame) (append_assoc base _ _)

  -- A round ends the loop with an error, or goes on behind the bytes that were taken.
  write_round-cases :
      (t : Transfer P.World) (offset : ℕ) (again : ℕ → P.World → Ret Done × P.World)
      (Q : Ret Done → P.World → Type 0)
      → t.transferred ≡ pos (pos_part t.transferred)
      → offset + pos_part t.transferred < 2 ^ 64
      → ((e : Code) → Q (err e) t.world)
      → (1 ≤ pos_part t.transferred
          → let (r, w) = again (offset + pos_part t.transferred) t.world in Q r w)
      → let (r, w) = write_round P t offset again in Q r w
  unfolding write_round
  write_round-cases t offset again Q count fits failed goes_on =
      elim (Bool-cases (int_eq t.status P.success)) [
        | inl fine ↦ elim (Bool-cases (is_nonpositive t.transferred)) [
          | inl nothing ↦ rw (fine, nothing) (failed err_io)
          | inr some_bytes ↦
              rw (fine, some_bytes, size_of_int_pos t.transferred count, next)
                (goes_on (positive t.transferred some_bytes))
        ]
        | inr broken ↦ rw broken (failed (map_libusb_error P t.status))
      ]
    where
      next : (offset + pos_part t.transferred) % 2 ^ 64 ≡ offset + pos_part t.transferred
      next = omega arith

  write_loop-Sent :
      (fuel : ℕ) (d : Device) (base heard frame : List ℕ) (frame_len offset : ℕ) (w : P.World)
      → frame_len ≤ 512
      → frame_len ≤ length frame
      → offset ≤ frame_len
      → frame_len - offset < fuel
      → L.delivered w ≡ base ++ take offset frame
      → L.received w ≡ heard
      → let (r, w') = write_loop P fuel d frame frame_len offset w in
        Sent base heard frame frame_len r w'
  unfolding write_loop write_round
  write_loop-Sent zero d base heard frame frame_len offset w small held p enough wire quiet =
      absurd (omega arith)
  write_loop-Sent (suc fuel) d base heard frame frame_len offset w small held p enough wire quiet =
      elim (Bool-cases (ltb offset frame_len)) [
        | inl more ↦
            rw (more, window_lem frame offset frame_len p small held)
              (write_round-cases t offset again (Sent base heard frame frame_len) counts.0
                (omega (arith, counts, size))
                (λ e. record {
                  count = offset + n;
                  within = omega (arith, counts, size);
                  wire = sent;
                  quiet = still;
                  whole = λ h. cc;
                  defined = λ h. cc;
                })
                (λ positive_n.
                  write_loop-Sent fuel d base heard frame frame_len (offset + n) t.world small held
                    (omega (arith, counts, size)) (omega (arith, counts, size)) sent still))
        | inr done ↦ rw done (record {
          count = offset;
          within = p;
          wire = wire;
          quiet = quiet;
          whole = λ h. ground arith;
          defined = λ h. cc;
        })
      ]
    where
      chunk : ℕ
      chunk = frame_len - offset

      buf : List ℕ
      buf = take (frame_len - offset) (drop offset frame)

      t : Transfer P.World
      t = P.bulk_transfer d.handle 0x03 buf d.timeout_ms w

      again : ℕ → P.World → Ret Done × P.World
      again o w' = write_loop P fuel d frame frame_len o w'

      n : ℕ
      n = pos_part t.transferred

      counts : (t.transferred ≡ pos n) × (n ≤ length buf) × (length t.buffer ≡ length buf)
      counts = L.counts d.handle 0x03 buf d.timeout_ms w

      size : length buf ≡ frame_len - offset
      size =
          omega
            (arith, length-take (frame_len - offset) (drop offset frame), length-drop offset frame)

      still : L.received t.world ≡ heard
      still = (L.sends d.handle buf d.timeout_ms w).1 ∙ quiet

      sent : L.delivered t.world ≡ base ++ take (offset + n) frame
      sent =
          (L.sends d.handle buf d.timeout_ms w).0
          ∙ ap (λ (x : List ℕ). x ++ take n buf) wire
          ∙ advance base frame offset n (frame_len - offset) (omega (arith, counts, size))

  -- On an open device, with a frame of 1 to 512 bytes held by the caller's buffer, on a libusb that
  -- reports what it moved: whatever the transfers do, the wire takes a first part of the frame, in
  -- order and each byte once, and the whole frame if the call succeeds; nothing is received. The
  -- loop ends, no byte outside the frame is read, and the device keeps its state.
  pub write_frame-Sent :
      (s : State P.World) (d : Device) (frame : List ℕ) (frame_len : ℕ)
      → s.device ≡ some d
      → 1 ≤ frame_len
      → frame_len ≤ 512
      → frame_len ≤ length frame
      → let (r, s') = write_frame P (some frame) frame_len s in
        Sent (L.delivered s.world) (L.received s.world) frame frame_len r s'.world
        × (s'.device ≡ s.device)
  unfolding write_frame
  write_frame-Sent s d frame frame_len opened some_bytes small held =
      rw (opened, ==_false frame_len 0 (omega arith), ltb-false 512 frame_len small)
        (
          write_loop-Sent (suc frame_len) d (L.delivered s.world) (L.received s.world) frame
              frame_len 0 s.world small held (omega arith) (omega arith)
              (sym (append-nil (L.delivered s.world))) refl,
          refl,
        )
