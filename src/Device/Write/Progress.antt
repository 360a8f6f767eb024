-- ===== src/Device/Write/Progress.antt =====
-- `ch32mux_write_frame` comes to an end with success where the device takes what it is sent.
use usbmux_tool.Base.{
  moved_some, ℕ, zero, suc, ◌+◌, ◌-◌, ◌%◌, ◌^◌, ◌≤◌, ◌<◌, ◌≡◌, refl, arith, Bool-cases, inl, inr,
  true, Option, some, List, length, take, drop, length-take, length-drop, ok, pos_part, int_eq, ltb,
  ltb-false, ==_false, size_of_int_pos, pos,
}
use usbmux_tool.Device.Platform.{Platform, Transfer, BulkLaws}
use usbmux_tool.Device.State.{Device, State}
use usbmux_tool.Device.Write.{write_round, write_loop, write_frame}
use usbmux_tool.Device.Write.Laws.{window_lem}

-- A device that takes at least a byte of every transfer that has one.
pub record Takes (P : Platform) : Type 0 where
  pub some_byte :
      (h : Option ℕ) (buf : List ℕ) (t : ℕ) (w : P.World)
      → 1 ≤ length buf
      → let r = P.bulk_transfer h 0x03 buf t w in
        (int_eq r.status P.success ≡ true) × (1 ≤ pos_part r.transferred)

module _ (P : Platform) (L : BulkLaws P) (K : Takes P) where
  write_loop-ok :
      (fuel : ℕ) (d : Device) (frame : List ℕ) (frame_len offset : ℕ) (w : P.World)
      → frame_len ≤ 512
      → frame_len ≤ length frame
      → offset ≤ frame_len
      → frame_len - offset < fuel
      → (write_loop P fuel d frame frame_len offset w).0 ≡ ok tt
  unfolding write_loop write_round
  write_loop-ok zero d frame frame_len offset w small held p enough = absurd (omega arith)
  write_loop-ok (suc fuel) d frame frame_len offset w small held p enough =
      elim (Bool-cases (ltb offset frame_len)) [
        | inr done ↦ rw done refl
        | inl more ↦
            let (fine, n_some) = K.some_byte d.handle buf d.timeout_ms w (ground (arith, size)) in
            let reached : (offset + n) % 2 ^ 64 ≡ offset + n = omega (arith, counts, size) in
            rw
              (
                more,
                window_lem P L frame offset frame_len p small held,
                fine,
                moved_some t.transferred counts.0 n_some,
                size_of_int_pos t.transferred counts.0,
                reached,
              )
              (write_loop-ok fuel d frame frame_len (offset + n) t.world small held
                (omega (arith, counts, size)) (omega (arith, counts, size)))
      ]
    where
      buf : List ℕ
      buf = take (frame_len - offset) (drop offset frame)

      t : Transfer P.World
      t = P.bulk_transfer d.handle 0x03 buf d.timeout_ms w

      n : ℕ
      n = pos_part t.transferred

      counts : (t.transferred ≡ pos n) × (n ≤ length buf) × (length t.buffer ≡ length buf)
      counts = L.counts d.handle 0x03 buf d.timeout_ms w

      size : length buf ≡ frame_len - offset
      size =
          omega
            (arith, length-take (frame_len - offset) (drop offset frame), length-drop offset frame)

  -- On an open device that takes at least a byte of every transfer, on a libusb that reports what
  -- it moved, a frame of 1 to 512 bytes held by the caller's buffer is written with success.
  pub write_frame-ok :
      (s : State P.World) (d : Device) (frame : List ℕ) (frame_len : ℕ)
      → s.device ≡ some d
      → 1 ≤ frame_len
      → frame_len ≤ 512
      → frame_len ≤ length frame
      → (write_frame P (some frame) frame_len s).0 ≡ ok tt
  unfolding write_frame
  write_frame-ok s d frame frame_len opened some_bytes small held =
      rw (opened, ==_false frame_len 0 (omega arith), ltb-false 512 frame_len small)
        (write_loop-ok (suc frame_len) d frame frame_len 0 s.world small held (omega arith)
          (omega arith))
