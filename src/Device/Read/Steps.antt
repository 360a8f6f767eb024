-- ===== src/Device/Read/Steps.antt =====
-- `ch32mux_read_frame` reaches the world by bulk transfers only.
use usbmux_tool.Base.{
  ℕ, zero, suc, Option, none, some, List, refl, Bool-cases, inl, inr, int_eq, int_of_size,
  is_nonpositive, ltb, splice, size_of_int, ◌+◌, Ret, ok, err, fault,
}
use usbmux_tool.Proto.Header.{header_size}
use usbmux_tool.Device.Platform.{Platform, Transfer}
use usbmux_tool.Device.State.{Device, State}
use usbmux_tool.Device.Along.{Kept, Along, Along-refl}
use usbmux_tool.Device.Write.{u64, window}
use usbmux_tool.Device.Read.{
  ReadOut, next_target, packet, room_left, resume, receive, after_receive, read_round, read_loop,
  read_frame_on, read_frame,
}

module _ (P : Platform) (K : Kept P) where
  resume-Rel :
      (r : Ret ℕ) (frame : List ℕ) (w : P.World) (again : ℕ → List ℕ → P.World → ReadOut P.World)
      → ((u : ℕ) → K.Rel w (again u frame w).world)
      → K.Rel w (resume P r frame w again).world
  resume-Rel (ok u) frame w again rest = rest u
  resume-Rel (err e) frame w again rest = K.same w
  resume-Rel fault frame w again rest = K.same w

  read_round-Rel :
      (w : P.World) (t : Transfer P.World) (old : List ℕ) (capacity offset target : ℕ)
      (again : ℕ → ℕ → List ℕ → P.World → ReadOut P.World)
      → K.Rel w t.world
      → ((o u : ℕ) (f : List ℕ) (v : P.World) → K.Rel v (again o u f v).world)
      → K.Rel w (read_round P t old capacity offset target again).world
  unfolding read_round
  read_round-Rel w t old capacity offset target again first rest =
      elim (Bool-cases (int_eq t.status P.success)) [
        | inr broken ↦ rw broken first
        | inl fine ↦ elim (Bool-cases (is_nonpositive t.transferred)) [
          | inl nothing ↦ rw (fine, nothing) first
          | inr some_bytes ↦
              let frame = splice old offset t.buffer in
              let reached = u64 (offset + size_of_int t.transferred) in
              rw (fine, some_bytes)
                (K.chain w t.world _ first (
                  resume-Rel (next_target frame capacity reached target) frame t.world
                    (again reached) (λ u. rest reached u frame t.world)))
        ]
      ]

  after_receive-Rel :
      (d : Device) (bytes : Option (List ℕ)) (frame : List ℕ) (capacity offset target : ℕ)
      (again : ℕ → ℕ → List ℕ → P.World → ReadOut P.World) (w : P.World)
      → ((o u : ℕ) (f : List ℕ) (v : P.World) → K.Rel v (again o u f v).world)
      → K.Rel w (after_receive P (receive P d bytes w) frame capacity offset target again w).world
  after_receive-Rel d none frame capacity offset target again w rest = K.same w
  after_receive-Rel d (some bytes) frame capacity offset target again w rest =
      read_round-Rel w (P.bulk_transfer d.handle 0x82 bytes d.timeout_ms w) frame capacity offset
        target again (K.bulk d.handle 0x82 bytes d.timeout_ms w) rest

  read_loop-Rel :
      (fuel : ℕ) (d : Device) (capacity offset target : ℕ) (frame : List ℕ) (w : P.World)
      → K.Rel w (read_loop P fuel d capacity offset target frame w).world
  unfolding read_loop
  read_loop-Rel zero d capacity offset target frame w = K.same w
  read_loop-Rel (suc fuel) d capacity offset target frame w =
      elim (Bool-cases (ltb offset target)) [
        | inr done ↦ rw done (K.same w)
        | inl more ↦ elim (Bool-cases (is_nonpositive (int_of_size (room_left capacity offset)))) [
          | inl full ↦ rw (more, full) (K.same w)
          | inr left ↦
              rw (more, left)
                (after_receive-Rel d
                  (window frame offset (packet (int_of_size (room_left capacity offset)))) frame
                  capacity offset target (λ o u f v. read_loop P fuel d capacity o u f v) w
                  (λ o u f v. read_loop-Rel fuel d capacity o u f v))
        ]
      ]

  read_frame_on-Along :
      (device : Option Device) (frame : Option (List ℕ)) (capacity : ℕ) (frame_len : Option ℕ)
      (s : State P.World)
      → Along P K s (read_frame_on P device frame capacity frame_len s).state
  unfolding read_frame_on
  read_frame_on-Along (some d) (some frame) capacity (some n) s =
      elim (Bool-cases (ltb capacity header_size)) [
        | inl short ↦ rw short (Along-refl P K s)
        | inr room ↦ rw room (record {
          world = read_loop-Rel (suc capacity) d capacity 0 header_size frame s.world;
          device = refl;
        })
      ]
  read_frame_on-Along none frame capacity n s = Along-refl P K s
  read_frame_on-Along (some d) none capacity n s = Along-refl P K s
  read_frame_on-Along (some d) (some frame) capacity none s = Along-refl P K s

  pub read_frame-Along :
      (frame : Option (List ℕ)) (capacity : ℕ) (frame_len : Option ℕ) (s : State P.World)
      → Along P K s (read_frame P frame capacity frame_len s).state
  unfolding read_frame
  read_frame-Along frame capacity frame_len s =
      read_frame_on-Along s.device frame capacity frame_len s
