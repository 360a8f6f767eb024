-- ===== src/Device/Write/Steps.antt =====
-- `ch32mux_write_frame` reaches the world by bulk transfers only.
use usbmux_tool.Base.{
  ℕ, zero, suc, ◌-◌, int_of_size, ◌||◌, Option, none, some, List, refl, Bool-cases, inl, inr,
  int_eq, is_nonpositive, ltb, ◌==◌, Ret, Done,
}
use usbmux_tool.Proto.Header.{max_frame_len}
use usbmux_tool.Device.Platform.{Platform, Transfer}
use usbmux_tool.Device.State.{Device, State}
use usbmux_tool.Device.Along.{Kept, Along, Along-refl, Goes}
use usbmux_tool.Device.Write.{
  send, after_send, write_round, write_loop, write_frame_on, write_frame, window,
}

module _ (P : Platform) (K : Kept P) where
  write_round-Rel :
      (w : P.World) (t : Transfer P.World) (offset : ℕ) (again : ℕ → P.World → Ret Done × P.World)
      → K.Rel w t.world
      → ((o : ℕ) (v : P.World) → K.Rel v (again o v).1)
      → K.Rel w (write_round P t offset again).1
  unfolding write_round
  write_round-Rel w t offset again first rest = elim (Bool-cases (int_eq t.status P.success)) [
    | inr broken ↦ rw broken first
    | inl fine ↦ elim (Bool-cases (is_nonpositive t.transferred)) [
      | inl nothing ↦ rw (fine, nothing) first
      | inr some_bytes ↦ rw (fine, some_bytes) (K.chain w t.world _ first (rest _ t.world))
    ]
  ]

  after_send-Rel :
      (d : Device) (bytes : Option (List ℕ)) (w : P.World) (offset : ℕ)
      (again : ℕ → P.World → Ret Done × P.World)
      → ((o : ℕ) (v : P.World) → K.Rel v (again o v).1)
      → K.Rel w (after_send P (send P d bytes w) w offset again).1
  after_send-Rel d none w offset again rest = K.same w
  after_send-Rel d (some bytes) w offset again rest =
      write_round-Rel w (P.bulk_transfer d.handle 0x03 bytes d.timeout_ms w) offset again
        (K.bulk d.handle 0x03 bytes d.timeout_ms w) rest

  write_loop-Rel :
      (fuel : ℕ) (d : Device) (frame : List ℕ) (frame_len offset : ℕ) (w : P.World)
      → K.Rel w (write_loop P fuel d frame frame_len offset w).1
  unfolding write_loop
  write_loop-Rel zero d frame frame_len offset w = K.same w
  write_loop-Rel (suc fuel) d frame frame_len offset w = elim (Bool-cases (ltb offset frame_len)) [
    | inr done ↦ rw done (K.same w)
    | inl more ↦ rw more (
        after_send-Rel d (window frame offset (int_of_size (frame_len - offset))) w offset
          (λ o v. write_loop P fuel d frame frame_len o v)
          (λ o v. write_loop-Rel fuel d frame frame_len o v))
  ]

  write_frame_on-Along :
      (device : Option Device) (frame : Option (List ℕ)) (n : ℕ) (s : State P.World)
      → Along P K s (write_frame_on P device frame n s).1
  unfolding write_frame_on
  write_frame_on-Along (some d) (some frame) n s =
      elim (Bool-cases (n == 0 || ltb max_frame_len n)) [
        | inl refused ↦ rw refused (Along-refl P K s)
        | inr accepted ↦
            rw accepted
              (record { world = write_loop-Rel (suc n) d frame n 0 s.world; device = refl })
      ]
  write_frame_on-Along (some d) none n s = Along-refl P K s
  write_frame_on-Along none frame n s = Along-refl P K s

  pub write_frame-Goes : (frame : Option (List ℕ)) (n : ℕ) → Goes P K (write_frame P frame n)
  unfolding write_frame
  write_frame-Goes frame n s = write_frame_on-Along s.device frame n s
