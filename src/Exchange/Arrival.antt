-- ===== src/Exchange/Arrival.antt =====
-- Reading a frame into a local buffer.
use usbmux_tool.Base.{
  ℕ, ◌≡◌, ◌≢◌, refl, subst, ◌∙◌, arith, inl, inr, some, List, ◌++◌, length, take, Ret, Ret-cases,
  ok, fault,
}
use usbmux_tool.Device.Platform.{Platform, BulkLaws}
use usbmux_tool.Device.State.{Device, State}
use usbmux_tool.Device.Read.{ReadOut}
use usbmux_tool.Device.Read.Laws.{Got, read_frame-Got}
use usbmux_tool.Device.Read.Stage.{Complete}
use usbmux_tool.Exchange.{read_local}
use usbmux_tool.Exchange.Accept.{LocalFrame, local_frame, frame_buffer, length-frame_buffer}

module _ (P : Platform) (L : BulkLaws P) where
  -- After a read into a local buffer: no access out of bounds, nothing sent, and on success a
  -- complete frame at the front of what was received.
  pub record ReadLocal (s : State P.World) (r : Ret LocalFrame) (s' : State P.World) : Type 0 where
    pub defined : r ≢ fault
    pub device : s'.device ≡ s.device
    pub quiet : L.delivered s'.world ≡ L.delivered s.world
    pub arrived :
        (f : LocalFrame)
        → r ≡ ok f
        → (count : ℕ) × (L.received s'.world ≡ L.received s.world ++ take count f.bytes)
          × (Complete f.bytes 512 count f.frame_len)
          × (length f.bytes ≡ 512)

  read_local_lem :
      (s : State P.World) (d : Device) (out : ReadOut P.World) (f : List ℕ)
      → length f ≡ 512
      → s.device ≡ some d
      → Got P L (L.received s.world) (L.delivered s.world) f 512 out
      → ReadLocal s
          (local_frame out.ret (record {
            ret = out.ret;
            frame = some out.frame;
            frame_len = some out.frame_len;
            state = record s { world = out.world };
          }))
          (record s { world = out.world })
  read_local_lem s d out f size opened g = elim (Ret-cases out.ret g.defined) [
    | inr (e, failed) ↦
        rw failed (record {
          defined = λ h. cc;
          device = refl;
          quiet = g.quiet;
          arrived = λ f h. absurd (cc);
        })
    | inl (u, fine) ↦ rw fine (record {
      defined = λ h. cc;
      device = refl;
      quiet = g.quiet;
      arrived = λ l same.
          let got : LocalFrame = record { bytes = out.frame; frame_len = out.frame_len } in
          let equal : got ≡ l = cc in
          subst
            (λ (x : LocalFrame).
              (count : ℕ) × (L.received out.world ≡ L.received s.world ++ take count x.bytes)
              × (Complete x.bytes 512 count x.frame_len)
              × (length x.bytes ≡ 512))
            equal (g.count, g.stream, g.complete fine, g.same_length ∙ size);
    })
  ]

  pub read_local-ReadLocal :
      (s : State P.World) (d : Device)
      → s.device ≡ some d
      → let (r, s') = read_local P s in ReadLocal s r s'
  unfolding read_local
  read_local-ReadLocal s d opened =
      let (out, same, got) =
        read_frame-Got P L s d frame_buffer 512 0 opened (omega arith)
          (omega (arith, length-frame_buffer)) (omega arith) in
      rw same (read_local_lem s d out frame_buffer length-frame_buffer opened got)
