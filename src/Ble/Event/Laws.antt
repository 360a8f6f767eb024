-- ===== src/Ble/Event/Laws.antt =====
-- What `ch32mux_ble_read_event` gives on an open device.
use usbmux_tool.Base.{
  ℕ, ◌+◌, ◌≤◌, ◌≡◌, ◌≢◌, refl, sym, subst, arith, Bool-cases, inl, inr, Option, some, List, ◌++◌,
  length, take, ◌&&◌, Ret, Ret-cases, ok, err, fault, err_arg, err_proto, err_overflow, there, ltb,
  ◌!=◌, if◌then◌else◌,
}
use usbmux_tool.Proto.Header.{Header}
use usbmux_tool.Proto.Codec.{decode_header, is_null}
use usbmux_tool.Proto.Codec.Prefix.{decode_header-defined_any}
use usbmux_tool.Proto.Codec.Frame.{Holds}
use usbmux_tool.Device.Platform.{Platform, BulkLaws}
use usbmux_tool.Device.State.{Device, State}
use usbmux_tool.Device.Read.Stage.{Complete}
use usbmux_tool.Exchange.{read_local}
use usbmux_tool.Exchange.Accept.{LocalFrame, Response}
use usbmux_tool.Exchange.Payload.{payload_ends, decode_again, copy_out_lem, Holds-less, filled}
use usbmux_tool.Exchange.Arrival.{ReadLocal, read_local-ReadLocal}
use usbmux_tool.Ble.Event.{take_event, ble_read_event, ble_read_event_on}

-- An event frame of `frame_len` bytes, and what the caller is given of it.
pub record Event (bytes : List ℕ) (frame_len : ℕ) (dst : Option (List ℕ)) (capacity : ℕ)
    (r : Response) : Type 0 where
  pub decodes : decode_header (some bytes) frame_len there ≡ ok r.header
  pub is_event : r.header.msg_type ≡ 0x03
  pub ends : 24 + r.len ≡ frame_len
  pub within : r.len ≤ capacity
  pub filled_with : r.payload ≡ filled dst bytes r.len

module _ (bytes : List ℕ) (frame_len : ℕ) (dst : Option (List ℕ)) (capacity : ℕ) where
  given_event : Header → Response
  given_event h = record {
    header = h;
    payload = filled dst bytes h.payload_len;
    len = h.payload_len;
  }

  -- The tests behind the decoding, of a header whose payload both buffers hold.
  take_event_lem :
      (h : Header)
      → decode_header (some bytes) frame_len there ≡ ok h
      → Holds dst capacity
      → 24 + h.payload_len ≤ length bytes
      → take_event (record { bytes = bytes; frame_len = frame_len }) dst capacity ≡ (
          if h.msg_type != 0x03
          then err err_proto
          else if ltb capacity h.payload_len
          then err err_overflow
          else if h.payload_len != 0 && is_null dst
          then err err_arg
          else ok (given_event h))
  unfolding take_event given_event
  take_event_lem h done held inside = elim (Bool-cases (ltb capacity h.payload_len)) [
    | inl large ↦ rw (done, large) (ground arith)
    | inr small ↦
        rw
          (
            done,
            copy_out_lem dst bytes h.payload_len
                (Holds-less dst h.payload_len capacity held (ground arith)) inside,
          )
          (ground arith)
  ]

  passed :
      (h : Header) (r : Response)
      → (if h.msg_type != 0x03
          then err err_proto
          else if ltb capacity h.payload_len
          then err err_overflow
          else if h.payload_len != 0 && is_null dst
          then err err_arg
          else ok (given_event h))
        ≡ ok r
      → (h.msg_type ≡ 0x03) × (h.payload_len ≤ capacity) × (given_event h ≡ r)
  passed h r out = ground arith

  take_event-Event :
      (count : ℕ)
      → Complete bytes 512 count frame_len
      → length bytes ≡ 512
      → Holds dst capacity
      → let frame : LocalFrame = record { bytes = bytes; frame_len = frame_len } in
        (take_event frame dst capacity ≢ fault)
        × ((r : Response)
            → take_event frame dst capacity ≡ ok r
            → Event bytes frame_len dst capacity r)
  take_event-Event count c whole held =
      elim (Ret-cases (decode_header (some bytes) frame_len there)
        (decode_header-defined_any bytes frame_len (omega arith))) [
          | inr (e, refused) ↦ unfold take_event in rw refused ((λ h. cc), (λ t h. cc))
          | inl (h, done) ↦
              let (equal, total) = decode_again bytes 512 count frame_len h c done in
              let (ends, small) = payload_ends bytes frame_len h done total in
              rw (take_event_lem h done held (omega (arith, c.within, ends))) (
                (ground arith),
                λ r out.
                    let (msg, room, same) = passed h r out in
                    subst (Event bytes frame_len dst capacity) same (
                      unfold given_event in
                      record {
                        decodes = done;
                        is_event = msg;
                        ends = ends;
                        within = room;
                        filled_with = refl;
                      }),
              )
        ]

module _ (P : Platform) (L : BulkLaws P) where
  -- After `ch32mux_ble_read_event` from the state `s`.
  pub record EventRead (s : State P.World) (dst : Option (List ℕ)) (capacity : ℕ) (r : Ret Response)
      (s' : State P.World) : Type 0 where
    pub defined : r ≢ fault
    pub device : s'.device ≡ s.device
    pub quiet : L.delivered s'.world ≡ L.delivered s.world
    pub event :
        (e : Response)
        → r ≡ ok e
        → (bytes : List ℕ) × (count : ℕ) × (frame_len : ℕ) × (L.received s'.world
            ≡ L.received s.world ++ take count bytes)
          × (frame_len ≤ count)
          × (Event bytes frame_len dst capacity e)

  event_open :
      (w : P.World) (d : Device) (dst : Option (List ℕ)) (capacity : ℕ)
      → Holds dst capacity
      → let s : State P.World = record { device = some d; world = w } in
        let (r, s') = ble_read_event P dst capacity there s in EventRead s dst capacity r s'
  unfolding ble_read_event ble_read_event_on
  event_open w d dst capacity held = elim (Ret-cases (read_local P s).0 read.defined) [
    | inr (e, failed) ↦ rw failed (record {
      defined = λ h. cc;
      device = read.device;
      quiet = read.quiet;
      event = λ e h. absurd (cc);
    })
    | inl (f, fine) ↦
        let (count, stream, complete, size) = read.arrived f fine in
        let (safe, facts) =
          take_event-Event f.bytes f.frame_len dst capacity count complete size held in
        rw fine (record {
          defined = safe;
          device = read.device;
          quiet = read.quiet;
          event = λ e h. (f.bytes, count, f.frame_len, stream, complete.arrived, facts e h);
        })
  ]
    where
      s : State P.World
      s = record { device = some d; world = w }

      read : let (r, s') = read_local P s in ReadLocal P L s r s'
      read = read_local-ReadLocal P L s d refl

  pub ble_read_event-EventRead :
      (s : State P.World) (d : Device) (dst : Option (List ℕ)) (capacity : ℕ)
      → s.device ≡ some d
      → Holds dst capacity
      → let (r, s') = ble_read_event P dst capacity there s in EventRead s dst capacity r s'
  ble_read_event-EventRead s d dst capacity opened held =
      subst
        (λ (x : State P.World).
          let (r, s') = ble_read_event P dst capacity there x in EventRead x dst capacity r s')
        (λ i. record { device = sym opened i; world = s.world })
        (event_open s.world d dst capacity held)
