-- ===== src/Uart/Stream/Laws.antt =====
-- What the two data calls of the UART do on an open device.
use usbmux_tool.Base.{
  ℕ, ◌+◌, ◌≤◌, ◌≡◌, ◌≢◌, refl, sym, subst, arith, Bool-cases, inl, inr, false, Option, some, List,
  ◌++◌, length, take, drop, splice, ◌&&◌, ◌||◌, Ret, Ret-cases, ok, err, fault, err_proto,
  err_overflow, there, ltb, leb-true, ◌!=◌, if◌then◌else◌,
}
use usbmux_tool.Proto.Header.{Header}
use usbmux_tool.Proto.Codec.{decode_header, is_null}
use usbmux_tool.Proto.Codec.Prefix.{decode_header-defined_any}
use usbmux_tool.Proto.Codec.Frame.{Holds}
use usbmux_tool.Device.Platform.{Platform, BulkLaws}
use usbmux_tool.Device.State.{Device, State, bump, next_seq}
use usbmux_tool.Device.Read.Stage.{Complete}
use usbmux_tool.Exchange.{read_local}
use usbmux_tool.Exchange.Accept.{LocalFrame}
use usbmux_tool.Exchange.Payload.{payload_ends, decode_again}
use usbmux_tool.Exchange.Delivery.{asking, Delivered, send_frame-Delivered}
use usbmux_tool.Exchange.Arrival.{ReadLocal, read_local-ReadLocal}
use usbmux_tool.Uart.Stream.{Taken, take_data, uart_write, uart_write_on, uart_read, uart_read_on}

-- A data frame of the port, and what the caller is given of it.
pub record Data (bytes : List ℕ) (frame_len port : ℕ) (dst : List ℕ) (capacity : ℕ) (t : Taken)
    : Type 0 where
  pub header : Header
  pub decodes : decode_header (some bytes) frame_len there ≡ ok header
  pub is_data : (header.ch_type ≡ 0x02) × (header.msg_type ≡ 0x04)
  pub same_port : header.ch_id ≡ port
  pub ends : 24 + t.len ≡ frame_len
  pub within : t.len ≤ capacity
  pub filled_with : t.bytes ≡ splice dst 0 (take t.len (drop 24 bytes))

-- The tests on a frame that a read completed.
module _ (bytes : List ℕ) (frame_len port : ℕ) (dst : List ℕ) (capacity : ℕ) where
  taken : ℕ → Taken
  taken n = record { bytes = splice dst 0 (take n (drop 24 bytes)); len = n }

  -- The tests behind the decoding, of a header whose payload both buffers hold.
  take_data_lem :
      (h : Header)
      → decode_header (some bytes) frame_len there ≡ ok h
      → capacity ≤ length dst
      → 24 + h.payload_len ≤ length bytes
      → take_data (record { bytes = bytes; frame_len = frame_len }) port dst capacity ≡ (
          if h.ch_type != 0x02 || h.ch_id != port || h.msg_type != 0x04
          then err err_proto
          else if ltb capacity h.payload_len
          then err err_overflow
          else ok (taken h.payload_len))
  unfolding take_data taken
  take_data_lem h done held inside =
      elim (Bool-cases (h.ch_type != 0x02 || h.ch_id != port || h.msg_type != 0x04)) [
        | inl other ↦ rw (done, other) refl
        | inr same ↦ elim (Bool-cases (ltb capacity h.payload_len)) [
          | inl large ↦ rw (done, same, large) refl
          | inr small ↦
              rw
                (
                  done,
                  same,
                  small,
                  leb-true h.payload_len (length dst) (ground arith),
                  leb-true (24 + h.payload_len) (length bytes) inside,
                )
                refl
        ]
      ]

  tested :
      (h : Header) (t : Taken)
      → (if h.ch_type != 0x02 || h.ch_id != port || h.msg_type != 0x04
          then err err_proto
          else if ltb capacity h.payload_len
          then err err_overflow
          else ok (taken h.payload_len))
        ≡ ok t
      → (h.ch_type ≡ 0x02)
        × (h.msg_type ≡ 0x04)
        × (h.ch_id ≡ port)
        × (h.payload_len ≤ capacity)
        × (taken h.payload_len ≡ t)
  tested h t out = ground arith

  given_out :
      (h : Header) (t : Taken)
      → decode_header (some bytes) frame_len there ≡ ok h
      → 24 + h.payload_len ≡ frame_len
      → (h.ch_type ≡ 0x02)
        × (h.msg_type ≡ 0x04)
        × (h.ch_id ≡ port)
        × (h.payload_len ≤ capacity)
        × (taken h.payload_len ≡ t)
      → Data bytes frame_len port dst capacity t
  unfolding taken
  given_out h t done ends (ch, msg, id, small, same) =
      subst (Data bytes frame_len port dst capacity) same (record {
        header = h;
        decodes = done;
        is_data = (ch, msg);
        same_port = id;
        ends = ends;
        within = small;
        filled_with = refl;
      })

  take_data-Data :
      (count : ℕ)
      → Complete bytes 512 count frame_len
      → length bytes ≡ 512
      → capacity ≤ length dst
      → let frame : LocalFrame = record { bytes = bytes; frame_len = frame_len } in
        (take_data frame port dst capacity ≢ fault)
        × ((t : Taken)
            → take_data frame port dst capacity ≡ ok t
            → Data bytes frame_len port dst capacity t)
  unfolding taken
  take_data-Data count c whole held =
      elim (Ret-cases (decode_header (some bytes) frame_len there)
        (decode_header-defined_any bytes frame_len (omega arith))) [
          | inr (e, refused) ↦ unfold take_data in rw refused ((λ h. cc), (λ t h. cc))
          | inl (h, done) ↦
              let (equal, total) = decode_again bytes 512 count frame_len h c done in
              let (ends, small) = payload_ends bytes frame_len h done total in
              rw (take_data_lem h done held (omega (arith, c.within, ends)))
                ((ground arith), λ t out. given_out h t done ends (tested h t out))
        ]

module _ (P : Platform) (L : BulkLaws P) where
  -- After `ch32mux_uart_read` from the state `s`.
  pub record DataRead (s : State P.World) (port : ℕ) (dst : List ℕ) (capacity : ℕ) (r : Ret Taken)
      (s' : State P.World) : Type 0 where
    pub defined : r ≢ fault
    pub device : s'.device ≡ s.device
    pub quiet : L.delivered s'.world ≡ L.delivered s.world
    pub taken_from :
        (t : Taken)
        → r ≡ ok t
        → (bytes : List ℕ) × (count : ℕ) × (frame_len : ℕ) × (L.received s'.world
            ≡ L.received s.world ++ take count bytes)
          × (frame_len ≤ count)
          × (Data bytes frame_len port dst capacity t)

  read_open :
      (w : P.World) (d : Device) (port : ℕ) (dst : List ℕ) (capacity : ℕ)
      → capacity ≤ length dst
      → let s : State P.World = record { device = some d; world = w } in
        let (r, s') = uart_read P port (some dst) capacity there s in
        DataRead s port dst capacity r s'
  unfolding uart_read uart_read_on
  read_open w d port dst capacity held = elim (Ret-cases (read_local P s).0 read.defined) [
    | inr (e, failed) ↦ rw failed (record {
      defined = λ h. cc;
      device = read.device;
      quiet = read.quiet;
      taken_from = λ t h. absurd (cc);
    })
    | inl (f, fine) ↦
        let (count, stream, complete, size) = read.arrived f fine in
        let (safe, facts) =
          take_data-Data f.bytes f.frame_len port dst capacity count complete size held in
        rw fine (record {
          defined = safe;
          device = read.device;
          quiet = read.quiet;
          taken_from = λ t h. (f.bytes, count, f.frame_len, stream, complete.arrived, facts t h);
        })
  ]
    where
      s : State P.World
      s = record { device = some d; world = w }

      read : let (r, s') = read_local P s in ReadLocal P L s r s'
      read = read_local-ReadLocal P L s d refl

  -- A read on an open device into a buffer as long as the caller says, on a libusb that reports
  -- what it moved: no access is out of bounds, the loop ends, nothing is sent and the device keeps
  -- its state. If data is returned, it is the payload of a frame received by this call, which
  -- decodes and is a data frame of this port, and the buffer holds that payload at its front and is
  -- otherwise unchanged.
  pub uart_read-DataRead :
      (s : State P.World) (d : Device) (port : ℕ) (dst : List ℕ) (capacity : ℕ)
      → s.device ≡ some d
      → capacity ≤ length dst
      → let (r, s') = uart_read P port (some dst) capacity there s in
        DataRead s port dst capacity r s'
  uart_read-DataRead s d port dst capacity opened held =
      subst
        (λ (x : State P.World).
          let (r, s') = uart_read P port (some dst) capacity there x in
          DataRead x port dst capacity r s')
        (λ i. record { device = sym opened i; world = s.world })
        (read_open s.world d port dst capacity held)

  write_open :
      (w : P.World) (d : Device) (port : ℕ) (payload : Option (List ℕ)) (n : ℕ)
      → Holds payload n
      → (is_null payload && n != 0) ≡ false
      → let s : State P.World = record { device = some d; world = w } in
        let (r, s') = uart_write P port payload n s in
        Delivered P L
          (record s { device = some (bump d) })
          (asking d.next_seq 0x02 port 0x04 0)
          payload
          n
          r
          s'
  unfolding uart_write uart_write_on next_seq
  write_open w d port payload n held given_ok = rw given_ok (
      send_frame-Delivered P L (record { device = some (bump d); world = w }) (bump d)
        (asking d.next_seq 0x02 port 0x04 0) payload n refl held)

  -- A write on an open device of at most the bytes that the caller holds, not NULL unless empty, on
  -- a libusb that reports what it moved: no access is out of
  -- bounds, every loop ends, nothing is received, and the wire takes a first part of the data frame
  -- of this port with the device's sequence number. On success there were at most 488 bytes and the
  -- wire has the whole frame.
  pub uart_write-Delivered :
      (s : State P.World) (d : Device) (port : ℕ) (payload : Option (List ℕ)) (n : ℕ)
      → s.device ≡ some d
      → Holds payload n
      → (is_null payload && n != 0) ≡ false
      → let (r, s') = uart_write P port payload n s in
        Delivered P L
          (record s { device = some (bump d) })
          (asking d.next_seq 0x02 port 0x04 0)
          payload
          n
          r
          s'
  uart_write-Delivered s d port payload n opened held given_ok =
      subst
        (λ (x : State P.World).
          let (r, s') = uart_write P port payload n x in
          Delivered P L (record x { device = some (bump d) }) (asking d.next_seq 0x02 port 0x04 0)
            payload n r s')
        (λ i. record { device = sym opened i; world = s.world })
        (write_open s.world d port payload n held given_ok)
