-- ===== src/Ble/Manage/Laws.antt =====
-- The two static `transact` are one exchange; the commands that are made with that of ble.c.
use usbmux_tool.Base.{
  there, ℕ, Ret, Done, ok, err, fault, ap, ◌/◌, ◌%◌, ◌^◌, ◌<◌, ◌≡◌, refl, arith, Option, some, none,
  List, [], ◌∷◌, replicate,
}
use usbmux_tool.Proto.Words.{read_le16}
use usbmux_tool.Proto.Words.Laws.{write_le16_lem, read_le16_lem}
use usbmux_tool.Device.Platform.{Platform, BulkLaws}
use usbmux_tool.Proto.Header.{max_frame_len}
use usbmux_tool.Proto.Codec.{Built, build_frame}
use usbmux_tool.Device.State.{Device, State, lift, continue, next_seq, ◌>>=◌, ◌>>◌}
use usbmux_tool.Device.Write.{write_frame}
use usbmux_tool.Exchange.{transact, transact_on, send_frame, read_local}
use usbmux_tool.Exchange.Accept.{LocalFrame, frame_buffer, Response, accept}
use usbmux_tool.Ble.Manage.Reply.{accept_reply, accept_reply-accept}
use usbmux_tool.Exchange.Laws.{Exchanged, transact-Exchanged}
use usbmux_tool.Ble.Manage
use usbmux_tool.Exchange.Query.{Reported, query-Reported}
use usbmux_tool.Ble.Manage.{
  BleCap, ble_get_cap, ble_cap_of, ble_set_scan_param, ScanParam, scan_payload, command_header,
  receive_reply,
}

module _ (P : Platform) where
  received :
      (seq opcode : ℕ) (dst : Option (List ℕ)) (capacity : ℕ) (r : Ret LocalFrame)
      (t : State P.World)
      → continue r (λ frame. lift (accept_reply frame seq opcode dst capacity)) t
        ≡ continue r (λ frame. lift (accept frame seq 0x10 0 opcode dst capacity)) t
  received seq opcode dst capacity (ok frame) t =
      ap (λ (a : Ret Response). (a, t)) (accept_reply-accept frame seq opcode dst capacity)
  received seq opcode dst capacity (err e) t = refl
  received seq opcode dst capacity fault t = refl

  -- From the result of the write on.
  written :
      (seq opcode : ℕ) (dst : Option (List ℕ)) (capacity : ℕ) (r : Ret Done) (t : State P.World)
      → continue r
          (λ _. receive_reply P >>= λ frame. lift (accept_reply frame seq opcode dst capacity))
          t
        ≡ continue r
            (λ _. read_local P >>= λ frame. lift (accept frame seq 0x10 0 opcode dst capacity))
            t
  unfolding receive_reply read_local
  written seq opcode dst capacity (ok u) t =
      let out = read_local P t in received seq opcode dst capacity out.0 out.1
  written seq opcode dst capacity (err e) t = refl
  written seq opcode dst capacity fault t = refl

  -- From the request's frame on.
  sent :
      (seq opcode : ℕ) (dst : Option (List ℕ)) (capacity : ℕ) (b : Ret Built) (t : State P.World)
      → continue b
          (λ b.
            write_frame P (some b.dst) b.frame_len
            >> (receive_reply P >>= λ frame. lift (accept_reply frame seq opcode dst capacity)))
          t
        ≡ ((lift b >>= λ b. write_frame P (some b.dst) b.frame_len)
              >> (read_local P >>= λ frame. lift (accept frame seq 0x10 0 opcode dst capacity)))
            t
  sent seq opcode dst capacity (ok b) t =
      let out = write_frame P (some b.dst) b.frame_len t in
      written seq opcode dst capacity out.0 out.1
  sent seq opcode dst capacity (err e) t = refl
  sent seq opcode dst capacity fault t = refl

  on_channel :
      (device : Option Device) (opcode : ℕ) (payload : Option (List ℕ)) (n : ℕ)
      (dst : Option (List ℕ)) (capacity : ℕ) (s : State P.World)
      → Manage.transact_on P device opcode payload n dst capacity s
        ≡ transact_on P device 0x10 0 0x01 opcode payload n dst capacity s
  unfolding Manage.transact_on transact_on send_frame
  on_channel none opcode payload n dst capacity s = refl
  on_channel (some d) opcode payload n dst capacity s =
      let (seq, s') = next_seq s in
      sent seq opcode dst capacity
        (build_frame (some frame_buffer) max_frame_len there (some (command_header seq opcode))
          payload n)
        s'

  -- In every state, with or without a device, and on every argument, the exchange that is written
  -- out in userspace/src/ble.c does what that of userspace/src/uart.c does for commands on the
  -- channel CH32MUX_CH_BLE_MGMT, number 0: the same answer, the same payload and the same state.
  pub transact-transact :
      (opcode : ℕ) (payload : Option (List ℕ)) (n : ℕ) (dst : Option (List ℕ)) (capacity : ℕ)
      (s : State P.World)
      → Manage.transact P opcode payload n dst capacity s
        ≡ transact P 0x10 0 0x01 opcode payload n dst capacity s
  unfolding Manage.transact transact
  transact-transact opcode payload n dst capacity s =
      on_channel s.device opcode payload n dst capacity s

-- The nine bytes of the scan parameters, words with the low byte first.
abbrev pub scan_bytes : ScanParam → List ℕ
scan_bytes p =
    p.interval % 256
    ∷ p.interval / 256
    ∷ p.window % 256
    ∷ p.window / 256
    ∷ p.duration % 256
    ∷ p.duration / 256
    ∷ p.mode
    ∷ p.active
    ∷ p.white_list
    ∷ []

scan_payload_lem :
    (p : ScanParam)
    → p.interval < 2 ^ 16
    → p.window < 2 ^ 16
    → p.duration < 2 ^ 16
    → scan_payload p ≡ scan_bytes p
unfolding scan_payload
scan_payload_lem p i w d =
    rw
      (
        write_le16_lem (replicate 9 0) 0 p.interval i,
        write_le16_lem _ 2 p.window w,
        write_le16_lem _ 4 p.duration d,
      )
      refl

-- The eight bytes of the radio's capabilities on the wire, words with the low byte first.
abbrev pub ble_cap_bytes : BleCap → List ℕ
ble_cap_bytes x =
    x.max_links
    ∷ x.supports_scan
    ∷ x.supports_connect
    ∷ x.supports_gatt
    ∷ x.scan_interval % 256
    ∷ x.scan_interval / 256
    ∷ x.scan_window % 256
    ∷ x.scan_window / 256
    ∷ []

ble_cap_of-ble_cap_bytes :
    (x : BleCap)
    → x.scan_interval < 2 ^ 16
    → x.scan_window < 2 ^ 16
    → ble_cap_of (ble_cap_bytes x) ≡ x
unfolding ble_cap_of
ble_cap_of-ble_cap_bytes x p q = rw (interval, window) refl
  where
    interval : read_le16 (ble_cap_bytes x) 4 ≡ x.scan_interval
    interval = omega (arith, read_le16_lem (ble_cap_bytes x) 4 (omega arith) (omega arith))

    window : read_le16 (ble_cap_bytes x) 6 ≡ x.scan_window
    window = omega (arith, read_le16_lem (ble_cap_bytes x) 6 (omega arith) (omega arith))

module _ (P : Platform) (L : BulkLaws P) where
  -- On an open device and a libusb that reports what it moved, with parameters that are `uint16_t`:
  -- setting the scan parameters is an exchange whose request is the frame of the nine bytes of the
  -- parameters, words with the low byte first, with opcode 2 on the channel 0x10; the wire takes a
  -- first part of that frame and nothing else, all of it on success, and success means an empty
  -- response to this request with status 0.
  pub ble_set_scan_param-Exchanged :
      (s : State P.World) (d : Device) (p : ScanParam)
      → s.device ≡ some d
      → p.interval < 2 ^ 16
      → p.window < 2 ^ 16
      → p.duration < 2 ^ 16
      → let (r, s') = ble_set_scan_param P p s in
        Exchanged P L s d 0x10 0 0x01 0x02 (some (scan_bytes p)) 9 none 0 r s'
  unfolding ble_set_scan_param
  ble_set_scan_param-Exchanged s d p opened i w u =
      rw (scan_payload_lem p i w u, transact-transact P 0x02 (some (scan_bytes p)) 9 none 0 s)
        (transact-Exchanged P L s d 0x10 0 0x01 0x02 (some (scan_bytes p)) 9 none 0 opened
          (omega arith) tt)

  pub ble_get_cap_answer :
      (s : State P.World) (d : Device)
      → s.device ≡ some d
      → let (r, s') = ble_get_cap P there s in Reported P L s d 0x10 0 0x01 8 ble_cap_of r s'
  unfolding ble_get_cap
  ble_get_cap_answer s d opened = rw (transact-transact P 0x01 none 0 (some (replicate 8 0)) 8 s) (
      query-Reported P L s d 0x10 0 0x01 8 ble_cap_of
        (transact P 0x10 0 0x01 0x01 none 0 (some (replicate 8 0)) 8 s) (omega arith)
        (transact-Exchanged P L s d 0x10 0 0x01 0x01 none 0 (some (replicate 8 0)) 8 opened tt
          (omega arith)))

  -- The capability query of the radio on an open device, on a libusb that reports what it moved: no
  -- access is out of bounds and every loop ends; the sequence number moves on by one. What is
  -- reported is what `ble_cap_of` reads in the eight payload bytes of a frame received by the call,
  -- which is a response with status 0 to this request, and in the bytes of capabilities on the wire,
  -- four bytes and then two 16-bit words with their low byte first, it reads those capabilities.
  pub ble_get_cap-Reported :
      (s : State P.World) (d : Device) (x : BleCap)
      → s.device ≡ some d
      → x.scan_interval < 2 ^ 16
      → x.scan_window < 2 ^ 16
      → (let (r, s') = ble_get_cap P there s in Reported P L s d 0x10 0 0x01 8 ble_cap_of r s')
        × (ble_cap_of (ble_cap_bytes x) ≡ x)
  ble_get_cap-Reported s d x opened p q =
      (ble_get_cap_answer s d opened, ble_cap_of-ble_cap_bytes x p q)
