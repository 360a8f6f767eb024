-- ===== src/Exchange/Answer.antt =====
-- `accept`: what a response that the exchange returns has passed, and that no copy is out of
-- bounds.
use usbmux_tool.Base.{
  ℕ, ◌+◌, ◌≤◌, ◌≡◌, ◌≢◌, refl, arith, Bool-cases, inl, inr, Option, some, List, length, ◌&&◌, ◌||◌,
  Ret, Ret-cases, ok, fault, err_arg, err_proto, err_overflow, err_device_status, fail_if, ◌>>=◌,
  ◌>>◌, there, ltb, ◌!=◌, if◌then◌else◌,
}
use usbmux_tool.Proto.Header.{Header}
use usbmux_tool.Proto.Codec.{decode_header, is_null}
use usbmux_tool.Proto.Codec.Prefix.{decode_header-defined_any}
use usbmux_tool.Proto.Codec.Frame.{Holds}
use usbmux_tool.Device.Read.Stage.{Complete}
use usbmux_tool.Exchange.Accept.{LocalFrame, Response, accept, copy_out}
use usbmux_tool.Exchange.Payload.{payload_ends, decode_again, copy_out_lem, Holds-less, filled}

-- A response to the request numbered `seq`, read as the frame `bytes` of `frame_len` bytes.
pub record Answers (bytes : List ℕ) (frame_len seq ch_type ch_id opcode : ℕ) (dst : Option (List ℕ))
    (capacity : ℕ) (r : Response) : Type 0 where
  pub decodes : decode_header (some bytes) frame_len there ≡ ok r.header
  pub is_response : r.header.msg_type ≡ 0x02
  pub answers : r.header.ref_seq ≡ seq
  pub same_channel : (r.header.ch_type ≡ ch_type) × (r.header.ch_id ≡ ch_id)
  pub same_opcode : r.header.opcode ≡ opcode
  pub status_ok : r.header.status ≡ 0
  pub ends : 24 + r.len ≡ frame_len
  pub held : 24 + r.len ≤ length bytes
  pub within : r.len ≤ capacity
  pub filled_with : r.payload ≡ filled dst bytes r.len

-- The part of `accept` behind the decoding.
checked : Header → List ℕ → ℕ → ℕ → ℕ → ℕ → Option (List ℕ) → ℕ → Ret Response
checked h bytes seq ch_type ch_id opcode dst capacity = do
  fail_if
      (h.msg_type != 0x02
        || h.ref_seq != seq
        || h.ch_type != ch_type
        || h.ch_id != ch_id
        || h.opcode != opcode)
      err_proto
  fail_if (h.status != 0) err_device_status
  fail_if (ltb capacity h.payload_len) err_overflow
  fail_if (h.payload_len != 0 && is_null dst) err_arg
  out ← if h.payload_len != 0 then copy_out dst bytes h.payload_len else ok dst
  ok (record { header = h; payload = out; len = h.payload_len })

module _ (bytes : List ℕ) (frame_len seq ch_type ch_id opcode : ℕ) (dst : Option (List ℕ))
    (capacity : ℕ) where
  checked-defined :
      (h : Header)
      → Holds dst capacity
      → 24 + h.payload_len ≤ length bytes
      → checked h bytes seq ch_type ch_id opcode dst capacity ≢ fault
  unfolding checked
  checked-defined h p q = elim (Bool-cases (ltb capacity h.payload_len)) [
    | inl large ↦ rw large (ground arith)
    | inr small ↦
        rw
          (copy_out_lem dst bytes h.payload_len
            (Holds-less dst h.payload_len capacity p (ground arith)) q)
          (ground arith)
  ]

  -- What the tests establish.
  checked-ok :
      (h : Header) (r : Response)
      → Holds dst capacity
      → 24 + h.payload_len ≤ length bytes
      → checked h bytes seq ch_type ch_id opcode dst capacity ≡ ok r
      → (h.msg_type ≡ 0x02)
        × (h.ref_seq ≡ seq)
        × (h.ch_type ≡ ch_type)
        × (h.ch_id ≡ ch_id)
        × (h.opcode ≡ opcode)
        × (h.status ≡ 0)
        × (h.payload_len ≤ capacity)
        × (r.header ≡ h)
        × (r.len ≡ h.payload_len)
        × (r.payload ≡ filled dst bytes h.payload_len)
  unfolding checked
  checked-ok h r p q done = elim (Bool-cases (ltb capacity h.payload_len)) [
    | inl large ↦ ground arith
    | inr small ↦ ground (
      arith,
      copy_out_lem dst bytes h.payload_len (Holds-less dst h.payload_len capacity p (ground arith))
          q,
    )
  ]

  accept_lem :
      (h : Header)
      → decode_header (some bytes) frame_len there ≡ ok h
      → accept
          (record { bytes = bytes; frame_len = frame_len })
          seq
          ch_type
          ch_id
          opcode
          dst
          capacity
        ≡ checked h bytes seq ch_type ch_id opcode dst capacity
  unfolding accept checked
  accept_lem h done = rw done refl

  -- The frame of a completed read is checked without an access out of bounds, and a response that
  -- comes out answers the request.
  pub accept-Answers :
      (count : ℕ)
      → Complete bytes 512 count frame_len
      → length bytes ≡ 512
      → Holds dst capacity
      → let frame : LocalFrame = record { bytes = bytes; frame_len = frame_len } in
        (accept frame seq ch_type ch_id opcode dst capacity ≢ fault)
        × ((r : Response)
            → accept frame seq ch_type ch_id opcode dst capacity ≡ ok r
            → Answers bytes frame_len seq ch_type ch_id opcode dst capacity r)
  accept-Answers count c whole p =
      elim (Ret-cases (decode_header (some bytes) frame_len there)
        (decode_header-defined_any bytes frame_len (omega arith))) [
          | inr (e, refused) ↦ unfold accept in rw refused ((λ h. cc), (λ r h. cc))
          | inl (h, done) ↦
              let (equal, total) = decode_again bytes 512 count frame_len h c done in
              let (ends, small) = payload_ends bytes frame_len h done total in
              let held : 24 + h.payload_len ≤ length bytes = omega (arith, c.within) in
              rw (accept_lem h done) (
                checked-defined h p held,
                λ r out. answer h r done ends held (checked-ok h r p held out),
              )
        ]
    where
      answer :
          (h : Header) (r : Response)
          → decode_header (some bytes) frame_len there ≡ ok h
          → 24 + h.payload_len ≡ frame_len
          → 24 + h.payload_len ≤ length bytes
          → (h.msg_type ≡ 0x02)
            × (h.ref_seq ≡ seq)
            × (h.ch_type ≡ ch_type)
            × (h.ch_id ≡ ch_id)
            × (h.opcode ≡ opcode)
            × (h.status ≡ 0)
            × (h.payload_len ≤ capacity)
            × (r.header ≡ h)
            × (r.len ≡ h.payload_len)
            × (r.payload ≡ filled dst bytes h.payload_len)
          → Answers bytes frame_len seq ch_type ch_id opcode dst capacity r
      answer h r done ends held (rsp, ref, ch, id, op, status, small, same, len, out) = record {
        decodes = rw same done;
        is_response = rw same rsp;
        answers = rw same ref;
        same_channel = (rw same ch, rw same id);
        same_opcode = rw same op;
        status_ok = rw same status;
        ends = rw len ends;
        held = rw len held;
        within = rw len small;
        filled_with = rw len out;
      }
