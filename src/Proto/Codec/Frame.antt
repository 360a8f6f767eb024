-- ===== src/Proto/Codec/Frame.antt =====
-- `ch32mux_build_frame`: the frame that it leaves in the buffer, and what the decoder makes of it.
use usbmux_tool.Base.{
  ℕ, zero, suc, ◌+◌, ◌^◌, ◌≤◌, ◌≡◌, refl, ◌∙◌, arith, List, [], ◌++◌, Option, none, some, ◌&&◌,
  ◌!=◌, if◌then◌else◌, length, take, drop, drop-add, drop-front, take-front, length-take,
  length-drop, splice-append, ◌>>=◌, length-append, ok, err, err_arg, err_overflow, there, leb-true,
  ltb-false, !=_true, Bool-cases, inl, inr, !=_false, ◌%◌, ltb,
}
use usbmux_tool.Proto.Header.{Header, IsHeader}
use usbmux_tool.Proto.Codec.{
  prepare, encode_header, decode_header, Built, build_frame, copy_payload, is_null,
}
use usbmux_tool.Proto.Codec.Layout.{layout}
use usbmux_tool.Proto.Codec.RoundTrip.{
  encoded, encode_header_lem, header_crc, decode_header-layout, prepare-IsHeader,
  check_header_shape-prepare,
}

-- The bytes at `payload`: none if it is NULL.
abbrev pub given : Option (List ℕ) → List ℕ
given none = []
given (some payload) = payload

abbrev pub sized : Header → ℕ → Header
sized h n = record h { payload_len = n }

-- The frame that a request with header `h` and the first `n` bytes of `payload` becomes.
unfoldable pub frame_bytes : Header → List ℕ → List ℕ
frame_bytes h body = layout h (header_crc h) ++ body

unfoldable pub built : List ℕ → Header → List ℕ → ℕ → Built
built dst h payload n =
    let p = prepare (sized h n) in
    record {
      dst = frame_bytes p (take n payload) ++ drop (24 + n) dst;
      frame_len = 24 + n;
      header = record p { header_crc16 = header_crc p };
    }

-- The copy behind a header that stands at the front.
copy_payload_lem :
    (front dst payload : List ℕ) (n : ℕ)
    → length front ≡ 24
    → n ≤ length payload
    → 24 + n ≤ length dst
    → copy_payload (front ++ drop 24 dst) (some payload) n
      ≡ ok (front ++ (take n payload ++ drop (24 + n) dst))
unfolding copy_payload
copy_payload_lem front dst payload n whole held room =
    rw
      (
        leb-true n (length payload) held,
        leb-true (24 + n) (length (front ++ drop 24 dst)) fits,
        ← whole,
        splice-append front (drop (length front) dst) (take n payload),
        copied,
        drop-add (length front) n dst,
      )
      refl
  where
    fits : 24 + n ≤ length (front ++ drop 24 dst)
    fits = omega (arith, length-append front (drop 24 dst), length-drop 24 dst)

    copied : length (take n payload) ≡ n
    copied = omega (arith, length-take n payload)

narrow : (n : ℕ) → n ≤ 488 → n % 2 ^ 16 ≡ n
narrow n h = omega arith

build_frame_steps :
    (dst : List ℕ) (dst_len : ℕ) (h : Header) (payload : Option (List ℕ)) (n : ℕ)
    → n ≤ 488
    → 24 + n ≤ dst_len
    → n ≤ length (given payload)
    → build_frame (some dst) dst_len there (some h) payload n ≡ (do
      e ← encode_header (some dst) dst_len (some (sized h n))
      out ← if n != 0 then copy_payload e.dst payload n else ok e.dst
      ok (record { dst = out; frame_len = 24 + n; header = e.header }))
unfolding build_frame
build_frame_steps dst dst_len h none n small room p =
    rw
      (
        !=_false n 0 (omega arith),
        ltb-false 488 n small,
        ltb-false dst_len (24 + n) room,
        narrow n small,
      )
      refl
build_frame_steps dst dst_len h (some payload) n small room p =
    rw (ltb-false 488 n small, ltb-false dst_len (24 + n) room, narrow n small) refl

pub build_frame_lem :
    (dst : List ℕ) (dst_len : ℕ) (h : Header) (payload : Option (List ℕ)) (n : ℕ)
    → n ≤ 488
    → 24 + n ≤ dst_len
    → dst_len ≤ length dst
    → n ≤ length (given payload)
    → build_frame (some dst) dst_len there (some h) payload n ≡ ok (built dst h (given payload) n)
unfolding built frame_bytes
build_frame_lem dst dst_len h none (suc n) small room real p = absurd (omega arith)
build_frame_lem dst dst_len h none zero small room real p =
    rw
      (
        build_frame_steps dst dst_len h none 0 small room p,
        encode_header_lem dst dst_len (sized h 0) (omega arith) (omega arith) (omega arith),
      )
      (unfold encoded in refl)
build_frame_lem dst dst_len h (some payload) zero small room real p =
    rw
      (
        build_frame_steps dst dst_len h (some payload) 0 small room p,
        encode_header_lem dst dst_len (sized h 0) (omega arith) (omega arith) (omega arith),
      )
      (unfold encoded in refl)
build_frame_lem dst dst_len h (some payload) (suc n) small room real p =
    rw
      (
        build_frame_steps dst dst_len h (some payload) (suc n) small room p,
        encode_header_lem dst dst_len (sized h (suc n)) (omega arith) small (omega arith),
        !=_true (suc n) 0 (omega arith),
      )
      (unfold encoded in
        rw (copy_payload_lem (layout q (header_crc q)) dst payload (suc n) refl p (omega arith))
          refl)
  where
    q : Header
    q = prepare (sized h (suc n))

-- The caller's payload buffer holds the `n` bytes that it promises.
abbrev pub Holds : Option (List ℕ) → ℕ → Type 0
Holds none n = Unit
Holds (some payload) n = n ≤ length payload

-- Every outcome, in a buffer that is as long as the caller says: NULL for a payload that is not
-- empty is an argument error; more than 488 bytes, or more than fit, overflow; anything else
-- succeeds with the frame at the front of the buffer. No access is out of bounds.
pub build_frame_total :
    (dst : List ℕ) (dst_len : ℕ) (h : Header) (payload : Option (List ℕ)) (n : ℕ)
    → dst_len ≤ length dst
    → Holds payload n
    → build_frame (some dst) dst_len there (some h) payload n ≡ (
        if is_null payload && n != 0
        then err err_arg
        else if ltb 488 n
        then err err_overflow
        else if ltb dst_len (24 + n)
        then err err_overflow
        else ok (built dst h (given payload) n))
build_frame_total dst dst_len h none zero real held = elim (Bool-cases (ltb dst_len 24)) [
  | inl short ↦ unfold build_frame in rw short refl
  | inr fits ↦
      rw fits (build_frame_lem dst dst_len h none 0 (omega arith) (ground arith) real (omega arith))
]
build_frame_total dst dst_len h none (suc n) real held =
    rw (!=_true (suc n) 0 (omega arith))
      (unfold build_frame in rw (!=_true (suc n) 0 (omega arith)) refl)
build_frame_total dst dst_len h (some payload) n real held = elim (Bool-cases (ltb 488 n)) [
  | inl large ↦ unfold build_frame in rw large refl
  | inr small ↦ elim (Bool-cases (ltb dst_len (24 + n))) [
    | inl short ↦ unfold build_frame in rw (small, short) refl
    | inr fits ↦
        rw (small, fits)
          (build_frame_lem dst dst_len h (some payload) n (ground arith) (ground arith) real held)
  ]
]

-- Success, and what it means for the arguments.
pub build_frame-ok :
    (dst : List ℕ) (dst_len : ℕ) (h : Header) (payload : Option (List ℕ)) (n : ℕ) (b : Built)
    → dst_len ≤ length dst
    → Holds payload n
    → build_frame (some dst) dst_len there (some h) payload n ≡ ok b
    → (n ≤ 488)
      × (24 + n ≤ dst_len)
      × (n ≤ length (given payload))
      × (b ≡ built dst h (given payload) n)
build_frame-ok dst dst_len h none n b real held done =
    ground (arith, build_frame_total dst dst_len h none n real held)
build_frame-ok dst dst_len h (some payload) n b real held done =
    ground (arith, build_frame_total dst dst_len h (some payload) n real held)

built-decodes :
    (dst : List ℕ) (h : Header) (payload : List ℕ) (n : ℕ)
    → IsHeader h
    → n ≤ 488
    → decode_header (some (built dst h payload n).dst) (24 + n) there
      ≡ ok (built dst h payload n).header
unfolding built frame_bytes
built-decodes dst h payload n fits small =
    decode_header-layout (prepare (sized h n)) (take n payload ++ drop (24 + n) dst) (24 + n)
      (prepare-IsHeader (sized h n) (ground arith)) (omega arith)
      (check_header_shape-prepare (sized h n) _ small)

built-header :
    (dst : List ℕ) (h : Header) (payload : List ℕ) (n : ℕ)
    → n ≤ 488
    → let b = built dst h payload n in
      b.header ≡ record h {
        magic = 0xa55a;
        version = 1;
        header_len = 24;
        total_len = b.frame_len;
        payload_len = n;
        header_crc16 = b.header.header_crc16;
      }
unfolding built prepare
built-header dst h payload n small =
    let c = header_crc (prepare (sized h n)) in
    let total : (24 + n) % 2 ^ 16 ≡ 24 + n = omega arith in
    λ i. record h {
      magic = 0xa55a;
      version = 1;
      header_len = 24;
      total_len = total i;
      payload_len = n;
      header_crc16 = c;
    }

built-parts :
    (dst : List ℕ) (h : Header) (payload : List ℕ) (n : ℕ)
    → IsHeader h
    → n ≤ 488
    → n ≤ length payload
    → let b = built dst h payload n in
      (b.frame_len ≡ 24 + n)
      × (decode_header (some b.dst) b.frame_len there ≡ ok b.header)
      × (b.header ≡ record h {
        magic = 0xa55a;
        version = 1;
        header_len = 24;
        total_len = b.frame_len;
        payload_len = n;
        header_crc16 = b.header.header_crc16;
      })
      × (take n (drop 24 b.dst) ≡ take n payload)
      × (drop b.frame_len b.dst ≡ drop b.frame_len dst)
unfolding built frame_bytes
built-parts dst h payload n fits small long = (
  refl,
  built-decodes dst h payload n fits small,
  built-header dst h payload n small,
  take-front n (take n payload) (drop (24 + n) dst) copied,
  drop-add 24 n (frame_bytes p (take n payload) ++ drop (24 + n) dst)
      ∙ drop-front n (take n payload) (drop (24 + n) dst) copied,
)
  where
    p : Header
    p = prepare (sized h n)

    copied : length (take n payload) ≡ n
    copied = omega (arith, length-take n payload)

-- A frame that was built, in a buffer as long as the caller says and from a payload as long as the
-- caller says, decodes, at its own length, to the header that the caller is left with; the
-- payload stands behind the header; nothing behind the frame has changed.
pub decode_header-build_frame :
    (dst : List ℕ) (dst_len : ℕ) (h : Header) (payload : Option (List ℕ)) (n : ℕ) (b : Built)
    → IsHeader h
    → dst_len ≤ length dst
    → Holds payload n
    → build_frame (some dst) dst_len there (some h) payload n ≡ ok b
    → (b.frame_len ≡ 24 + n)
      × (decode_header (some b.dst) b.frame_len there ≡ ok b.header)
      × (b.header ≡ record h {
        magic = 0xa55a;
        version = 1;
        header_len = 24;
        total_len = b.frame_len;
        payload_len = n;
        header_crc16 = b.header.header_crc16;
      })
      × (take n (drop 24 b.dst) ≡ take n (given payload))
      × (drop b.frame_len b.dst ≡ drop b.frame_len dst)
decode_header-build_frame dst dst_len h payload n b fits real held done =
    let (small, room, long, same) = build_frame-ok dst dst_len h payload n b real held done in
    rw same (built-parts dst h (given payload) n fits small long)
