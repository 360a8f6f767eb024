-- ===== src/Device/Read/Stage.antt =====
-- Where the loop of `ch32mux_read_frame` stands, and what a round does to the target.
use usbmux_tool.Base.{
  ℕ, ◌≤◌, ◌<◌, ◌≡◌, refl, sym, ap, ◌∙◌, arith, Bool-cases, ◌⊎◌, inl, inr, false, List, length, take,
  take-take, Ret-cases, ok, err, some, pos, pos_part, int_of_size, is_nonpositive, leb, ltb, Code,
  err_overflow, leb-true, ==_false, there,
}
use usbmux_tool.Proto.Header.{Header}
use usbmux_tool.Proto.Codec.{decode_header}
use usbmux_tool.Proto.Codec.Prefix.{decode_header-prefix, decode_header-defined}
use usbmux_tool.Device.Read.{packet, next_target}

-- Where the loop stands: before the header is complete, or behind it with the frame's length.
pub data Stage (frame : List ℕ) (capacity offset target : ℕ) : Type 0 where
  waiting : offset < 24 → target ≡ 24 → Stage frame capacity offset target
  decoded :
      (h : Header)
      → 24 ≤ offset
      → decode_header (some frame) offset there ≡ ok h
      → target ≡ h.total_len
      → target ≤ capacity
      → Stage frame capacity offset target

-- The target after a round that reached `offset`.
abbrev pub Retargeted : List ℕ → ℕ → ℕ → ℕ → Type 0
Retargeted frame capacity offset target =
    ((e : Code) × (next_target frame capacity offset target ≡ err e))
    ⊎ ((target' : ℕ) × (next_target frame capacity offset target ≡ ok target')
        × Stage frame capacity offset target')

fresh_header :
    (frame : List ℕ) (capacity offset : ℕ)
    → 24 ≤ offset
    → 24 ≤ length frame
    → Retargeted frame capacity offset 24
unfolding next_target
fresh_header frame capacity offset full held =
    elim (Ret-cases (decode_header (some frame) offset there)
      (decode_header-defined frame offset full held)) [
        | inl (h, done) ↦ elim (Bool-cases (ltb capacity h.total_len)) [
          | inl large ↦ inl (err_overflow, rw (leb-true 24 offset full, done, large) refl)
          | inr small ↦ inr (
            h.total_len,
            rw (leb-true 24 offset full, done, small) refl,
            decoded h full done refl (ground arith),
          )
        ]
        | inr (e, refused) ↦ inl (e, rw (leb-true 24 offset full, refused) refl)
      ]

-- One round moves `offset` to `reached` and keeps the first `offset` bytes.
pub next_target-cases :
    (old frame : List ℕ) (capacity offset reached target : ℕ)
    → Stage old capacity offset target
    → offset < target
    → offset ≤ reached
    → reached ≤ length frame
    → length frame ≡ length old
    → 24 ≤ length frame
    → take offset frame ≡ take offset old
    → Retargeted frame capacity reached target
unfolding next_target
next_target-cases old frame capacity offset reached target (waiting short e) more p q same held
      kept =
    elim (Bool-cases (leb 24 reached)) [
      | inl full ↦ rw e (fresh_header frame capacity reached (ground arith) held)
      | inr less ↦ inr (target, rw (e, less) refl, waiting (ground arith) e)
    ]
next_target-cases old frame capacity offset reached target (decoded h full done e small) more p q
      same held kept =
    inr (
      target,
      rw (==_false target 24 (omega arith)) refl,
      decoded h (omega arith)
          (decode_header-prefix frame old reached offset (omega arith) full held
              (omega (arith, same)) same_header
            ∙ done)
          e small,
    )
  where
    same_header : take 24 frame ≡ take 24 old
    same_header =
        sym (take-take 24 offset frame full) ∙ ap (take 24) kept ∙ take-take 24 offset old full

-- A frame of `frame_len` bytes stands at the front of the `count` bytes that were read: its header
-- decodes and tells that length, which is within the caller's capacity.
pub record Complete (frame : List ℕ) (capacity count frame_len : ℕ) : Type 0 where
  pub header : Header
  pub decodes : decode_header (some frame) count there ≡ ok header
  pub total : header.total_len ≡ frame_len
  pub arrived : frame_len ≤ count
  pub within : frame_len ≤ capacity

-- The capacity that is passed to a transfer.
pub packet_lem :
    (r : ℕ)
    → is_nonpositive (int_of_size r) ≡ false
    → let m = pos_part (packet (int_of_size r)) in
      (packet (int_of_size r) ≡ pos m) × (1 ≤ m) × (m ≤ r) × (m ≤ 64)
packet_lem r h = ground arith
