-- ===== src/Proto/Codec/Wire.antt =====
-- A frame as the bytes that go over the wire.
use usbmux_tool.Base.{
  ℕ, ◌+◌, ◌≤◌, ◌≡◌, refl, arith, List, Option, length, take, drop, take-append_le, length-take,
  length-drop, length-append,
}
use usbmux_tool.Proto.Header.{Header}
use usbmux_tool.Proto.Codec.{prepare}
use usbmux_tool.Proto.Codec.Layout.{layout}
use usbmux_tool.Proto.Codec.Frame.{given, built, sized, frame_bytes}

-- The bytes of a request, header and payload.
pub frame_of : Header → Option (List ℕ) → ℕ → List ℕ
frame_of h payload n = frame_bytes (prepare (sized h n)) (take n (given payload))

pub length-frame_of :
    (h : Header) (payload : Option (List ℕ)) (n : ℕ)
    → n ≤ length (given payload)
    → length (frame_of h payload n) ≡ 24 + n
unfolding frame_of frame_bytes
length-frame_of h payload n held = omega (
  arith,
  length-take n (given payload),
  length-append (layout (prepare (sized h n)) 0) (take n (given payload)),
)

-- A built frame stands at the front of the buffer, which keeps its length.
pub built_front :
    (dst : List ℕ) (h : Header) (payload : Option (List ℕ)) (n k : ℕ)
    → n ≤ length (given payload)
    → 24 + n ≤ length dst
    → k ≤ 24 + n
    → (take k (built dst h (given payload) n).dst ≡ take k (frame_of h payload n))
      × (length (built dst h (given payload) n).dst ≡ length dst)
      × ((built dst h (given payload) n).frame_len ≡ 24 + n)
unfolding built frame_of
built_front dst h payload n k held room small =
    let front = frame_bytes (prepare (sized h n)) (take n (given payload)) in
    let size : length front ≡ 24 + n = unfold frame_of in length-frame_of h payload n held in
    (
      take-append_le k front (drop (24 + n) dst) (omega (arith, size)),
      omega (arith, size, length-append front (drop (24 + n) dst), length-drop (24 + n) dst),
      refl,
    )
