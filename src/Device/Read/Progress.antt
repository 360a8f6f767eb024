-- ===== src/Device/Read/Progress.antt =====
-- `ch32mux_read_frame` comes to an end with success where the device gives a frame.
use usbmux_tool.Base.{
  moved_some, take_all, drop_all, ℕ, zero, suc, ◌+◌, ◌-◌, ◌%◌, ◌^◌, ◌≤◌, ◌<◌, ◌≡◌, refl, sym, ap,
  ap₂, ◌∙◌, arith, Bool-cases, ◌⊎◌, inl, inr, true, false, Option, List, [], ◌++◌, length, take,
  drop, splice, length-take, length-drop, length-splice, take-add-splice, take-add, drop-add,
  take-take, ok, some, there, pos, pos_part, int_of_size_small, int_of_size, int_eq, is_nonpositive,
  ltb, leb, leb-true, ltb-false, ==_false, size_of_int_pos,
}
use usbmux_tool.Proto.Header.{Header}
use usbmux_tool.Proto.Codec.{decode_header}
use usbmux_tool.Proto.Codec.Prefix.{decode_header-prefix}
use usbmux_tool.Device.Platform.{Platform, Transfer, BulkLaws}
use usbmux_tool.Device.State.{Device, State}
use usbmux_tool.Device.Write.{window}
use usbmux_tool.Device.Read.{ReadOut, packet, next_target, read_round, read_loop, read_frame}
use usbmux_tool.Device.Read.Laws.{room_left_lem}
use usbmux_tool.Device.Read.Stage.{packet_lem}

-- A device that has bytes to give: a transfer that has room takes at least one of them, in order.
pub record Gives (P : Platform) : Type 0 where
  pub pending : P.World → List ℕ
  pub some_byte :
      (h : Option ℕ) (buf : List ℕ) (t : ℕ) (w : P.World)
      → 1 ≤ length buf
      → 1 ≤ length (pending w)
      → let r = P.bulk_transfer h 0x82 buf t w in
        let k = pos_part r.transferred in
        (int_eq r.status P.success ≡ true)
        × (1 ≤ k)
        × (k ≤ length (pending w))
        × (take k r.buffer ≡ take k (pending w))
        × (pending r.world ≡ drop k (pending w))

-- A frame that tells its own length.
module _ (P : Platform) (L : BulkLaws P) (G : Gives P) (d : Device) (capacity : ℕ) (bytes : List ℕ)
    (h : Header) (room : 24 ≤ length bytes) (small : length bytes ≤ capacity)
    (machine : capacity < 2 ^ 31) (decodes : decode_header (some bytes) (length bytes) there ≡ ok h)
    (total : h.total_len ≡ length bytes) where
  -- The first `offset` bytes have come, and the others are still to come.
  pub record Arriving (offset target : ℕ) (frame : List ℕ) (w : P.World) : Type 0 where
    held : capacity ≤ length frame
    inside : offset ≤ length bytes
    front : take offset frame ≡ take offset bytes
    rest : G.pending w ≡ drop offset bytes
    stage : ((offset < 24) × (target ≡ 24)) ⊎ ((24 ≤ offset) × (target ≡ length bytes))

  pub record Arrived (o : ReadOut P.World) : Type 0 where
    pub returns : o.ret ≡ ok tt
    pub size : o.frame_len ≡ length bytes
    pub same : take (length bytes) o.frame ≡ bytes
    pub empty : G.pending o.world ≡ []

  done :
      (offset target : ℕ) (frame : List ℕ) (w : P.World)
      → Arriving offset target frame w
      → target ≤ offset
      → Arrived (record { ret = ok tt; frame = frame; frame_len = target; world = w })
  done offset target frame w a over = elim a.stage [
    | inl (short, e) ↦ absurd (omega (arith, short, e, over))
    | inr (full, e) ↦
        let all : offset ≡ length bytes = omega (arith, a.inside, e, over) in
        record {
          returns = refl;
          size = e;
          same =
              ap (λ (n : ℕ). take n frame) (sym all)
              ∙ a.front
              ∙ ap (λ (n : ℕ). take n bytes) all
              ∙ take_all (length bytes) bytes (omega arith);
          empty = a.rest ∙ drop_all offset bytes (sym all);
        }
  ]

  module _ (offset target : ℕ) (frame : List ℕ) (w : P.World) (a : Arriving offset target frame w)
      (m : ℕ) (some_room : 1 ≤ m) (fits : m ≤ capacity - offset) (more : offset < target) where
    abbrev buf : List ℕ
    buf = take m (drop offset frame)

    abbrev t : Transfer P.World
    t = P.bulk_transfer d.handle 0x82 buf d.timeout_ms w

    abbrev moved : ℕ
    moved = pos_part t.transferred

    abbrev filled : List ℕ
    filled = splice frame offset t.buffer

    counts : (t.transferred ≡ pos moved) × (moved ≤ length buf) × (length t.buffer ≡ length buf)
    counts = L.counts d.handle 0x82 buf d.timeout_ms w

    buf-length : length buf ≡ m
    buf-length = omega (arith, length-take m (drop offset frame), length-drop offset frame, a.held)

    before_end : offset < length bytes
    before_end = elim a.stage [
      | inl (short, e) ↦ omega (arith, short, room)
      | inr (full, e) ↦ omega (arith, e, more)
    ]

    left : length (G.pending w) ≡ length bytes - offset
    left = ap length a.rest ∙ length-drop offset bytes

    given :
        (int_eq t.status P.success ≡ true)
        × (1 ≤ moved)
        × (moved ≤ length (G.pending w))
        × (take moved t.buffer ≡ take moved (G.pending w))
        × (G.pending t.world ≡ drop moved (G.pending w))
    given =
        G.some_byte d.handle buf d.timeout_ms w (omega (arith, buf-length, some_room))
          (omega (arith, left, before_end))

    in_buffer : offset + length t.buffer ≤ length frame
    in_buffer = omega (arith, counts, buf-length, a.held, before_end, small, fits)

    filled-length : length filled ≡ length frame
    filled-length = length-splice frame t.buffer offset in_buffer

    filled_front : take (offset + moved) filled ≡ take (offset + moved) bytes
    filled_front =
        take-add-splice frame t.buffer offset in_buffer moved (omega (arith, counts))
        ∙ ap₂ ◌++◌ a.front (given.3 ∙ ap (take moved) a.rest)
        ∙ sym (take-add offset moved bytes)

    filled_rest : G.pending t.world ≡ drop (offset + moved) bytes
    filled_rest = given.4 ∙ ap (drop moved) a.rest ∙ sym (drop-add offset moved bytes)

    next :
        (target' : ℕ) × (next_target filled capacity (offset + moved) target ≡ ok target')
        × Arriving (offset + moved) target' filled t.world
    next = elim a.stage [
      | inr (full, e) ↦ (
        target,
        unfold next_target in
            rw (==_false target 24 (λ q. absurd (omega (arith, q, full, more)))) refl,
        arriving target (inr (omega (arith, full), e)),
      )
      | inl (short, e) ↦ elim (Bool-cases (leb 24 (offset + moved))) [
        | inr less ↦ (
          target,
          unfold next_target in rw (e, less) refl,
          arriving target (inl (ground arith, e)),
        )
        | inl full ↦ (
          length bytes,
          unfold next_target in
              rw
                (
                  e,
                  full,
                  header_here (ground arith),
                  ltb-false capacity h.total_len (omega (arith, total, small)),
                )
                (ap ok total),
          arriving (length bytes) (inr (ground arith, refl)),
        )
      ]
    ]
      where
        arriving :
            (target' : ℕ)
            → ((offset + moved < 24) × (target' ≡ 24))
              ⊎ ((24 ≤ offset + moved) × (target' ≡ length bytes))
            → Arriving (offset + moved) target' filled t.world
        arriving target' stage = record {
          held = omega (arith, filled-length, a.held);
          inside = omega (arith, given.2, left, before_end);
          front = filled_front;
          rest = filled_rest;
          stage = stage;
        }

        same_header : 24 ≤ offset + moved → take 24 filled ≡ take 24 bytes
        same_header full =
            sym (take-take 24 (offset + moved) filled full)
            ∙ ap (take 24) filled_front
            ∙ take-take 24 (offset + moved) bytes full

        header_here :
            24 ≤ offset + moved → decode_header (some filled) (offset + moved) there ≡ ok h
        header_here full =
            decode_header-prefix filled bytes (offset + moved) (length bytes) full room
              (omega (arith, filled-length, a.held, room, small)) room (same_header full)
            ∙ decodes

    receive_window : window frame offset (pos m) ≡ some buf
    receive_window =
        rw (leb-true (offset + m) (length frame) (omega (arith, a.held, before_end, small, fits)))
          refl

    read_round-Arrived :
        (again : ℕ → ℕ → List ℕ → P.World → ReadOut P.World)
        → ((o u : ℕ) (f : List ℕ) (v : P.World)
            → offset < o
            → Arriving o u f v
            → Arrived (again o u f v))
        → Arrived (read_round P t frame capacity offset target again)
    unfolding read_round
    read_round-Arrived again rest =
        let (target', known, arrives) = next in
        let reached : (offset + moved) % 2 ^ 64 ≡ offset + moved =
          omega (arith, given.2, left, before_end, small, machine) in
        rw
          (
            given.0,
            moved_some t.transferred counts.0 given.1,
            size_of_int_pos t.transferred counts.0,
            reached,
            known,
          )
          (rest (offset + moved) target' filled t.world (omega (arith, given.1)) arrives)

  read_loop-Arrived :
      (fuel offset target : ℕ) (frame : List ℕ) (w : P.World)
      → length bytes - offset < fuel
      → Arriving offset target frame w
      → Arrived (read_loop P fuel d capacity offset target frame w)
  unfolding read_loop
  read_loop-Arrived zero offset target frame w enough a = absurd (omega arith)
  read_loop-Arrived (suc fuel) offset target frame w enough a =
      elim (Bool-cases (ltb offset target)) [
        | inr all ↦ rw all (done offset target frame w a (ground arith))
        | inl some_left ↦
            let more : offset < target = ground arith in
            let inside : offset < length bytes = elim a.stage [
              | inl (s, e) ↦ omega (arith, s, room)
              | inr (s, e) ↦ omega (arith, e, more)
            ] in
            rw
              (
                some_left,
                room_left_lem P L capacity offset (omega (arith, machine))
                    (omega (arith, inside, small)),
              )
              (let left_over : is_nonpositive (int_of_size (capacity - offset)) ≡ false =
                  rw (int_of_size_small (capacity - offset) (omega (arith, machine)))
                    (moved_some (pos (capacity - offset)) refl (omega (arith, inside, small))) in
                let (sized, some_room, fits, at_most) = packet_lem (capacity - offset) left_over in
                let m = pos_part (packet (int_of_size (capacity - offset))) in
                rw (left_over, sized, receive_window offset target frame w a m some_room fits more)
                  (read_round-Arrived offset target frame w a m some_room fits more
                    (λ o u f v. read_loop P fuel d capacity o u f v)
                    (λ o u f v further next.
                      read_loop-Arrived fuel o u f v (omega (arith, further, inside)) next)))
      ]

-- On an open device of which a frame is to come and nothing else, that gives at least a byte of it
-- to every transfer and bytes in order, on a libusb that reports what it moved: a read into a
-- buffer of less than 2 ^ 31 bytes that is as long as the caller says and holds the frame returns
-- with success, the frame's length and the frame at the front of the buffer, and has taken all of
-- it. A frame is at least 24 bytes that decode to a header which tells their number.
pub read_frame-ok :
    (P : Platform) (L : BulkLaws P) (G : Gives P) (s : State P.World) (d : Device)
    (frame bytes : List ℕ) (capacity frame_len : ℕ) (h : Header)
    → s.device ≡ some d
    → 24 ≤ length bytes
    → length bytes ≤ capacity
    → capacity ≤ length frame
    → capacity < 2 ^ 31
    → decode_header (some bytes) (length bytes) there ≡ ok h
    → h.total_len ≡ length bytes
    → G.pending s.world ≡ bytes
    → (front : List ℕ) × (w : P.World) × (read_frame P (some frame) capacity (some frame_len) s
        ≡ record {
          ret = ok tt;
          frame = some front;
          frame_len = some (length bytes);
          state = record s { world = w };
        })
      × (take (length bytes) front ≡ bytes)
      × (G.pending w ≡ [])
unfolding read_frame
read_frame-ok P L G s d frame bytes capacity frame_len h opened room small held machine decodes
      total waiting =
    let o = read_loop P (suc capacity) d capacity 0 24 frame s.world in
    let a =
      read_loop-Arrived P L G d capacity bytes h room small machine decodes total (suc capacity) 0
        24 frame s.world (omega (arith, small))
        (record {
          held = held;
          inside = omega arith;
          front = refl;
          rest = waiting;
          stage = inl (omega arith, refl);
        }) in
    (
      o.frame,
      o.world,
      rw (opened, ltb-false capacity 24 (omega (arith, room, small)))
          (λ i. record {
            ret = a.returns i;
            frame = some o.frame;
            frame_len = some (a.size i);
            state = record { device = some d; world = o.world };
          }),
      a.same,
      a.empty,
    )
