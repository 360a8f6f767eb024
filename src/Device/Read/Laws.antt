-- ===== src/Device/Read/Laws.antt =====
-- What `ch32mux_read_frame` leaves behind: no access out of bounds, and what the buffer holds.
use usbmux_tool.Base.{
  ℕ, zero, suc, ◌+◌, ◌-◌, ◌%◌, ◌^◌, ◌≤◌, ◌<◌, ◌≡◌, ◌≢◌, refl, sym, ap, ◌∙◌, arith, Bool-cases, inl,
  inr, List, ◌++◌, append_assoc, append-nil, length, take, drop, splice, length-take, length-drop,
  take-splice, length-splice, take-add-splice, ok, err, fault, some, pos, pos_part, int_of_size,
  is_nonpositive, int_eq, ltb, Code, err_io, err_overflow, size_of_int_pos, positive, leb-true,
  ltb-false,
}
use usbmux_tool.Device.Platform.{Platform, Transfer, BulkLaws}
use usbmux_tool.Device.State.{Device, State, map_libusb_error}
use usbmux_tool.Device.Write.{window}
use usbmux_tool.Device.Read.{ReadOut, room_left, packet, read_round, read_loop, read_frame}
use usbmux_tool.Device.Read.Stage.{
  Stage, waiting, decoded, Retargeted, next_target-cases, Complete, packet_lem,
}

module _ (P : Platform) (L : BulkLaws P) where
  -- After a read that began with `base` received and the buffer `old`.
  pub record Got (base told old : List ℕ) (capacity : ℕ) (out : ReadOut P.World) : Type 0 where
    pub defined : out.ret ≢ fault
    pub same_length : length out.frame ≡ length old
    pub count : ℕ
    pub bounded : count ≤ capacity
    pub quiet : L.delivered out.world ≡ told
    pub stream : L.received out.world ≡ base ++ take count out.frame
    pub complete : out.ret ≡ ok tt → Complete out.frame capacity count out.frame_len
    pub silent : (out.ret ≢ ok tt) → out.frame_len ≡ 0

  -- A round ends the loop with an error and the new buffer, or goes on with a new target.
  read_round-cases :
      (t : Transfer P.World) (old : List ℕ) (capacity offset target : ℕ)
      (again : ℕ → ℕ → List ℕ → P.World → ReadOut P.World) (Q : ReadOut P.World → Type 0)
      → let n = pos_part t.transferred in
        let frame = splice old offset t.buffer in
        t.transferred ≡ pos n
        → offset + n < 2 ^ 64
        → Retargeted frame capacity (offset + n) target
        → ((e : Code) → Q (record { ret = err e; frame = frame; frame_len = 0; world = t.world }))
        → ((target' : ℕ)
            → 1 ≤ n
            → Stage frame capacity (offset + n) target'
            → Q (again (offset + n) target' frame t.world))
        → Q (read_round P t old capacity offset target again)
  unfolding read_round
  read_round-cases t old capacity offset target again Q count fits next failed goes_on =
      elim (Bool-cases (int_eq t.status P.success)) [
        | inl fine ↦ elim (Bool-cases (is_nonpositive t.transferred)) [
          | inl nothing ↦ rw (fine, nothing) (failed err_io)
          | inr some_bytes ↦ elim next [
            | inl (e, refused) ↦
                rw (fine, some_bytes, size_of_int_pos t.transferred count, whole, refused)
                  (failed e)
            | inr (target', more, stage) ↦
                rw (fine, some_bytes, size_of_int_pos t.transferred count, whole, more)
                  (goes_on target' (positive t.transferred some_bytes) stage)
          ]
        ]
        | inr broken ↦ rw broken (failed (map_libusb_error P t.status))
      ]
    where
      whole : (offset + pos_part t.transferred) % 2 ^ 64 ≡ offset + pos_part t.transferred
      whole = omega arith

  -- The loop's invariant: `offset` bytes of the stream stand at the front of the buffer.
  record Reading (base told old : List ℕ) (capacity offset target : ℕ) (frame : List ℕ)
      (w : P.World) : Type 0 where
    room : 24 ≤ capacity
    machine : capacity < 2 ^ 64
    held : capacity ≤ length frame
    same_length : length frame ≡ length old
    inside : offset ≤ capacity
    stage : Stage frame capacity offset target
    quiet : L.delivered w ≡ told
    stream : L.received w ≡ base ++ take offset frame

  stop :
      (e : Code) (base told old : List ℕ) (capacity count : ℕ) (frame : List ℕ) (w : P.World)
      → length frame ≡ length old
      → count ≤ capacity
      → L.delivered w ≡ told
      → L.received w ≡ base ++ take count frame
      → Got base told old capacity (record { ret = err e; frame = frame; frame_len = 0; world = w })
  stop e base told old capacity count frame w same inside quiet stream = record {
    defined = λ h. cc;
    same_length = same;
    count = count;
    bounded = inside;
    quiet = quiet;
    stream = stream;
    complete = λ h. absurd (cc);
    silent = λ h. refl;
  }

  finish :
      (base told old : List ℕ) (capacity offset target : ℕ) (frame : List ℕ) (w : P.World)
      → Reading base told old capacity offset target frame w
      → target ≤ offset
      → Stage frame capacity offset target
      → Got base told old capacity
          (record { ret = ok tt; frame = frame; frame_len = target; world = w })
  finish base told old capacity offset target frame w r over (waiting short e) =
      absurd (omega arith)
  finish base told old capacity offset target frame w r over (decoded h full done e small) =
      record {
        defined = λ h. cc;
        same_length = r.same_length;
        count = offset;
        bounded = r.inside;
        quiet = r.quiet;
        stream = r.stream;
        complete = λ _. record {
          header = h;
          decodes = done;
          total = sym e;
          arrived = over;
          within = small;
        };
        silent = λ h. absurd (h refl);
      }

  -- What one transfer into the buffer does to the invariant's facts.
  module _ (d : Device) (base told old : List ℕ) (capacity offset target : ℕ) (frame : List ℕ)
      (w : P.World) (r : Reading base told old capacity offset target frame w) (m : ℕ)
      (fits : m ≤ capacity - offset) (more : offset < target) where
    abbrev buf : List ℕ
    buf = take m (drop offset frame)

    abbrev t : Transfer P.World
    t = P.bulk_transfer d.handle 0x82 buf d.timeout_ms w

    abbrev moved : ℕ
    moved = pos_part t.transferred

    abbrev filled : List ℕ
    filled = splice frame offset t.buffer

    counts : (t.transferred ≡ pos moved) × (moved ≤ length buf) × (length t.buffer ≡ length buf)
    counts = L.counts d.handle 0x82 buf d.timeout_ms w

    buf-length : length buf ≡ m
    buf-length = omega (arith, length-take m (drop offset frame), length-drop offset frame, r.held)

    in_buffer : offset + length t.buffer ≤ length frame
    in_buffer = omega (arith, counts, buf-length, r.held, r.inside, fits)

    filled-length : length filled ≡ length frame
    filled-length = length-splice frame t.buffer offset in_buffer

    filled_kept : take offset filled ≡ take offset frame
    filled_kept = take-splice frame t.buffer offset in_buffer

    filled_stream : L.received t.world ≡ base ++ take (offset + moved) filled
    filled_stream =
        (L.receives d.handle buf d.timeout_ms w).0
        ∙ ap (λ (x : List ℕ). x ++ take moved t.buffer) r.stream
        ∙ append_assoc base (take offset frame) (take moved t.buffer)
        ∙ ap (λ (x : List ℕ). base ++ x)
            (sym (take-add-splice frame t.buffer offset in_buffer moved (omega (arith, counts))))

    filled_quiet : L.delivered t.world ≡ told
    filled_quiet = (L.receives d.handle buf d.timeout_ms w).1 ∙ r.quiet

    filled_inside : offset + moved ≤ capacity
    filled_inside = omega (arith, counts, buf-length, r.inside, fits)

    filled_retargets : Retargeted filled capacity (offset + moved) target
    filled_retargets =
        next_target-cases frame filled capacity offset (offset + moved) target r.stage more
          (omega arith) (omega (arith, filled_inside, filled-length, r.held)) filled-length
          (omega (arith, filled-length, r.held, r.room)) filled_kept

    -- The invariant of the next round.
    filled-Reading :
        (target' : ℕ)
        → Stage filled capacity (offset + moved) target'
        → Reading base told old capacity (offset + moved) target' filled t.world
    filled-Reading target' stage = record {
      room = r.room;
      machine = r.machine;
      held = omega (arith, filled-length, r.held);
      same_length = filled-length ∙ r.same_length;
      inside = filled_inside;
      stage = stage;
      quiet = filled_quiet;
      stream = filled_stream;
    }

    receive_window : window frame offset (pos m) ≡ some buf
    receive_window =
        rw (leb-true (offset + m) (length frame) (omega (arith, r.held, r.inside, fits))) refl

    -- A round keeps what the whole read promises, if the rest of the loop does.
    read_round-Got :
        (again : ℕ → ℕ → List ℕ → P.World → ReadOut P.World)
        → ((o u : ℕ) (f : List ℕ) (v : P.World)
            → offset < o
            → Reading base told old capacity o u f v
            → Got base told old capacity (again o u f v))
        → Got base told old capacity (read_round P t frame capacity offset target again)
    read_round-Got again rest =
        read_round-cases t frame capacity offset target again (Got base told old capacity) counts.0
          (omega (arith, filled_inside, r.machine)) filled_retargets
          (λ e.
            stop e base told old capacity (offset + moved) filled t.world
              (filled-length ∙ r.same_length) filled_inside filled_quiet filled_stream)
          (λ u some_bytes stage.
            rest (offset + moved) u filled t.world (omega arith) (filled-Reading u stage))

  pub room_left_lem :
      (capacity offset : ℕ)
      → capacity < 2 ^ 64
      → offset ≤ capacity
      → room_left capacity offset ≡ capacity - offset
  room_left_lem capacity offset h p = omega arith

  read_loop-Got :
      (fuel : ℕ) (d : Device) (base told old : List ℕ) (capacity offset target : ℕ) (frame : List ℕ)
      (w : P.World)
      → capacity - offset < fuel
      → Reading base told old capacity offset target frame w
      → Got base told old capacity (read_loop P fuel d capacity offset target frame w)
  unfolding read_loop
  read_loop-Got zero d base told old capacity offset target frame w enough r = absurd (omega arith)
  read_loop-Got (suc fuel) d base told old capacity offset target frame w enough r =
      elim (Bool-cases (ltb offset target)) [
        | inr done ↦
            rw done (finish base told old capacity offset target frame w r (ground arith) r.stage)
        | inl more ↦
            rw (more, room_left_lem capacity offset r.machine r.inside)
              (elim (Bool-cases (is_nonpositive (int_of_size (capacity - offset)))) [
                | inl full ↦ rw full (
                    stop err_overflow base told old capacity offset frame w r.same_length r.inside
                      r.quiet r.stream)
                | inr left ↦
                    let (sized, some_room, fits, small) = packet_lem (capacity - offset) left in
                    let m = pos_part (packet (int_of_size (capacity - offset))) in
                    rw
                      (
                        left,
                        sized,
                        receive_window d base told old capacity offset target frame w r m fits
                            (ground arith),
                      )
                      (read_round-Got d base told old capacity offset target frame w r m fits
                        (ground arith) (λ o u f v. read_loop P fuel d capacity o u f v)
                        (λ o u f v further next.
                          read_loop-Got fuel d base told old capacity o u f v
                            (omega (arith, next.inside)) next))
              ])
      ]

  -- A read on an open device into a buffer of 24 to 2 ^ 64 - 1 bytes, as long as the caller says,
  -- on a libusb that reports what it moved. The loop ends and no access is out of bounds. On every
  -- path the front of the buffer holds, in order, the bytes that were received, and no more than
  -- the capacity; on success a frame whose header decodes and tells `*frame_len` has arrived there,
  -- on an error `*frame_len` is 0. Nothing is sent. The device keeps its state.
  pub read_frame-Got :
      (s : State P.World) (d : Device) (frame : List ℕ) (capacity frame_len : ℕ)
      → s.device ≡ some d
      → 24 ≤ capacity
      → capacity ≤ length frame
      → capacity < 2 ^ 64
      → (out : ReadOut P.World) × (read_frame P (some frame) capacity (some frame_len) s ≡ record {
        ret = out.ret;
        frame = some out.frame;
        frame_len = some out.frame_len;
        state = record s { world = out.world };
      })
        × Got (L.received s.world) (L.delivered s.world) frame capacity out
  unfolding read_frame
  read_frame-Got s d frame capacity frame_len opened room held machine = (
    read_loop P (suc capacity) d capacity 0 24 frame s.world,
    rw (opened, ltb-false capacity 24 room) refl,
    read_loop-Got (suc capacity) d (L.received s.world) (L.delivered s.world) frame capacity 0 24
        frame s.world (omega arith)
        (record {
          room = room;
          machine = machine;
          held = held;
          same_length = refl;
          inside = omega arith;
          stage = waiting (omega arith) refl;
          quiet = refl;
          stream = sym (append-nil (L.received s.world));
        }),
  )
