-- ===== src/Examples/Bench.antt =====
-- A platform to run the driver on: libusb whose calls succeed, with the bytes that it will deliver
-- in a queue, and a record of what it was called for.
use usbmux_tool.Base.{
  ℕ, zero, suc, ◌≤◌, ◌≡◌, refl, sym, ap, arith, true, Bool-cases, inl, inr, some, List, [], ◌∷◌,
  ◌++◌, length, take, drop, length-take, length-drop, length-append, take-front, pos, negsuc,
  pos_part, ◌==◌, if◌then◌else◌,
}
use usbmux_tool.Device.Platform.{Platform, Transfer, BulkLaws}
use usbmux_tool.Device.Lifecycle.Ledger.{
  LibCall, allocated, initialised, opened, detached, claimed, released, attached, closed, exited,
  freed, Traced,
}
use usbmux_tool.Device.Write.Progress.{Takes}
use usbmux_tool.Device.Read.Progress.{Gives}
use usbmux_tool.Base.{int_eq, ==_false, ◌∙◌}

pub record World : Type 0 where
  pub inbox : List ℕ
  pub delivered : List ℕ
  pub received : List ℕ
  pub calls : List LibCall

abbrev pub called : LibCall → World → World
called c w = record w { calls = w.calls ++ c ∷ [] }

-- A read takes as much of the queue as the buffer holds, or times out on an empty queue.
abbrev pub read_in : List ℕ → World → Transfer World
read_in buf w = record {
  status = if length w.inbox == 0 then negsuc 6 else pos 0;
  buffer = take (length buf) w.inbox ++ drop (length (take (length buf) w.inbox)) buf;
  transferred = pos (length (take (length buf) w.inbox));
  world = record w {
    inbox = drop (length buf) w.inbox;
    received = w.received ++ take (length buf) w.inbox;
  };
}

-- A write takes at most 64 bytes at a time.
abbrev pub write_out : List ℕ → World → Transfer World
write_out buf w = record {
  status = pos 0;
  buffer = buf;
  transferred = pos (length (take 64 buf));
  world = record w { delivered = w.delivered ++ take 64 buf };
}

abbrev pub no_transfer : List ℕ → World → Transfer World
no_transfer buf w = record { status = negsuc 0; buffer = buf; transferred = pos 0; world = w }

abbrev pub transfer : ℕ → List ℕ → World → Transfer World
transfer ep buf w =
    if ep == 0x82 then read_in buf w else if ep == 0x03 then write_out buf w else no_transfer buf w

abbrev pub bench : Platform
bench = record {
  World = World;
  success = pos 0;
  error_timeout = negsuc 6;
  error_no_device = negsuc 3;
  calloc = λ w. (true, called allocated w);
  free = called freed;
  init = λ w. record { status = pos 0; ctx = some 1; world = called (initialised (some 1)) w };
  open_device_with_vid_pid = λ c vid pid w. (some 2, called (opened c (some 2)) w);
  kernel_driver_active = λ h i w. (pos 1, w);
  detach_kernel_driver = λ h i w. (pos 0, called (detached h i) w);
  attach_kernel_driver = λ h i w. (pos 0, called (attached h i) w);
  claim_interface = λ h i w. (pos 0, called (claimed h i) w);
  release_interface = λ h i w. (pos 0, called (released h i) w);
  close = λ h. called (closed h);
  exit = λ c. called (exited c);
  bulk_transfer = λ h ep buf t. transfer ep buf;
  interrupt_transfer = λ h ep buf t. no_transfer buf;
  error_name = λ e. "LIBUSB_ERROR";
}

pub take-length : (n : ℕ) (xs : List ℕ) → take n xs ≡ take (length (take n xs)) xs
take-length zero xs = refl
take-length (suc n) [] = refl
take-length (suc n) (x ∷ xs) = ap (λ (t : List ℕ). x ∷ t) (take-length n xs)

pub taken_length : (n : ℕ) (xs : List ℕ) → length (take n xs) ≤ n
taken_length n xs = omega (arith, length-take n xs)

pub read_in-counts :
    (buf : List ℕ) (w : World)
    → let r = read_in buf w in
      (r.transferred ≡ pos (pos_part r.transferred))
      × (pos_part r.transferred ≤ length buf)
      × (length r.buffer ≡ length buf)
read_in-counts buf w =
    let got = take (length buf) w.inbox in
    (
      refl,
      taken_length (length buf) w.inbox,
      omega (
        arith,
        length-append got (drop (length got) buf),
        length-drop (length got) buf,
        taken_length (length buf) w.inbox,
      ),
    )

abbrev pub bench_laws : BulkLaws bench
bench_laws = record {
  delivered = λ w. w.delivered;
  received = λ w. w.received;
  counts = λ h ep buf t w. elim (Bool-cases (ep == 0x82)) [
    | inl reads ↦ rw reads (read_in-counts buf w)
    | inr other ↦ elim (Bool-cases (ep == 0x03)) [
      | inl writes ↦ rw (other, writes) (refl, omega (arith, length-take 64 buf), refl)
      | inr neither ↦ rw (other, neither) (refl, omega arith, refl)
    ]
  ];
  sends = λ h buf t w. (ap (λ (x : List ℕ). w.delivered ++ x) (take-length 64 buf), refl);
  receives = λ h buf t w. (
    ap (λ (x : List ℕ). w.received ++ x)
        (sym (
          take-front (length (take (length buf) w.inbox)) (take (length buf) w.inbox)
            (drop (length (take (length buf) w.inbox)) buf) refl)),
    refl,
  );
}

pub at_transfer : (ep : ℕ) (buf : List ℕ) (w : World) → (transfer ep buf w).world.calls ≡ w.calls
at_transfer ep buf w = elim (Bool-cases (ep == 0x82)) [
  | inl reads ↦ rw reads refl
  | inr other ↦ elim (Bool-cases (ep == 0x03)) [
    | inl writes ↦ rw (other, writes) refl
    | inr neither ↦ rw (other, neither) refl
  ]
]

abbrev pub bench_trace : Traced bench
bench_trace = record {
  calls = λ w. w.calls;
  at_calloc = λ w. refl;
  at_free = λ w. refl;
  at_init = λ w. (refl, λ p. refl);
  at_open = λ c vid pid w. refl;
  at_active = λ h i w. refl;
  at_detach = λ h i w. refl;
  at_claim = λ h i w. refl;
  at_release = λ h i w. refl;
  at_attach = λ h i w. refl;
  at_close = λ h w. refl;
  at_exit = λ c w. refl;
  at_bulk = λ h ep buf t w. at_transfer ep buf w;
}

abbrev pub bench_takes : Takes bench
bench_takes = record { some_byte = λ h buf t w some. (refl, omega (arith, length-take 64 buf)) }

drop-length : (n : ℕ) (xs : List ℕ) → drop n xs ≡ drop (length (take n xs)) xs
drop-length zero xs = refl
drop-length (suc n) [] = refl
drop-length (suc n) (x ∷ xs) = drop-length n xs

pub gives_in :
    (buf : List ℕ) (w : World)
    → 1 ≤ length buf
    → 1 ≤ length w.inbox
    → let r = read_in buf w in
      let k = pos_part r.transferred in
      (int_eq r.status (pos 0) ≡ true)
      × (1 ≤ k)
      × (k ≤ length w.inbox)
      × (take k r.buffer ≡ take k w.inbox)
      × (r.world.inbox ≡ drop k w.inbox)
gives_in buf w room some_left =
    let got = take (length buf) w.inbox in
    (
      rw (==_false (length w.inbox) 0 (λ e. absurd (omega (arith, e, some_left)))) refl,
      omega (arith, length-take (length buf) w.inbox, room, some_left),
      omega (arith, length-take (length buf) w.inbox),
      take-front (length got) got (drop (length got) buf) refl ∙ take-length (length buf) w.inbox,
      drop-length (length buf) w.inbox,
    )

abbrev pub bench_gives : Gives bench
bench_gives = record {
  pending = λ w. w.inbox;
  some_byte = λ h buf t w room some_left. gives_in buf w room some_left;
}
