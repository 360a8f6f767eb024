-- ===== src/Examples/Board.antt =====
-- A board to run the tool on: it answers with packets that are laid out beforehand, and has a
-- clock.
use usbmux_tool.Base.{
  ℕ, ◌≤◌, sym, ap, ◌∙◌, length-take, length-drop, length-append, take-front, append-nil, pos_part,
  ◌+◌, ◌≡◌, refl, arith, true, Bool-cases, inl, inr, some, List, [], ◌∷◌, ◌++◌, length, take, drop,
  pos, negsuc, ◌==◌, if◌then◌else◌,
}
use usbmux_tool.Device.Platform.{Platform, Transfer, BulkLaws}
use usbmux_tool.Device.Along.{Transfers, no_transfer, one_more}
use usbmux_tool.Device.Lifecycle.Ledger.{
  LibCall, allocated, initialised, opened, detached, claimed, released, attached, closed, exited,
  freed, Traced,
}
use usbmux_tool.Cli.Scan.{Clock}
use usbmux_tool.Cli.Scan.Ends.{Ticking}

pub record Desk : Type 0 where
  pub packets : List (List ℕ)
  pub calls : List LibCall
  pub seconds : ℕ
  pub delivered : List ℕ
  pub received : List ℕ

abbrev noted : LibCall → Desk → Desk
noted c w = record w { calls = w.calls ++ c ∷ [] }

-- One packet a read; it times out where there is none.
abbrev pub next_packet : List (List ℕ) → List ℕ → Desk → Transfer Desk
next_packet [] buf w = record { status = negsuc 6; buffer = buf; transferred = pos 0; world = w }
next_packet (p ∷ more) buf w = record {
  status = pos 0;
  buffer = take (length buf) p ++ drop (length (take (length buf) p)) buf;
  transferred = pos (length (take (length buf) p));
  world = record w { packets = more; received = w.received ++ take (length buf) p };
}

abbrev pub written : List ℕ → Desk → Transfer Desk
written buf w = record {
  status = pos 0;
  buffer = buf;
  transferred = pos (length buf);
  world = record w { delivered = w.delivered ++ buf };
}

abbrev pub moved : ℕ → List ℕ → Desk → Transfer Desk
moved ep buf w = if ep == 0x82 then next_packet w.packets buf w else written buf w

abbrev pub board : Platform
board = record {
  World = Desk;
  success = pos 0;
  error_timeout = negsuc 6;
  error_no_device = negsuc 3;
  calloc = λ w. (true, noted allocated w);
  free = noted freed;
  init = λ w. record { status = pos 0; ctx = some 1; world = noted (initialised (some 1)) w };
  open_device_with_vid_pid = λ c vid pid w. (some 2, noted (opened c (some 2)) w);
  kernel_driver_active = λ h i w. (pos 1, w);
  detach_kernel_driver = λ h i w. (pos 0, noted (detached h i) w);
  attach_kernel_driver = λ h i w. (pos 0, noted (attached h i) w);
  claim_interface = λ h i w. (pos 0, noted (claimed h i) w);
  release_interface = λ h i w. (pos 0, noted (released h i) w);
  close = λ h. noted (closed h);
  exit = λ c. noted (exited c);
  bulk_transfer = λ h ep buf t. moved ep buf;
  interrupt_transfer = λ h ep buf t. moved ep buf;
  error_name = λ e. "LIBUSB_ERROR";
}

-- What a transfer leaves as it is.
pub moved_keeps :
    (ep : ℕ) (buf : List ℕ) (w : Desk)
    → ((moved ep buf w).world.calls ≡ w.calls) × ((moved ep buf w).world.seconds ≡ w.seconds)
moved_keeps ep buf w = elim (Bool-cases (ep == 0x82)) [
  | inl reads ↦ rw reads (packet w.packets)
  | inr writes ↦ rw writes (refl, refl)
]
  where
    packet :
        (ps : List (List ℕ))
        → ((next_packet ps buf w).world.calls ≡ w.calls)
          × ((next_packet ps buf w).world.seconds ≡ w.seconds)
    packet [] = (refl, refl)
    packet (p ∷ ps) = (refl, refl)

abbrev pub board_trace : Traced board
board_trace = record {
  calls = λ w. w.calls;
  at_calloc = λ w. refl;
  at_free = λ w. refl;
  at_init = λ w. (refl, λ p. refl);
  at_open = λ c vid pid w. refl;
  at_active = λ h i w. refl;
  at_detach = λ h i w. refl;
  at_claim = λ h i w. refl;
  at_release = λ h i w. refl;
  at_attach = λ h i w. refl;
  at_close = λ h w. refl;
  at_exit = λ c w. refl;
  at_bulk = λ h ep buf t w. (moved_keeps ep buf w).0;
}

-- A second passes at each look at the clock.
abbrev pub desk_clock : Clock board
desk_clock = record { time = λ w. (w.seconds + 1, record w { seconds = w.seconds + 1 }) }

abbrev pub desk_ticking : Ticking board desk_clock
desk_ticking = record {
  rate = 1;
  steps = λ w. w.seconds;
  tells = λ w. (omega arith, omega arith);
  passes = λ w. omega arith;
  bulk = λ h ep buf t w. omega (arith, (moved_keeps ep buf w).1);
}

pub next_packet-counts :
    (ps : List (List ℕ)) (buf : List ℕ) (w : Desk)
    → let r = next_packet ps buf w in
      (r.transferred ≡ pos (pos_part r.transferred))
      × (pos_part r.transferred ≤ length buf)
      × (length r.buffer ≡ length buf)
next_packet-counts [] buf w = (refl, omega arith, refl)
next_packet-counts (p ∷ ps) buf w =
    let got = take (length buf) p in
    (
      refl,
      omega (arith, length-take (length buf) p),
      omega (
        arith,
        length-append got (drop (length got) buf),
        length-drop (length got) buf,
        length-take (length buf) p,
      ),
    )

pub next_packet-receives :
    (ps : List (List ℕ)) (buf : List ℕ) (w : Desk)
    → let r = next_packet ps buf w in
      (r.world.received ≡ w.received ++ take (pos_part r.transferred) r.buffer)
      × (r.world.delivered ≡ w.delivered)
next_packet-receives [] buf w = (sym (append-nil w.received), refl)
next_packet-receives (p ∷ ps) buf w =
    let got = take (length buf) p in
    (
      ap (λ (x : List ℕ). w.received ++ x)
          (sym (take-front (length got) got (drop (length got) buf) refl)),
      refl,
    )

pub take_all : (buf : List ℕ) → take (length buf) buf ≡ buf
take_all buf =
    ap (λ (x : List ℕ). take (length buf) x) (sym (append-nil buf))
    ∙ take-front (length buf) buf [] refl

abbrev pub board_laws : BulkLaws board
board_laws = record {
  delivered = λ w. w.delivered;
  received = λ w. w.received;
  counts = λ h ep buf t w. elim (Bool-cases (ep == 0x82)) [
    | inl reads ↦ rw reads (next_packet-counts w.packets buf w)
    | inr writes ↦ rw writes (refl, omega arith, refl)
  ];
  sends = λ h buf t w. (ap (λ (x : List ℕ). w.delivered ++ x) (sym (take_all buf)), refl);
  receives = λ h buf t w. next_packet-receives w.packets buf w;
}

-- The seconds do not change along transfers.
pub Transfers-seconds : (w v : Desk) → Transfers board w v → v.seconds ≡ w.seconds
Transfers-seconds w v no_transfer = refl
Transfers-seconds w v (one_more h ep buf t {v = u} q) =
    (moved_keeps ep buf u).1 ∙ Transfers-seconds w u q
