-- ===== src/Device/Seq.antt =====
-- The sequence numbers of `ch32mux_next_seq`.
use usbmux_tool.Base.{ℕ, zero, suc, ◌+◌, ◌-◌, ◌%◌, ◌^◌, ◌≤◌, ◌<◌, ◌≡◌, ◌≢◌, refl, arith, some}
use usbmux_tool.Device.State.{Device, State, bump, next_seq}

-- The state after `n` calls.
pub calls_later : {W : Type 0} → ℕ → State W → State W
calls_later zero s = s
calls_later (suc n) s = (next_seq (calls_later n s)).1

bump-next_seq :
    (d : Device) → 1 ≤ d.next_seq → d.next_seq < 2 ^ 16 → (bump d).next_seq ≡ d.next_seq % 65535 + 1
unfolding bump
bump-next_seq d p q = ground arith

module _ {W : Type 0} where
  next_seq-open :
      (s : State W) (d : Device)
      → s.device ≡ some d
      → ((next_seq s).0 ≡ d.next_seq)
        × ((next_seq s).1.device ≡ some (bump d))
        × ((next_seq s).1.world ≡ s.world)
  unfolding next_seq
  next_seq-open s d p = rw p (refl, refl, refl)

  -- The device after `n` calls holds the number that the closed form gives.
  calls_later-device :
      (n : ℕ) (s : State W) (d : Device)
      → s.device ≡ some d
      → 1 ≤ d.next_seq
      → d.next_seq < 2 ^ 16
      → (e : Device) × ((calls_later n s).device ≡ some e)
        × (e.next_seq ≡ (d.next_seq - 1 + n) % 65535 + 1)
  unfolding calls_later
  calls_later-device zero s d opened p q = (d, opened, omega arith)
  calls_later-device (suc n) s d opened p q =
      let (e, same, number) = calls_later-device n s d opened p q in
      (
        bump e,
        (next_seq-open (calls_later n s) e same).1,
        omega (arith, bump-next_seq e (omega arith) (omega arith)),
      )

  -- On a device whose counter is a `uint16_t` other than 0, as `ch32mux_open` leaves it, the call
  -- after `n` others returns ((counter - 1 + n) mod 65535) + 1: the numbers run from 1 to 65535 and
  -- start again, and 0 is never among them.
  pub next_seq_closed :
      (n : ℕ) (s : State W) (d : Device)
      → s.device ≡ some d
      → 1 ≤ d.next_seq
      → d.next_seq < 2 ^ 16
      → ((next_seq (calls_later n s)).0 ≡ (d.next_seq - 1 + n) % 65535 + 1)
        × (1 ≤ (next_seq (calls_later n s)).0)
        × ((next_seq (calls_later n s)).0 < 2 ^ 16)
  next_seq_closed n s d opened p q =
      let (e, same, number) = calls_later-device n s d opened p q in
      let (here, later, world) = next_seq-open (calls_later n s) e same in omega arith

  -- On a device whose counter is a `uint16_t` other than 0, two calls with fewer than 65535 calls
  -- from the one to the other never return the same number.
  pub next_seq_distinct :
      (i j : ℕ) (s : State W) (d : Device)
      → s.device ≡ some d
      → 1 ≤ d.next_seq
      → d.next_seq < 2 ^ 16
      → i < j
      → j < i + 65535
      → (next_seq (calls_later i s)).0 ≢ (next_seq (calls_later j s)).0
  next_seq_distinct i j s d opened p q less near =
      let (at_i, low_i, high_i) = next_seq_closed i s d opened p q in
      let (at_j, low_j, high_j) = next_seq_closed j s d opened p q in omega arith
