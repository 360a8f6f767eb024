-- ===== src/Device/Hint/Steps.antt =====
-- `ch32mux_debug_bulk_transfer` makes at most one bulk transfer.
use usbmux_tool.Base.{
  ℕ, Option, none, some, List, refl, Bool-cases, inl, inr, ℤ, pos, negsuc, is_nonpositive, length,
  take, leb,
}
use usbmux_tool.Device.Platform.{Platform}
use usbmux_tool.Device.State.{Device, State}
use usbmux_tool.Device.Along.{Kept, Along, Along-refl}
use usbmux_tool.Device.Hint.{debug_transfer_on, debug_bulk_transfer}

module _ (P : Platform) (K : Kept P) where
  debug_transfer_on-Along :
      (device : Option Device) (endpoint : ℕ) (bytes : Option (List ℕ)) (n : ℤ) (timeout : ℕ)
      (s : State P.World)
      → Along P K s (debug_transfer_on P device endpoint bytes n timeout s).state
  unfolding debug_transfer_on
  debug_transfer_on-Along (some d) endpoint (some bytes) (pos n) timeout s =
      elim (Bool-cases (is_nonpositive (pos n))) [
        | inl empty ↦ rw empty (Along-refl P K s)
        | inr some_bytes ↦ elim (Bool-cases (leb n (length bytes))) [
          | inr short ↦ rw (some_bytes, short) (Along-refl P K s)
          | inl fits ↦
              rw (some_bytes, fits)
                (record {
                  world = K.bulk d.handle endpoint (take n bytes) timeout s.world;
                  device = refl;
                })
        ]
      ]
  debug_transfer_on-Along (some d) endpoint (some bytes) (negsuc n) timeout s = Along-refl P K s
  debug_transfer_on-Along (some d) endpoint none n timeout s = Along-refl P K s
  debug_transfer_on-Along none endpoint bytes n timeout s = Along-refl P K s

  pub debug_bulk_transfer-Along :
      (endpoint : ℕ) (bytes : Option (List ℕ)) (n : ℤ) (timeout : ℕ) (s : State P.World)
      → Along P K s (debug_bulk_transfer P endpoint bytes n timeout s).state
  unfolding debug_bulk_transfer
  debug_bulk_transfer-Along endpoint bytes n timeout s =
      debug_transfer_on-Along s.device endpoint bytes n timeout s
