-- ===== src/Device/Lifecycle/Closing.antt =====
-- What a device stands for, and that `ch32mux_close` asks for all of it to be given back.
use usbmux_tool.Base.{
  ℕ, Bool, true, false, ◌&&◌, Option, none, some, [], ◌∷◌, ◌++◌, ◌≡◌, refl, if◌then◌else◌, arith, ℤ,
  pos, negsuc, int_eq,
}
use usbmux_tool.Device.Platform.{Platform}
use usbmux_tool.Device.State.{Device}
use usbmux_tool.Device.Lifecycle.{is_there, close_device}
use usbmux_tool.Device.Lifecycle.Ledger.{
  LibCall, released, attached, closed, exited, freed, Held, nothing, step, same, Traced, Moves,
  Moves-refl, Moves-trans, Moves-call,
}

abbrev pub numbered : Bool → ℤ → Option ℤ
numbered true i = some i
numbered false i = none

-- What a device structure stands for: its pointers where they are not NULL, and the number of the
-- interface where the driver was detached or the interface claimed.
abbrev pub held_by : Device → Held
held_by d = record {
  memory = true;
  context = d.ctx;
  handle = d.handle;
  driver = numbered d.detached_kernel_driver d.interface_number;
  interface = numbered d.claimed d.interface_number;
}

abbrev pub held_by_any : Option Device → Held
held_by_any none = nothing
held_by_any (some d) = held_by d

-- A device has what its parts rest on.
pub record IsSound (d : Device) : Type 0 where
  pub needs_context : is_there d.handle ≡ true → is_there d.ctx ≡ true
  pub driver_handle : d.detached_kernel_driver ≡ true → is_there d.handle ≡ true
  pub interface_handle : d.claimed ≡ true → is_there d.handle ≡ true

pub same_refl : (p : Option ℕ) → is_there p ≡ true → same p p ≡ true
same_refl none h = absurd (cc)
same_refl (some p) h = ground arith

int_eq_refl : (i : ℤ) → int_eq i i ≡ true
int_eq_refl (pos n) = ground arith
int_eq_refl (negsuc n) = ground arith

module _ (P : Platform) (T : Traced P) where
  -- A conditional give-back: the call is made exactly where the thing is held.
  give_back :
      (b : Bool) (c : LibCall) (w w' : P.World) (h h' : Held)
      → T.calls w' ≡ T.calls w ++ c ∷ []
      → (b ≡ true → step h c ≡ some h')
      → (b ≡ false → h ≡ h')
      → Moves P T w (if b then w' else w) h h'
  give_back true c w w' h h' p q r = Moves-call P T c w w' h h' p (q refl)
  give_back false c w w' h h' p q r = rw (r refl) (Moves-refl P T w h')

  -- Closing asks for everything to be given back, in order.
  pub close_device-Moves :
      (d : Device) (w : P.World) → IsSound d → Moves P T w (close_device P d w) (held_by d) nothing
  unfolding close_device step
  close_device-Moves d w sound =
      Moves-trans P T
        (Moves-trans P T
          (Moves-trans P T
            (Moves-trans P T
              (give_back (is_there d.handle && d.claimed) (released d.handle d.interface_number) w
                w₁ (held_by d) h₁ (T.at_release d.handle d.interface_number w) (λ p. ground arith)
                (λ p. ground arith))
              (give_back (is_there d.handle && d.detached_kernel_driver)
                (attached d.handle d.interface_number) v₁ w₂ h₁ h₂
                (T.at_attach d.handle d.interface_number v₁) (λ p. ground arith)
                (λ p. ground arith)))
            (give_back (is_there d.handle) (closed d.handle) v₂ (P.close d.handle v₂) h₂ h₃
              (T.at_close d.handle v₂) (λ p. ground arith) (λ p. ground arith)))
          (give_back (is_there d.ctx) (exited d.ctx) v₃ (P.exit d.ctx v₃) h₃ h₄ (T.at_exit d.ctx v₃)
            (λ p. ground arith) (λ p. ground arith)))
        (Moves-call P T freed v₄ (P.free v₄) h₄ nothing (T.at_free v₄) refl)
    where
      h₁ : Held
      h₁ = record (held_by d) { interface = none }

      h₂ : Held
      h₂ = record h₁ { driver = none }

      h₃ : Held
      h₃ = record h₂ { handle = none }

      h₄ : Held
      h₄ = record h₃ { context = none }

      w₁ : P.World
      w₁ = (P.release_interface d.handle d.interface_number w).1

      v₁ : P.World
      v₁ = if is_there d.handle && d.claimed then w₁ else w

      w₂ : P.World
      w₂ = (P.attach_kernel_driver d.handle d.interface_number v₁).1

      v₂ : P.World
      v₂ = if is_there d.handle && d.detached_kernel_driver then w₂ else v₁

      v₃ : P.World
      v₃ = if is_there d.handle then P.close d.handle v₂ else v₂

      v₄ : P.World
      v₄ = if is_there d.ctx then P.exit d.ctx v₃ else v₃
