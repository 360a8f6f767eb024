-- ===== src/Device/Lifecycle/Balance.antt =====
-- `ch32mux_open` and `ch32mux_close`: what is taken, and that all of it is asked to be given back.
use usbmux_tool.Base.{
  Bool-cases, inl, inr, true, Option, none, some, ◌≡◌, ◌≢◌, ◌⊎◌, subst, fault, refl, Dest, null,
  there, ok, err, Ret, Done,
}
use usbmux_tool.Device.Platform.{Platform}
use usbmux_tool.Device.State.{Device}
use usbmux_tool.Device.Lifecycle.{OpenOptions, Opened, close, open_device, options_or_default}
use usbmux_tool.Device.Lifecycle.Ledger.{
  allocated, Held, nothing, step, Traced, Moves, Moves-refl, Moves-trans,
}
use usbmux_tool.Device.Lifecycle.Closing.{held_by_any, IsSound, close_device-Moves}
use usbmux_tool.Device.Lifecycle.Claiming.{Settled, took, missed}
use usbmux_tool.Device.Lifecycle.Opening.{initialise-Settled}

module _ (P : Platform) (T : Traced P) where
  -- Whatever libusb and the heap answer, where each call is recorded with its arguments, one that
  -- takes if it succeeded and one that gives back when it is made, and a successful `libusb_init`
  -- sets the context: opening either succeeds, and the
  -- device that it hands out has the number of the interface and the timeout of the options, the
  -- first sequence number 1, and its interface claimed, and its pointers and that number are exactly
  -- what was taken; or it fails, hands out no device, and has asked for all that was taken to be
  -- given back, with the pointer and the number that it was taken with. Every call was in order.
  pub open_device-Settled :
      (options : Option OpenOptions) (out : Dest) (w : P.World)
      → Settled P T (options_or_default options) w nothing (open_device P options out w)
  unfolding open_device step
  open_device-Settled options null w = record {
    moves = Moves-refl P T w nothing;
    defined = λ p. cc;
    success = λ p. absurd (cc);
    failure = λ p. refl;
  }
  open_device-Settled options there w = elim (Bool-cases (P.calloc w).0) [
    | inl fine ↦ rw fine (
        initialise-Settled P T (options_or_default options) w (P.calloc w).1 (
          took P T _ allocated w w (P.calloc w).1 nothing nothing (record nothing { memory = true })
            (Moves-refl P T w nothing) (T.at_calloc w) fine refl))
    | inr broken ↦ rw broken (record {
      moves =
          missed P T _ allocated w w (P.calloc w).1 nothing nothing (Moves-refl P T w nothing)
            (T.at_calloc w) broken;
      defined = λ p. cc;
      success = λ p. absurd (cc);
      failure = λ p. refl;
    })
  ]

  pub closes :
      (device : Option Device) (w v : P.World) (h : Held)
      → Moves P T w v h (held_by_any device)
      → ((d : Device) → device ≡ some d → IsSound d)
      → Moves P T w (close P device v) h nothing
  unfolding close
  closes none w v h m sound = m
  closes (some d) w v h m sound = Moves-trans P T m (close_device-Moves P T d v (sound d refl))

  pub Settled-IsSound :
      (options : OpenOptions) (w : P.World) (h : Held) (o : Opened P.World)
      → Settled P T options w h o
      → (d : Device) → o.device ≡ some d
      → IsSound d
  Settled-IsSound options w h o s d p = elim (is_ok o.ret) [
    | inl fine ↦
        let (e, same, claimed_e, sound, fields) = s.success fine in
        let equal : e ≡ d = cc in subst IsSound equal sound
    | inr failed ↦ absurd (cc (s.failure failed))
  ]
    where
      is_ok : (r : Ret Done) → (r ≡ ok tt) ⊎ (r ≢ ok tt)
      is_ok (ok u) = inl refl
      is_ok (err e) = inr (λ h. cc)
      is_ok fault = inr (λ h. cc)

  -- Where each call is recorded with its arguments, one that takes if it succeeded and one that
  -- gives back when it is made, and a successful `libusb_init` sets the context: opening and then closing what was handed out asks for everything
  -- that was taken to be given back, in order and with the pointer and the number that it was taken
  -- with, whether or not the opening succeeded.
  pub close-open_device :
      (options : Option OpenOptions) (out : Dest) (w : P.World)
      → let o = open_device P options out w in
        Moves P T w (close P o.device o.world) nothing nothing
  close-open_device options out w =
      let o = open_device P options out w in
      let s = open_device-Settled options out w in
      closes o.device w o.world nothing s.moves
        (Settled-IsSound (options_or_default options) w nothing o s)
