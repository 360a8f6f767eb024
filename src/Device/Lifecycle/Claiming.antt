-- ===== src/Device/Lifecycle/Claiming.antt =====
-- What `ch32mux_open` leaves, and its last step, the claim of the interface.
use usbmux_tool.Base.{
  Bool, Bool-cases, inl, inr, true, false, none, some, [], ◌∷◌, ◌++◌, ◌≡◌, ◌≢◌, fault, refl, ap,
  ◌∙◌, int_eq, if◌then◌else◌, arith, ok, err, Code,
}
use usbmux_tool.Device.Platform.{Platform}
use usbmux_tool.Device.State.{Device}
use usbmux_tool.Device.Lifecycle.{OpenOptions, Opened, is_there, close_device, claim}
use usbmux_tool.Device.Lifecycle.Ledger.{
  LibCall, claimed, Held, step, Traced, Moves, Moves-trans, Moves-call, Moves-none,
}
use usbmux_tool.Device.Lifecycle.Closing.{held_by, held_by_any, IsSound, close_device-Moves}

-- The fields that `ch32mux_open` sets from the options, and the first sequence number.
pub record Prepared (options : OpenOptions) (d : Device) : Type 0 where
  pub interface : d.interface_number ≡ options.interface_number
  pub timeout : d.timeout_ms ≡ options.timeout_ms
  pub numbering : d.next_seq ≡ 1

module _ (P : Platform) (T : Traced P) where
  -- After a step of `ch32mux_open` that began in `w` with `h` held: either it succeeded and the
  -- device stands for what is held, with its interface claimed, or it failed and nothing is held.
  pub record Settled (options : OpenOptions) (w : P.World) (h : Held) (o : Opened P.World)
      : Type 0 where
    pub moves : Moves P T w o.world h (held_by_any o.device)
    pub defined : o.ret ≢ fault
    pub success :
        (o.ret ≡ ok tt)
        → (d : Device) × (o.device ≡ some d)
          × (d.claimed ≡ true)
          × (IsSound d)
          × (Prepared options d)
    pub failure : (o.ret ≢ ok tt) → o.device ≡ none

  pub gave_up :
      (options : OpenOptions) (e : Code) (d : Device) (w v : P.World) (h : Held)
      → Moves P T w v h (held_by d)
      → IsSound d
      → Settled options w h (record { ret = err e; device = none; world = close_device P d v })
  gave_up options e d w v h m sound = record {
    moves = Moves-trans P T m (close_device-Moves P T d v sound);
    defined = λ p. cc;
    success = λ p. absurd (cc);
    failure = λ p. refl;
  }

  pub claim-Settled :
      (options : OpenOptions) (d : Device) (w v : P.World) (h : Held)
      → Moves P T w v h (held_by d)
      → IsSound d
      → is_there d.handle ≡ true
      → d.claimed ≡ false
      → Prepared options d
      → Settled options w h (claim P d v)
  unfolding claim step
  claim-Settled options d w v h m sound handle unclaimed prepared =
      elim (Bool-cases (int_eq (P.claim_interface d.handle d.interface_number v).0 P.success)) [
        | inl fine ↦ rw fine (record {
          moves = Moves-trans P T m (
              Moves-call P T (claimed d.handle d.interface_number) v v' (held_by d)
                (held_by (record d { claimed = true }))
                (T.at_claim d.handle d.interface_number v
                  ∙ ap
                      (λ (b : Bool).
                        T.calls v ++ (if b then claimed d.handle d.interface_number ∷ [] else []))
                      fine)
                (ground arith));
          defined = λ p. cc;
          success = λ p. (
            record d { claimed = true },
            refl,
            refl,
            record {
              needs_context = sound.needs_context;
              driver_handle = sound.driver_handle;
              interface_handle = λ q. handle;
            },
            record {
              interface = prepared.interface;
              timeout = prepared.timeout;
              numbering = prepared.numbering;
            },
          );
          failure = λ p. absurd (p refl);
        })
        | inr broken ↦ rw broken (
            gave_up options _ d w v' h
              (Moves-trans P T m (
                Moves-none P T v v' (held_by d) (
                  T.at_claim d.handle d.interface_number v
                  ∙ ap
                      (λ (b : Bool).
                        T.calls v ++ (if b then claimed d.handle d.interface_number ∷ [] else []))
                      broken)))
              sound)
      ]
    where
      v' : P.World
      v' = (P.claim_interface d.handle d.interface_number v).1

  -- A call that may take something: the ledger after it, by its outcome.
  pub took :
      (b : Bool) (c : LibCall) (w v v' : P.World) (h m e : Held)
      → Moves P T w v h m
      → T.calls v' ≡ T.calls v ++ (if b then c ∷ [] else [])
      → b ≡ true
      → step m c ≡ some e
      → Moves P T w v' h e
  took b c w v v' h m e before p q s = Moves-trans P T before (
      Moves-call P T c v v' m e (p ∙ ap (λ (t : Bool). T.calls v ++ (if t then c ∷ [] else [])) q)
        s)

  pub missed :
      (b : Bool) (c : LibCall) (w v v' : P.World) (h m : Held)
      → Moves P T w v h m
      → T.calls v' ≡ T.calls v ++ (if b then c ∷ [] else [])
      → b ≡ false
      → Moves P T w v' h m
  missed b c w v v' h m before p q =
      Moves-trans P T before
        (Moves-none P T v v' m (p ∙ ap (λ (t : Bool). T.calls v ++ (if t then c ∷ [] else [])) q))
