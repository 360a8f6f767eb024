-- ===== src/Device/Lifecycle/Opening.antt =====
-- The steps of `ch32mux_open`: what is held after each, and what the device is.
use usbmux_tool.Base.{
  ℕ, Bool-cases, inl, inr, true, false, Option, none, some, ◌≡◌, refl, sym, ◌∙◌, pos, int_eq, arith,
  err_not_found, append-nil,
}
use usbmux_tool.Device.Platform.{Platform, Initialised}
use usbmux_tool.Device.State.{Device}
use usbmux_tool.Device.Lifecycle.{OpenOptions, is_there, blank, detach, attach, initialise}
use usbmux_tool.Device.Lifecycle.Ledger.{
  initialised, opened, detached, freed, Held, nothing, step, Traced, Moves, Moves-trans, Moves-call,
  Moves-none,
}
use usbmux_tool.Device.Lifecycle.Closing.{held_by, IsSound}
use usbmux_tool.Device.Lifecycle.Claiming.{Prepared, Settled, gave_up, claim-Settled, took, missed}

not_there : (p : Option ℕ) → is_there p ≡ false → p ≡ none
not_there none h = refl
not_there (some p) h = absurd (cc)

module _ (P : Platform) (T : Traced P) where
  detach-Settled :
      (options chosen : OpenOptions) (d : Device) (w v : P.World) (h : Held)
      → Moves P T w v h (held_by d)
      → IsSound d
      → is_there d.handle ≡ true
      → d.claimed ≡ false
      → Prepared chosen d
      → d.detached_kernel_driver ≡ false
      → Settled P T chosen w h (detach P options d v)
  unfolding detach step
  detach-Settled options chosen d w v h m sound handle unclaimed prepared driven =
      elim (Bool-cases options.detach_kernel_driver) [
        | inr keep ↦ rw keep (claim-Settled P T chosen d w v h m sound handle unclaimed prepared)
        | inl wanted ↦
            elim (Bool-cases
              (int_eq (P.kernel_driver_active d.handle d.interface_number v).0 (pos 1))) [
                | inr idle ↦
                    rw (wanted, idle)
                      (claim-Settled P T chosen d w v₁ h looked sound handle unclaimed prepared)
                | inl active ↦
                    elim (Bool-cases (
                      int_eq (P.detach_kernel_driver d.handle d.interface_number v₁).0 P.success)) [
                        | inl fine ↦
                            rw (wanted, active, fine)
                              (claim-Settled P T chosen (record d { detached_kernel_driver = true })
                                w v₂ h
                                (took P T _ (detached d.handle d.interface_number) w v₁ v₂ h
                                  (held_by d) (held_by (record d { detached_kernel_driver = true }))
                                  looked (T.at_detach d.handle d.interface_number v₁) fine
                                  (ground arith))
                                (record {
                                  needs_context = sound.needs_context;
                                  driver_handle = λ q. handle;
                                  interface_handle = sound.interface_handle;
                                })
                                handle unclaimed fields)
                        | inr broken ↦
                            rw (wanted, active, broken)
                              (gave_up P T chosen _ d w v₂ h
                                (missed P T _ (detached d.handle d.interface_number) w v₁ v₂ h
                                  (held_by d) looked (T.at_detach d.handle d.interface_number v₁)
                                  broken)
                                sound)
                      ]
              ]
      ]
    where
      v₁ : P.World
      v₁ = (P.kernel_driver_active d.handle d.interface_number v).1

      v₂ : P.World
      v₂ = (P.detach_kernel_driver d.handle d.interface_number v₁).1

      fields : Prepared chosen (record d { detached_kernel_driver = true })
      fields = record {
        interface = prepared.interface;
        timeout = prepared.timeout;
        numbering = prepared.numbering;
      }

      looked : Moves P T w v₁ h (held_by d)
      looked = Moves-trans P T m (
          Moves-none P T v v₁ (held_by d)
            (T.at_active d.handle d.interface_number v ∙ sym (append-nil (T.calls v))))

  attach-Settled :
      (options : OpenOptions) (c : Option ℕ) (w v : P.World) (h : Held)
      → is_there c ≡ true
      → Moves P T w v h (held_by (record blank { ctx = c }))
      → Settled P T options w h (attach P options (record blank { ctx = c }) v)
  unfolding attach step
  attach-Settled options c w v h there_c m = elim (Bool-cases (is_there hd)) [
    | inl found ↦ rw found (
        detach-Settled options options
          (record blank {
            ctx = c;
            handle = hd;
            interface_number = options.interface_number;
            timeout_ms = options.timeout_ms;
            next_seq = 1;
          })
          w v' h
          (took P T _ (opened c hd) w v v' h (held_by (record blank { ctx = c }))
            (held_by (record blank { ctx = c; handle = hd })) m
            (T.at_open c options.vid options.pid v) found (ground arith))
          (record {
            needs_context = λ q. there_c;
            driver_handle = λ q. absurd (cc);
            interface_handle = λ q. absurd (cc);
          })
          found refl (record { interface = refl; timeout = refl; numbering = refl }) refl)
    | inr absent ↦ rw absent (
        gave_up P T options err_not_found (record blank { ctx = c; handle = hd }) w v' h
          (rw (not_there hd absent) (
            missed P T _ (opened c hd) w v v' h (held_by (record blank { ctx = c })) m
              (T.at_open c options.vid options.pid v) absent))
          (record {
            needs_context = λ q. there_c;
            driver_handle = λ q. absurd (cc);
            interface_handle = λ q. absurd (cc);
          }))
  ]
    where
      hd : Option ℕ
      hd = (P.open_device_with_vid_pid c options.vid options.pid v).0

      v' : P.World
      v' = (P.open_device_with_vid_pid c options.vid options.pid v).1

  pub initialise-Settled :
      (options : OpenOptions) (w v : P.World)
      → Moves P T w v nothing (record nothing { memory = true })
      → Settled P T options w nothing (initialise P options v)
  unfolding initialise step
  initialise-Settled options w v m = elim (Bool-cases (int_eq i.status P.success)) [
    | inl fine ↦ rw fine (
        attach-Settled options i.ctx w i.world nothing ((T.at_init v).1 fine) (
          took P T _ (initialised i.ctx) w v i.world nothing (record nothing { memory = true })
            (record nothing { memory = true; context = i.ctx }) m (T.at_init v).0 fine
            (rw ((T.at_init v).1 fine) refl)))
    | inr broken ↦ rw broken (record {
      moves =
          Moves-trans P T
            (missed P T _ (initialised i.ctx) w v i.world nothing (record nothing { memory = true })
              m (T.at_init v).0 broken)
            (Moves-call P T freed i.world (P.free i.world) (record nothing { memory = true })
              nothing (T.at_free i.world) refl);
      defined = λ p. cc;
      success = λ p. absurd (cc);
      failure = λ p. refl;
    })
  ]
    where
      i : Initialised P.World
      i = P.init v
