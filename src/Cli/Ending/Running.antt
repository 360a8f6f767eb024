-- ===== src/Cli/Ending/Running.antt =====
-- What holds of the ends of the parts of a pattern holds of its end.
use usbmux_tool.Base.{Bool, true, false, Ret, Code, ok, err, fault, ◌≡◌, refl, if◌then◌else◌}
use usbmux_tool.Device.State.{State}
use usbmux_tool.Cli.Ending.{Exit, Outcome, undefined, branch}

module _ {W : Type 0} (Q : Exit → Type 0) where
  -- The state is the one behind the call.
  pub branch_ends_after :
      {A : Type 0} (r : Ret A × State W) (next : A → State W → Outcome W)
      (failed : Code → State W → Outcome W)
      → Q undefined
      → ((a : A) → Q (next a r.1).exit)
      → ((e : Code) → Q (failed e r.1).exit)
      → Q (branch r next failed).exit
  unfolding branch
  branch_ends_after (ok a, t) next failed u g h = g a
  branch_ends_after (err e, t) next failed u g h = h e
  branch_ends_after (fault, t) next failed u g h = u

  pub branch_ends :
      {A : Type 0} (r : Ret A × State W) (next : A → State W → Outcome W)
      (failed : Code → State W → Outcome W)
      → Q undefined
      → ((a : A) (t : State W) → Q (next a t).exit)
      → ((e : Code) (t : State W) → Q (failed e t).exit)
      → Q (branch r next failed).exit
  branch_ends r next failed u g h = branch_ends_after r next failed u (λ a. g a r.1) (λ e. h e r.1)

  pub either_ends :
      (b : Bool) (x y : Outcome W)
      → (b ≡ true → Q x.exit)
      → (b ≡ false → Q y.exit)
      → Q (if b then x else y).exit
  either_ends true x y g h = g refl
  either_ends false x y g h = h refl
