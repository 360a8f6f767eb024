-- ===== src/Base/Results.antt =====
-- The outcome of a C function that returns a `ch32mux_result_t`.
use mathlib.Core.Path.{◌≡◌, refl}
use mathlib.Core.Logic.{◌≢◌, ◌⊎◌, inl, inr}
use mathlib.Core.Bool.{Bool, true, false}

-- The results other than CH32MUX_OK, which is the constructor `ok` of `Ret`.
pub data Code : Type 0 where
  err_arg err_no_mem err_proto err_timeout err_io err_not_found err_device_status err_overflow :
      Code

-- `fault` is undefined behaviour of C: a read or a write outside a buffer.
pub data Ret {ℓ} (A : Type ℓ) : Type ℓ where
  ok : A → Ret A
  err : Code → Ret A
  fault : Ret A

-- A function that returns nothing beside its result code.
abbrev pub Done : Type 0
Done = Unit {0}

-- `ret = f(...); if(ret != CH32MUX_OK) return ret;`
-- Steps one after the other: a step that did not succeed ends the function with its result.
infixl 5 ◌>>=◌ ◌>>◌
abbrev pub ◌>>=◌ {ℓ κ} : {A : Type ℓ} {B : Type κ} → Ret A → (A → Ret B) → Ret B
fault >>= next = fault
err code >>= next = err code
ok value >>= next = next value

abbrev pub ◌>>◌ {κ} : {B : Type κ} → Ret Done → Ret B → Ret B
first >> second = first >>= λ done. second

-- `if(test) return e;`
abbrev pub fail_if : Bool → Code → Ret Done
fail_if true e = err e
fail_if false e = ok tt

-- An access that is undefined behaviour unless `fits` holds.
abbrev pub in_bounds : Bool → Ret Done
in_bounds true = ok tt
in_bounds false = fault

-- A pointer to a caller's variable that is only written: NULL, or a place to write to.
pub data Dest : Type 0 where
  null there : Dest

-- A result is a success or an error where it is no undefined behaviour.
pub Ret-cases {ℓ} :
    {A : Type ℓ} (r : Ret A) → r ≢ fault → ((a : A) × (r ≡ ok a)) ⊎ ((e : Code) × (r ≡ err e))
Ret-cases (ok a) h = inl (a, refl)
Ret-cases (err e) h = inr (e, refl)
Ret-cases fault h = absurd (h refl)
