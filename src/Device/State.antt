-- ===== src/Device/State.antt =====
-- `struct ch32mux_device`, the state that a call works on, and the calls that read or step it.
use usbmux_tool.Base.{
  ℕ, ◌+◌, Bool, Option, none, some, Ret, ok, err, fault, Code, err_timeout, err_not_found, err_io,
  ℤ, int_eq, ◌==◌, if◌then◌else◌,
}
use usbmux_tool.Proto.Words.{u16}
use usbmux_tool.Device.Platform.{Platform}

pub record Device : Type 0 where
  pub ctx : Option ℕ
  pub handle : Option ℕ
  pub interface_number : ℤ
  pub claimed : Bool
  pub detached_kernel_driver : Bool
  pub timeout_ms : ℕ
  pub next_seq : ℕ

-- The caller's pointer to a device (`none` is NULL) and the world outside.
pub record State (W : Type 0) : Type 0 where
  pub device : Option Device
  pub world : W

-- A call on a device: its result, and the state that it leaves, also when it fails.
abbrev pub Call : Type 0 → Type 0 → Type 0
Call W A = State W → Ret A × State W

abbrev pub pure : {W A : Type 0} → A → Call W A
pure a s = (ok a, s)

abbrev pub lift : {W A : Type 0} → Ret A → Call W A
lift r s = (r, s)

-- `ret = f(...); if(ret != CH32MUX_OK) return ret;`
abbrev pub continue : {W A B : Type 0} → Ret A → (A → Call W B) → Call W B
continue (ok a) f s = f a s
continue (err e) f s = (err e, s)
continue fault f s = (fault, s)

infixl 5 ◌>>=◌ ◌>>◌
abbrev pub ◌>>=◌ : {W A B : Type 0} → Call W A → (A → Call W B) → Call W B
◌>>=◌ m f s = continue (m s).0 f (m s).1

abbrev pub ◌>>◌ : {W B : Type 0} → Call W (Unit {0}) → Call W B → Call W B
m >> k = m >>= λ _. k

module _ (P : Platform) where
  unfoldable pub map_libusb_error : ℤ → Code
  map_libusb_error e =
      if int_eq e P.error_timeout
      then err_timeout
      else if int_eq e P.error_no_device
      then err_not_found
      else err_io

-- `seq = device->next_seq++; if(device->next_seq == 0) device->next_seq = 1;`
unfoldable pub bump : Device → Device
bump d = let next = u16 (d.next_seq + 1) in record d { next_seq = if next == 0 then 1 else next }

abbrev next_seq_of : {W : Type 0} → Option Device → State W → ℕ × State W
next_seq_of none s = (0, s)
next_seq_of (some d) s = (d.next_seq, record s { device = some (bump d) })

-- `ch32mux_next_seq`
unfoldable pub next_seq : {W : Type 0} → State W → ℕ × State W
unfolding bump
next_seq s = next_seq_of s.device s

-- `ch32mux_timeout_ms`
unfoldable pub timeout_ms : Option Device → ℕ
timeout_ms none = 0
timeout_ms (some d) = d.timeout_ms
