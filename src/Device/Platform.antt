-- ===== src/Device/Platform.antt =====
-- What userspace/src/device.c and the tool call and do not implement: libusb and the allocator. A
-- platform is a state with one function for each call; what libusb documents of them is stated in
-- records of laws, which theorems take as hypotheses.
use Prim.Native.String.{String}
use usbmux_tool.Base.{ℕ, ◌≤◌, ◌≡◌, Bool, Option, List, ◌++◌, length, take, ℤ, pos, pos_part}

-- A transfer's status, the buffer after it, the bytes that it moved, and the world after it.
pub record Transfer (W : Type 0) : Type 0 where
  pub status : ℤ
  pub buffer : List ℕ
  pub transferred : ℤ
  pub world : W

-- libusb_init: the status, the context that it wrote, the world after it.
pub record Initialised (W : Type 0) : Type 0 where
  pub status : ℤ
  pub ctx : Option ℕ
  pub world : W

-- Pointers to contexts and device handles are addresses, `none` is NULL. The buffer that a
-- transfer is given is the memory from `data` on, as long as its argument `length`.
pub record Platform : Type 1 where
  pub World : Type 0
  -- LIBUSB_SUCCESS, LIBUSB_ERROR_TIMEOUT and LIBUSB_ERROR_NO_DEVICE
  pub success : ℤ
  pub error_timeout : ℤ
  pub error_no_device : ℤ
  -- calloc (false: it returned NULL) and free, for the device structure
  pub calloc : World → Bool × World
  pub free : World → World
  pub init : World → Initialised World
  pub open_device_with_vid_pid : Option ℕ → ℕ → ℕ → World → Option ℕ × World
  pub kernel_driver_active : Option ℕ → ℤ → World → ℤ × World
  pub detach_kernel_driver : Option ℕ → ℤ → World → ℤ × World
  pub attach_kernel_driver : Option ℕ → ℤ → World → ℤ × World
  pub claim_interface : Option ℕ → ℤ → World → ℤ × World
  pub release_interface : Option ℕ → ℤ → World → ℤ × World
  pub close : Option ℕ → World → World
  pub exit : Option ℕ → World → World
  -- handle, endpoint, buffer, timeout
  pub bulk_transfer : Option ℕ → ℕ → List ℕ → ℕ → World → Transfer World
  pub interrupt_transfer : Option ℕ → ℕ → List ℕ → ℕ → World → Transfer World
  pub error_name : ℤ → String

-- What libusb documents of `libusb_bulk_transfer`: it reports how many bytes it moved, at most as
-- many as it was asked to, and does so when it fails too; on an IN endpoint those are the first
-- bytes of the buffer. `delivered` and `received` are the bytes that crossed the endpoints 0x03
-- and 0x82 so far.
pub record BulkLaws (P : Platform) : Type 0 where
  pub delivered : P.World → List ℕ
  pub received : P.World → List ℕ
  pub counts :
      (h : Option ℕ) (ep : ℕ) (buf : List ℕ) (t : ℕ) (w : P.World)
      → let r = P.bulk_transfer h ep buf t w in
        (r.transferred ≡ pos (pos_part r.transferred))
        × (pos_part r.transferred ≤ length buf)
        × (length r.buffer ≡ length buf)
  pub sends :
      (h : Option ℕ) (buf : List ℕ) (t : ℕ) (w : P.World)
      → let r = P.bulk_transfer h 0x03 buf t w in
        (delivered r.world ≡ delivered w ++ take (pos_part r.transferred) buf)
        × (received r.world ≡ received w)
  pub receives :
      (h : Option ℕ) (buf : List ℕ) (t : ℕ) (w : P.World)
      → let r = P.bulk_transfer h 0x82 buf t w in
        (received r.world ≡ received w ++ take (pos_part r.transferred) r.buffer)
        × (delivered r.world ≡ delivered w)
