-- ===== src/Device/Lifecycle.antt =====
-- `ch32mux_default_open_options`, `ch32mux_open` and `ch32mux_close` of userspace/src/device.c.
pub mod Ledger
pub mod Closing
pub mod Claiming
pub mod Opening
pub mod Balance
use usbmux_tool.Base.{
  ℕ, Bool, true, false, ◌&&◌, not, Option, none, some, Ret, Done, Code, ok, err, err_arg,
  err_no_mem, err_not_found, ℤ, pos, int_eq, Dest, null, there, if◌then◌else◌,
}
use usbmux_tool.Device.Platform.{Platform, Initialised}
use usbmux_tool.Device.State.{Device, map_libusb_error}

-- `ch32mux_open_options_t`
pub record OpenOptions : Type 0 where
  pub vid : ℕ
  pub pid : ℕ
  pub interface_number : ℤ
  pub timeout_ms : ℕ
  pub detach_kernel_driver : Bool

unfoldable pub default_open_options : OpenOptions
default_open_options = record {
  vid = 0x1a86;
  pid = 0x2080;
  interface_number = pos 0;
  timeout_ms = 1000;
  detach_kernel_driver = true;
}

abbrev pub is_there : Option ℕ → Bool
is_there none = false
is_there (some p) = true

-- `calloc(1, sizeof(*device))`
abbrev pub blank : Device
blank = record {
  ctx = none;
  handle = none;
  interface_number = pos 0;
  claimed = false;
  detached_kernel_driver = false;
  timeout_ms = 0;
  next_seq = 0;
}

-- `*device_out` and the world after `ch32mux_open`.
pub record Opened (W : Type 0) : Type 0 where
  pub ret : Ret Done
  pub device : Option Device
  pub world : W

unfoldable pub options_or_default : Option OpenOptions → OpenOptions
unfolding default_open_options
options_or_default none = default_open_options
options_or_default (some options) = options

module _ (P : Platform) where
  -- `ch32mux_close`, for a device that is not NULL.
  pub close_device : Device → P.World → P.World
  close_device d w =
      let released =
        if is_there d.handle && d.claimed
        then (P.release_interface d.handle d.interface_number w).1
        else w in
      let attached =
        if is_there d.handle && d.detached_kernel_driver
        then (P.attach_kernel_driver d.handle d.interface_number released).1
        else released in
      let closed = if is_there d.handle then P.close d.handle attached else attached in
      let exited = if is_there d.ctx then P.exit d.ctx closed else closed in P.free exited

  unfoldable pub close : Option Device → P.World → P.World
  unfolding close_device
  close none w = w
  close (some d) w = close_device d w

  abbrev pub failed : Code → P.World → Opened P.World
  failed e w = record { ret = err e; device = none; world = w }

  -- From `libusb_claim_interface` on.
  pub claim : Device → P.World → Opened P.World
  unfolding close_device map_libusb_error
  claim d w =
      let (ret, w') = P.claim_interface d.handle d.interface_number w in
      if int_eq ret P.success
      then record { ret = ok tt; device = some (record d { claimed = true }); world = w' }
      else failed (map_libusb_error P ret) (close_device d w')

  -- `options->detach_kernel_driver && libusb_kernel_driver_active(...) == 1`; the second call is
  -- made only where the option is set.
  pub detach : OpenOptions → Device → P.World → Opened P.World
  unfolding claim
  detach options d w =
      if options.detach_kernel_driver
      then (let (active, w₁) = P.kernel_driver_active d.handle d.interface_number w in
          if int_eq active (pos 1)
          then (let (ret, w₂) = P.detach_kernel_driver d.handle d.interface_number w₁ in
              if int_eq ret P.success
              then claim (record d { detached_kernel_driver = true }) w₂
              else failed (map_libusb_error P ret) (close_device d w₂))
          else claim d w₁)
      else claim d w

  -- From `libusb_open_device_with_vid_pid` on.
  pub attach : OpenOptions → Device → P.World → Opened P.World
  unfolding detach
  attach options d w =
      let (handle, w') = P.open_device_with_vid_pid d.ctx options.vid options.pid w in
      if is_there handle
      then detach options
          (record d {
            handle = handle;
            interface_number = options.interface_number;
            timeout_ms = options.timeout_ms;
            next_seq = 1;
          })
          w'
      else failed err_not_found (close_device (record d { handle = handle }) w')

  -- From `libusb_init` on.
  pub initialise : OpenOptions → P.World → Opened P.World
  unfolding attach
  initialise options w =
      let i = P.init w in
      if int_eq i.status P.success
      then attach options (record blank { ctx = i.ctx }) i.world
      else failed (map_libusb_error P i.status) (P.free i.world)

  -- `ch32mux_open`; the options and the place for the device may be NULL.
  unfoldable pub open_device : Option OpenOptions → Dest → P.World → Opened P.World
  unfolding initialise
  open_device options null w = failed err_arg w
  open_device options there w =
      let (allocated, w') = P.calloc w in
      if allocated then initialise (options_or_default options) w' else failed err_no_mem w'
