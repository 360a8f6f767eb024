-- ===== src/Uart/Sys/Laws.antt =====
-- What the system queries report.
use usbmux_tool.Base.{
  ℕ, ◌/◌, ◌%◌, ◌^◌, ◌<◌, ◌≡◌, refl, arith, some, none, there, replicate, List, [], ◌∷◌,
}
use usbmux_tool.Proto.Words.{read_le32}
use usbmux_tool.Proto.Words.Laws.{read_le32_lem}
use usbmux_tool.Device.Platform.{Platform, BulkLaws}
use usbmux_tool.Device.State.{Device, State}
use usbmux_tool.Exchange.{transact}
use usbmux_tool.Exchange.Laws.{transact-Exchanged}
use usbmux_tool.Exchange.Query.{Reported, query-Reported}
use usbmux_tool.Uart.Sys.{DevInfo, Caps, dev_info_of, caps_of, sys_get_dev_info, sys_get_caps}

-- The eight bytes of the device information on the wire.
abbrev pub dev_info_bytes : DevInfo → List ℕ
dev_info_bytes x =
    x.proto_version ∷ x.fw_major ∷ x.fw_minor ∷ x.fw_patch ∷ x.uart_port_count ∷ x.ble_max_links
    ∷ x.reserved0 ∷ x.reserved1 ∷ []

dev_info_of-dev_info_bytes : (x : DevInfo) → dev_info_of (dev_info_bytes x) ≡ x
unfolding dev_info_of
dev_info_of-dev_info_bytes x = refl

-- The eight bytes of the capabilities on the wire, the bitmap with its low byte first.
abbrev pub caps_bytes : Caps → List ℕ
caps_bytes x =
    x.caps_bitmap % 256
    ∷ x.caps_bitmap / 2 ^ 8 % 256
    ∷ x.caps_bitmap / 2 ^ 16 % 256
    ∷ x.caps_bitmap / 2 ^ 24
    ∷ x.uart_port_count
    ∷ x.ble_max_links
    ∷ x.net_reserved
    ∷ x.reserved0
    ∷ []

caps_of-caps_bytes : (x : Caps) → x.caps_bitmap < 2 ^ 32 → caps_of (caps_bytes x) ≡ x
unfolding caps_of
caps_of-caps_bytes x h = rw bitmap refl
  where
    bitmap : read_le32 (caps_bytes x) 0 ≡ x.caps_bitmap
    bitmap = omega (
      arith,
      read_le32_lem (caps_bytes x) 0 (omega arith) (omega arith) (omega arith) (omega arith),
    )

module _ (P : Platform) (L : BulkLaws P) where
  pub sys_get_dev_info_answer :
      (s : State P.World) (d : Device)
      → s.device ≡ some d
      → let (r, s') = sys_get_dev_info P there s in Reported P L s d 0x00 0 0x01 8 dev_info_of r s'
  unfolding sys_get_dev_info
  sys_get_dev_info_answer s d opened =
      query-Reported P L s d 0x00 0 0x01 8 dev_info_of
        (transact P 0 0 0x01 0x01 none 0 (some (replicate 8 0)) 8 s) (omega arith)
        (transact-Exchanged P L s d 0x00 0 0x01 0x01 none 0 (some (replicate 8 0)) 8 opened tt
          (omega arith))

  -- The query for the device information on an open device, on a libusb that reports what it moved:
  -- no access is out of bounds and every loop ends; the sequence number moves on by one. What is
  -- reported is what `dev_info_of` reads in the eight payload bytes of a frame received by the
  -- call, which is a response with status 0 to this request, and in the bytes of an information on
  -- the wire, the eight fields in the order of `ch32mux_dev_info_t`, it reads that information.
  pub sys_get_dev_info-Reported :
      (s : State P.World) (d : Device) (x : DevInfo)
      → s.device ≡ some d
      → (let (r, s') = sys_get_dev_info P there s in
          Reported P L s d 0x00 0 0x01 8 dev_info_of r s')
        × (dev_info_of (dev_info_bytes x) ≡ x)
  sys_get_dev_info-Reported s d x opened =
      (sys_get_dev_info_answer s d opened, dev_info_of-dev_info_bytes x)

  pub sys_get_caps_answer :
      (s : State P.World) (d : Device)
      → s.device ≡ some d
      → let (r, s') = sys_get_caps P there s in Reported P L s d 0x00 0 0x02 8 caps_of r s'
  unfolding sys_get_caps
  sys_get_caps_answer s d opened =
      query-Reported P L s d 0x00 0 0x02 8 caps_of
        (transact P 0 0 0x01 0x02 none 0 (some (replicate 8 0)) 8 s) (omega arith)
        (transact-Exchanged P L s d 0x00 0 0x01 0x02 none 0 (some (replicate 8 0)) 8 opened tt
          (omega arith))

  -- The query for the capabilities on an open device, on a libusb that reports what it moved: no
  -- access is out of bounds and every loop ends; the sequence number moves on by one. What is
  -- reported is what `caps_of` reads in the eight payload bytes of a frame received by the call,
  -- which is a response with status 0 to this request, and in the bytes of capabilities on the wire,
  -- the 32-bit bitmap with its low byte first and then the four bytes, it reads those capabilities.
  pub sys_get_caps-Reported :
      (s : State P.World) (d : Device) (x : Caps)
      → s.device ≡ some d
      → x.caps_bitmap < 2 ^ 32
      → (let (r, s') = sys_get_caps P there s in Reported P L s d 0x00 0 0x02 8 caps_of r s')
        × (caps_of (caps_bytes x) ≡ x)
  sys_get_caps-Reported s d x opened wide =
      (sys_get_caps_answer s d opened, caps_of-caps_bytes x wide)
