-- ===== src/Uart/Port/Laws.antt =====
-- The request of `ch32mux_uart_open`.
use usbmux_tool.Base.{ℕ, ◌/◌, ◌%◌, ◌^◌, ◌<◌, ◌≡◌, refl, arith, Option, some, none, List, [], ◌∷◌}
use usbmux_tool.Bits.{bit_and-255}
use usbmux_tool.Proto.Words.{write_le32}
use usbmux_tool.Device.Platform.{Platform, BulkLaws}
use usbmux_tool.Device.State.{Device, State}
use usbmux_tool.Exchange.Laws.{Exchanged, transact-Exchanged}
use usbmux_tool.Uart.Port.{LineCoding, line_or_default, open_payload, uart_open}

-- The eight bytes of a line coding, the rate with the low byte first.
abbrev pub line_bytes : LineCoding → List ℕ
line_bytes line =
    line.baudrate % 256
    ∷ line.baudrate / 2 ^ 8 % 256
    ∷ line.baudrate / 2 ^ 16 % 256
    ∷ line.baudrate / 2 ^ 24
    ∷ line.data_bits
    ∷ line.parity
    ∷ line.stop_bits
    ∷ 0
    ∷ []

open_payload_lem :
    (line : LineCoding) → line.baudrate < 2 ^ 32 → open_payload line ≡ line_bytes line
unfolding open_payload write_le32
open_payload_lem line h =
    rw
      (
        bit_and-255 line.baudrate,
        bit_and-255 (line.baudrate / 2 ^ 8),
        bit_and-255 (line.baudrate / 2 ^ 16),
        bit_and-255 (line.baudrate / 2 ^ 24),
        byte line.baudrate,
        byte (line.baudrate / 2 ^ 8),
        byte (line.baudrate / 2 ^ 16),
        byte (line.baudrate / 2 ^ 24),
        top,
      )
      refl
  where
    byte : (n : ℕ) → n % 256 % 2 ^ 8 ≡ n % 256
    byte n = omega arith

    top : line.baudrate / 2 ^ 24 % 256 ≡ line.baudrate / 2 ^ 24
    top = omega arith

module _ (P : Platform) (L : BulkLaws P) where
  -- On an open device and a libusb that reports what it moved, with a rate that is a `uint32_t`:
  -- opening a port is an exchange whose request is the frame of the eight bytes of the line coding,
  -- 115200 8N1 if the caller gives none, with opcode 3 on this port's control channel; the wire
  -- takes a first part of that frame and nothing else, all of it on success, and success means an
  -- empty response to this request with status 0.
  pub uart_open-Exchanged :
      (s : State P.World) (d : Device) (port : ℕ) (line : Option LineCoding)
      → s.device ≡ some d
      → (line_or_default line).baudrate < 2 ^ 32
      → let (r, s') = uart_open P port line s in
        Exchanged P L s d 0x01 port 0x01 0x03
          (some (line_bytes (line_or_default line)))
          8
          none
          0
          r
          s'
  unfolding uart_open
  uart_open-Exchanged s d port line opened h = rw (open_payload_lem (line_or_default line) h) (
      transact-Exchanged P L s d 0x01 port 0x01 0x03 (some (line_bytes (line_or_default line))) 8
        none 0 opened (omega arith) tt)
