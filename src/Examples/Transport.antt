-- ===== src/Examples/Transport.antt =====
-- The device's and the exchange's theorems on the bench.
use usbmux_tool.Base.{
  ok, ℕ, ◌^◌, ◌≤◌, ◌<◌, ◌≡◌, ◌≢◌, refl, arith, List, [], ◌∷◌, some, there, replicate, pos, true,
}
use usbmux_tool.Proto.Header.{zero_header}
use usbmux_tool.Proto.Codec.Wire.{frame_of}
use usbmux_tool.Device.State.{Device, State, bump, next_seq}
use usbmux_tool.Device.Write.{write_frame}
use usbmux_tool.Device.Write.Laws.{Sent, write_frame-Sent}
use usbmux_tool.Device.Write.Progress.{write_frame-ok}
use usbmux_tool.Device.Read.{ReadOut, read_frame}
use usbmux_tool.Device.Read.Laws.{Got, read_frame-Got}
use usbmux_tool.Device.Read.Progress.{read_frame-ok}
use usbmux_tool.Proto.Codec.RoundTrip.{header_crc}
use usbmux_tool.Examples.Codec.{wire, wire_decodes, sent_header}
use usbmux_tool.Base.{length, take}
use usbmux_tool.Device.Lifecycle.{OpenOptions, options_or_default, open_device, close}
use usbmux_tool.Device.Lifecycle.Ledger.{Moves, nothing}
use usbmux_tool.Device.Lifecycle.Claiming.{Settled}
use usbmux_tool.Device.Lifecycle.Balance.{open_device-Settled, close-open_device}
use usbmux_tool.Device.Seq.{calls_later, next_seq_closed, next_seq_distinct}
use usbmux_tool.Exchange.Delivery.{asking, Delivered}
use usbmux_tool.Uart.Stream.{uart_read, uart_write}
use usbmux_tool.Uart.Stream.Laws.{DataRead, uart_read-DataRead, uart_write-Delivered}
use usbmux_tool.Examples.Bench.{World, bench, bench_laws, bench_trace, bench_takes, bench_gives}

abbrev pub opened_device : Device
opened_device = record {
  ctx = some 1;
  handle = some 2;
  interface_number = pos 0;
  claimed = true;
  detached_kernel_driver = true;
  timeout_ms = 1000;
  next_seq = 65535;
}

-- The answer to the request number 65535 for the device's capabilities, in 14 bytes.
abbrev reply : List ℕ
reply =
    frame_of (record zero_header { seq = 9; ref_seq = 65535; msg_type = 2; opcode = 2 })
      (some (1 ∷ 0 ∷ 0 ∷ 2 ∷ 3 ∷ 0 ∷ 0 ∷ 0 ∷ 4 ∷ 0 ∷ 0 ∷ 0 ∷ 2 ∷ 1 ∷ [])) 14

-- A frame of data from port 1.
abbrev data_frame : List ℕ
data_frame =
    frame_of (record zero_header { seq = 10; ch_type = 2; ch_id = 1; msg_type = 4 })
      (some (72 ∷ 105 ∷ [])) 2

abbrev pub waiting : List ℕ → State World
waiting inbox = record {
  device = some opened_device;
  world = record { inbox = inbox; delivered = []; received = []; calls = [] };
}

abbrev fresh : World
fresh = record { inbox = []; delivered = []; received = []; calls = [] }

abbrev two_hundred : List ℕ
two_hundred = replicate 200 0xab

write_frame-Sent_example :
    let (r, s') = write_frame bench (some two_hundred) 200 (waiting []) in
    Sent bench bench_laws [] [] two_hundred 200 r s'.world × (s'.device ≡ some opened_device)
write_frame-Sent_example =
    write_frame-Sent bench bench_laws (waiting []) opened_device two_hundred 200 refl (omega arith)
      (omega arith) (omega arith)

write_frame-ok_example : (write_frame bench (some two_hundred) 200 (waiting [])).0 ≡ ok tt
write_frame-ok_example =
    write_frame-ok bench bench_laws bench_takes (waiting []) opened_device two_hundred 200 refl
      (omega arith) (omega arith) (omega arith)

read_frame-Got_example :
    (out : ReadOut World) × (read_frame bench (some two_hundred) 200 (some 0) (waiting reply)
      ≡ record {
        ret = out.ret;
        frame = some out.frame;
        frame_len = some out.frame_len;
        state = record (waiting reply) { world = out.world };
      })
    × Got bench bench_laws [] [] two_hundred 200 out
read_frame-Got_example =
    read_frame-Got bench bench_laws (waiting reply) opened_device two_hundred 200 0 refl
      (omega arith) (omega arith) (omega arith)

read_frame-ok_example :
    (front : List ℕ) × (w : World) × (read_frame bench
        (some two_hundred)
        200
        (some 0)
        (waiting wire)
      ≡ record {
        ret = ok tt;
        frame = some front;
        frame_len = some (length wire);
        state = record (waiting wire) { world = w };
      })
    × (take (length wire) front ≡ wire)
    × (w.inbox ≡ [])
read_frame-ok_example =
    read_frame-ok bench bench_laws bench_gives (waiting wire) opened_device two_hundred wire 200 0
      (record sent_header { header_crc16 = header_crc sent_header }) refl (omega arith)
      (omega arith) (omega arith) (omega arith) wire_decodes refl refl

uart_read-DataRead_example :
    let (r, s') = uart_read bench 1 (some (replicate 8 0)) 8 there (waiting data_frame) in
    DataRead bench bench_laws (waiting data_frame) 1 (replicate 8 0) 8 r s'
uart_read-DataRead_example =
    uart_read-DataRead bench bench_laws (waiting data_frame) opened_device 1 (replicate 8 0) 8 refl
      (omega arith)

uart_write-Delivered_example :
    let (r, s') = uart_write bench 1 (some (72 ∷ 105 ∷ [])) 2 (waiting []) in
    Delivered bench bench_laws
      (record (waiting []) { device = some (bump opened_device) })
      (asking 65535 0x02 1 0x04 0)
      (some (72 ∷ 105 ∷ []))
      2
      r
      s'
uart_write-Delivered_example =
    uart_write-Delivered bench bench_laws (waiting []) opened_device 1 (some (72 ∷ 105 ∷ [])) 2 refl
      (omega arith) refl

-- The third interface, and half a second.
abbrev third : OpenOptions
third = record {
  vid = 0x1a86;
  pid = 0x2080;
  interface_number = pos 3;
  timeout_ms = 500;
  detach_kernel_driver = true;
}

open_device-Settled_example :
    Settled bench bench_trace
      (options_or_default (some third))
      fresh
      nothing
      (open_device bench (some third) there fresh)
open_device-Settled_example = open_device-Settled bench bench_trace (some third) there fresh

close-open_device_example :
    let o = open_device bench (some third) there fresh in
    Moves bench bench_trace fresh (close bench o.device o.world) nothing nothing
close-open_device_example = close-open_device bench bench_trace (some third) there fresh

-- The call after two others, which return 65535 and 1.
next_seq_closed_example :
    ((next_seq (calls_later 2 (waiting []))).0 ≡ 2)
    × (1 ≤ (next_seq (calls_later 2 (waiting []))).0)
    × ((next_seq (calls_later 2 (waiting []))).0 < 2 ^ 16)
next_seq_closed_example =
    next_seq_closed 2 (waiting []) opened_device refl (omega arith) (omega arith)

next_seq_distinct_example :
    (next_seq (calls_later 0 (waiting []))).0 ≢ (next_seq (calls_later 2 (waiting []))).0
next_seq_distinct_example =
    next_seq_distinct 0 2 (waiting []) opened_device refl (omega arith) (omega arith) (omega arith)
      (omega arith)
