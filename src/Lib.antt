-- ===== src/Lib.antt =====
-- Verification of the host driver of the CH32V208 USB multiplexer: the library under userspace/src/
-- with its headers in userspace/include/ch32v208_mux/.
--
-- The driver speaks a framed protocol over USB bulk endpoints. userspace/src/proto.c encodes and
-- decodes frames of a 24-byte header, with a CRC, and up to 488 bytes of payload.
-- userspace/src/device.c opens and closes a device through libusb, writes frames and reads them in
-- transfers of up to 64 bytes. userspace/src/uart.c and userspace/src/ble.c build requests, wait
-- for the answer and check that it is the one they asked for, and read what the device sends of its
-- own accord. The tool userspace/tools/ch32v208-mux-cli.c opens a device, runs one command on it
-- with the calls of these files, and closes it.
--
-- Files:
--   Base: numbers, lists, the signed `int`, and `Ret`, the result of a C function: `ok`, `err` with
--     a code of `ch32mux_result_t`, or `fault` for an access outside a buffer.
--   Bits: bitwise operations on bytes and 16-bit words.
--   Proto: userspace/src/proto.c. Proto/Header has `ch32mux_header_t` and `check_header_shape`,
--     Proto/Crc `ch32mux_crc16`, Proto/Codec `ch32mux_encode_header`,
--     `ch32mux_decode_header` and `ch32mux_build_frame`, Proto/Hint `ch32mux_parse_irq_hint`,
--     Proto/Words the little-endian accessors, Proto/Names `ch32mux_result_name` and
--     `ch32mux_device_status_name`.
--   Device: userspace/src/device.c. Device/Platform is the interface of libusb and of the
--     allocator, which are parameters; Device/State has `struct ch32mux_device` and
--     `ch32mux_next_seq`; Device/Write, Device/Read, Device/Hint and Device/Lifecycle have the
--     calls. Device/Lifecycle/Ledger says which order of libusb calls is sound, and with which
--     pointers and numbers. Device/Along and the files called Steps say what a call on an open
--     device may change.
--   Exchange: the static `transact` of userspace/src/uart.c. Exchange/Delivery is about sending the
--     request, Exchange/Arrival about reading a frame, Exchange/Answer about the checks on it,
--     Exchange/Query about commands that read fields out of the answer.
--   Uart: the public calls of userspace/src/uart.c.
--   Ble: userspace/src/ble.c. Its own static `transact` is in Ble/Manage and Ble/Manage/Reply.
--   Cli: userspace/tools/ch32v208-mux-cli.c. Cli/Text is what the tool uses of the C library on
--     texts, Cli/Port `parse_port`, Cli/Console the output functions and `dump_hex`, Cli/Ending how
--     a command ends. Cli/Commands, Cli/Loopback, Cli/Scan and Cli/Debug are the commands, and
--     Cli itself is the choice of a command and `main`. Cli/Balance and Cli/Defined are about
--     whole runs.
--   Examples: a platform to run the driver on, tests, and the theorems at concrete inputs.
--
-- A call takes a state, the device structure and the world outside, and returns its result and the
-- state that it leaves, on errors too. A buffer is the list of its bytes; the length that a caller
-- claims for it is an argument of its own, and a NULL pointer is `none`. Integers keep their width:
-- `% 2 ^ 16` where the source casts to `uint16_t`, `% 2 ^ 64` for `size_t`, and the conversions
-- between `size_t` and `int` are written out.
--
-- The loops of `ch32mux_write_frame` and `ch32mux_read_frame` run on fuel: one more than the bytes
-- that may still be moved. That is enough, since a round that moves no byte ends the loop; out of
-- fuel is a `fault`, and the theorems on the calls exclude it. What libusb documents of a bulk
-- transfer (it reports the bytes that it moved, at most as many as it was asked to) is the record
-- `BulkLaws`. The record `Traced` is a trace of the calls of libusb and the allocator with their
-- arguments: one that takes is in it if it succeeded, and one that gives back when it is made, since
-- the driver does not look at what it answers. A device that takes what it is sent is the record
-- `Takes`, one that has a frame to give the record `Gives`, and a clock that goes the record
-- `Ticking`.
--
-- A run of the tool has an exit code, or does what C leaves undefined, or is still in a loop when
-- the fuel is used up; what it prints is the list of its calls of the output functions with their
-- arguments. The loop of `cmd_uart_loopback` has one more unit of fuel than the payload has bytes,
-- which is enough since each round reads a byte or ends it. The loop of `cmd_ble_scan` ends by
-- the clock, which is a parameter (Cli/Scan), and its fuel is an argument of `main`.
--
-- `strtoul` is written out for a 64-bit `unsigned long` in the C locale, with base 0.
--
-- Not modelled: the formatting of what is printed, the tests in userspace/tests/, libusb and the
-- C library's clock, which are parameters, and threads: the driver has none, and its
-- calls are made one after the other.
pub mod Base
pub mod Bits
pub mod Proto
pub mod Device
pub mod Exchange
pub mod Uart
pub mod Ble
pub mod Examples
pub mod Cli
