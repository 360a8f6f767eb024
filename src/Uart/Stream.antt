-- ===== src/Uart/Stream.antt =====
-- `ch32mux_uart_write` and `ch32mux_uart_read`.
pub mod Laws
use usbmux_tool.Base.{
  ℕ, ◌+◌, Bool, true, false, ◌&&◌, ◌||◌, Option, none, some, List, length, take, drop, splice, Ret,
  Done, ok, err, err_arg, err_proto, err_overflow, fail_if, in_bounds, ◌>>=◌, ◌>>◌, Dest, null,
  there, ltb, leb, ◌!=◌, if◌then◌else◌,
}
use usbmux_tool.Proto.Header.{Header, header_size}
use usbmux_tool.Proto.Constants.{ch_uart_data, msg_data}
use usbmux_tool.Proto.Codec.{decode_header, is_null}
use usbmux_tool.Device.Platform.{Platform}
use usbmux_tool.Device.State.{Device, State, Call, continue, next_seq}
use usbmux_tool.Exchange.{read_local, send_frame, request}
use usbmux_tool.Exchange.Accept.{LocalFrame}

-- The caller's buffer and `*len` after a successful `ch32mux_uart_read`.
pub record Taken : Type 0 where
  pub bytes : List ℕ
  pub len : ℕ

-- The tests on the frame that was read, and the copy of its payload.
unfoldable pub take_data : LocalFrame → ℕ → List ℕ → ℕ → Ret Taken
take_data frame port dst capacity = do
  h ← decode_header (some frame.bytes) frame.frame_len there
  fail_if (h.ch_type != ch_uart_data || h.ch_id != port || h.msg_type != msg_data) err_proto
  fail_if (ltb capacity h.payload_len) err_overflow
  in_bounds
      (leb h.payload_len (length dst) && leb (header_size + h.payload_len) (length frame.bytes))
  ok (record {
    bytes = splice dst 0 (take h.payload_len (drop header_size frame.bytes));
    len = h.payload_len;
  })

module _ (P : Platform) where
  unfoldable pub uart_write_on : Option Device → ℕ → Option (List ℕ) → ℕ → Call P.World Done
  uart_write_on none port bytes len s = (err err_arg, s)
  uart_write_on (some d) port bytes len s =
      if is_null bytes && len != 0
      then (err err_arg, s)
      else let (seq, s') = next_seq s in
        send_frame P (request P seq ch_uart_data port msg_data 0) bytes len s'

  unfoldable pub uart_write : ℕ → Option (List ℕ) → ℕ → Call P.World Done
  unfolding uart_write_on
  uart_write port bytes len s = uart_write_on s.device port bytes len s

  unfoldable pub uart_read_on : Option Device → ℕ → Option (List ℕ) → ℕ → Dest → Call P.World Taken
  uart_read_on (some d) port (some dst) capacity there s =
      continue (read_local P s).0 (λ frame s'. (take_data frame port dst capacity, s'))
        (read_local P s).1
  uart_read_on device port dst capacity len s = (err err_arg, s)

  unfoldable pub uart_read : ℕ → Option (List ℕ) → ℕ → Dest → Call P.World Taken
  unfolding uart_read_on
  uart_read port dst capacity len s = uart_read_on s.device port dst capacity len s
