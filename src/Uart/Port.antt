-- ===== src/Uart/Port.antt =====
-- `ch32mux_uart_get_port_cap`, `ch32mux_uart_open`, `ch32mux_uart_close` and
-- `ch32mux_uart_get_stats`.
pub mod Laws
pub mod Queries
use usbmux_tool.Base.{
  ℕ, Option, none, some, List, replicate, set, byte_at, err, err_arg, Dest, null, there,
}
use usbmux_tool.Proto.Words.{read_le16, read_le32, write_le32}
use usbmux_tool.Proto.Constants.{
  ch_uart_ctrl, msg_cmd, uart_get_port_cap_op, uart_open_op, uart_close_op, uart_get_stats_op,
}
use usbmux_tool.Device.Platform.{Platform}
use usbmux_tool.Device.State.{Call, lift, ◌>>=◌}
use usbmux_tool.Exchange.{transact}
use usbmux_tool.Exchange.Accept.{Response, fields_of}

-- `ch32mux_uart_line_coding_t`
pub record LineCoding : Type 0 where
  pub baudrate : ℕ
  pub data_bits : ℕ
  pub parity : ℕ
  pub stop_bits : ℕ

-- `ch32mux_uart_port_cap_t`
pub record PortCap : Type 0 where
  pub logic_port : ℕ
  pub phy_uart_id : ℕ
  pub state : ℕ
  pub reserved0 : ℕ
  pub rx_capacity : ℕ
  pub tx_capacity : ℕ
  pub supports_line_coding : ℕ
  pub supports_flush : ℕ
  pub reserved1 : ℕ
  pub reserved2 : ℕ

pub port_cap_of : List ℕ → PortCap
port_cap_of payload = record {
  logic_port = byte_at payload 0;
  phy_uart_id = byte_at payload 1;
  state = byte_at payload 2;
  reserved0 = byte_at payload 3;
  rx_capacity = read_le16 payload 4;
  tx_capacity = read_le16 payload 6;
  supports_line_coding = byte_at payload 8;
  supports_flush = byte_at payload 9;
  reserved1 = byte_at payload 10;
  reserved2 = byte_at payload 11;
}

-- `ch32mux_uart_stats_t`
pub record UartStats : Type 0 where
  pub rx_bytes : ℕ
  pub tx_bytes : ℕ
  pub drop_rx_bytes : ℕ
  pub drop_tx_bytes : ℕ
  pub state : ℕ
  pub data_bits : ℕ
  pub parity : ℕ
  pub stop_bits : ℕ

pub uart_stats_of : List ℕ → UartStats
uart_stats_of payload = record {
  rx_bytes = read_le32 payload 0;
  tx_bytes = read_le32 payload 4;
  drop_rx_bytes = read_le32 payload 8;
  drop_tx_bytes = read_le32 payload 12;
  state = byte_at payload 16;
  data_bits = byte_at payload 17;
  parity = byte_at payload 18;
  stop_bits = byte_at payload 19;
}

abbrev pub default_line : LineCoding
default_line = record { baudrate = 115200; data_bits = 8; parity = 0; stop_bits = 1 }

abbrev pub line_or_default : Option LineCoding → LineCoding
line_or_default none = default_line
line_or_default (some line) = line

-- The payload of UART_OPEN.
unfoldable pub open_payload : LineCoding → List ℕ
open_payload line =
    let with_baudrate = write_le32 (replicate 8 0) 0 line.baudrate in
    let with_data_bits = set with_baudrate 4 line.data_bits in
    let with_parity = set with_data_bits 5 line.parity in
    let with_stop_bits = set with_parity 6 line.stop_bits in set with_stop_bits 7 0

module _ (P : Platform) where
  unfoldable pub uart_get_port_cap : ℕ → Dest → Call P.World PortCap
  unfolding port_cap_of
  uart_get_port_cap port null s = (err err_arg, s)
  uart_get_port_cap port there s =
      (do
        r ←
            transact P ch_uart_ctrl port msg_cmd uart_get_port_cap_op none 0 (some (replicate 12 0))
              12
        lift (fields_of 12 port_cap_of r))
        s

  unfoldable pub uart_open : ℕ → Option LineCoding → Call P.World Response
  unfolding open_payload
  uart_open port line =
      transact P ch_uart_ctrl port msg_cmd uart_open_op (some (open_payload (line_or_default line)))
        8 none 0

  unfoldable pub uart_close : ℕ → Call P.World Response
  uart_close port = transact P ch_uart_ctrl port msg_cmd uart_close_op none 0 none 0

  unfoldable pub uart_get_stats : ℕ → Dest → Call P.World UartStats
  unfolding uart_stats_of
  uart_get_stats port null s = (err err_arg, s)
  uart_get_stats port there s =
      (do
        r ← transact P ch_uart_ctrl port msg_cmd uart_get_stats_op none 0 (some (replicate 20 0)) 20
        lift (fields_of 20 uart_stats_of r))
        s
