-- ===== src/Uart/Port/Queries.antt =====
-- What `ch32mux_uart_get_port_cap` and `ch32mux_uart_get_stats` report.
use usbmux_tool.Base.{
  ℕ, ◌/◌, ◌%◌, ◌^◌, ◌<◌, ◌≡◌, refl, arith, some, none, there, replicate, List, [], ◌∷◌,
}
use usbmux_tool.Proto.Words.{read_le16, read_le32}
use usbmux_tool.Proto.Words.Laws.{read_le16_lem, read_le32_lem}
use usbmux_tool.Device.Platform.{Platform, BulkLaws}
use usbmux_tool.Device.State.{Device, State}
use usbmux_tool.Exchange.{transact}
use usbmux_tool.Exchange.Laws.{transact-Exchanged}
use usbmux_tool.Exchange.Query.{Reported, query-Reported}
use usbmux_tool.Uart.Port.{
  PortCap, UartStats, port_cap_of, uart_stats_of, uart_get_port_cap, uart_get_stats,
}

-- The twelve bytes of a port's capabilities on the wire, words with the low byte first.
abbrev pub port_cap_bytes : PortCap → List ℕ
port_cap_bytes x =
    x.logic_port
    ∷ x.phy_uart_id
    ∷ x.state
    ∷ x.reserved0
    ∷ x.rx_capacity % 256
    ∷ x.rx_capacity / 256
    ∷ x.tx_capacity % 256
    ∷ x.tx_capacity / 256
    ∷ x.supports_line_coding
    ∷ x.supports_flush
    ∷ x.reserved1
    ∷ x.reserved2
    ∷ []

port_cap_of-port_cap_bytes :
    (x : PortCap)
    → x.rx_capacity < 2 ^ 16
    → x.tx_capacity < 2 ^ 16
    → port_cap_of (port_cap_bytes x) ≡ x
unfolding port_cap_of
port_cap_of-port_cap_bytes x p q = rw (rx, tx) refl
  where
    rx : read_le16 (port_cap_bytes x) 4 ≡ x.rx_capacity
    rx = omega (arith, read_le16_lem (port_cap_bytes x) 4 (omega arith) (omega arith))

    tx : read_le16 (port_cap_bytes x) 6 ≡ x.tx_capacity
    tx = omega (arith, read_le16_lem (port_cap_bytes x) 6 (omega arith) (omega arith))

-- The four bytes of a counter.
abbrev counter : ℕ → List ℕ → List ℕ
counter n more = n % 256 ∷ n / 2 ^ 8 % 256 ∷ n / 2 ^ 16 % 256 ∷ n / 2 ^ 24 ∷ more

-- The twenty bytes of a port's statistics on the wire, counters with the low byte first.
abbrev pub uart_stats_bytes : UartStats → List ℕ
uart_stats_bytes x = counter x.rx_bytes (
    counter x.tx_bytes (
      counter x.drop_rx_bytes
        (counter x.drop_tx_bytes (x.state ∷ x.data_bits ∷ x.parity ∷ x.stop_bits ∷ []))))

uart_stats_of-uart_stats_bytes :
    (x : UartStats)
    → x.rx_bytes < 2 ^ 32
    → x.tx_bytes < 2 ^ 32
    → x.drop_rx_bytes < 2 ^ 32
    → x.drop_tx_bytes < 2 ^ 32
    → uart_stats_of (uart_stats_bytes x) ≡ x
unfolding uart_stats_of
uart_stats_of-uart_stats_bytes x p q p' q' = rw (rx, tx, drop_rx, drop_tx) refl
  where
    wire : List ℕ
    wire = uart_stats_bytes x

    rx : read_le32 (uart_stats_bytes x) 0 ≡ x.rx_bytes
    rx = omega (arith, read_le32_lem wire 0 (omega arith) (omega arith) (omega arith) (omega arith))

    tx : read_le32 (uart_stats_bytes x) 4 ≡ x.tx_bytes
    tx = omega (arith, read_le32_lem wire 4 (omega arith) (omega arith) (omega arith) (omega arith))

    drop_rx : read_le32 (uart_stats_bytes x) 8 ≡ x.drop_rx_bytes
    drop_rx =
        omega (arith, read_le32_lem wire 8 (omega arith) (omega arith) (omega arith) (omega arith))

    drop_tx : read_le32 (uart_stats_bytes x) 12 ≡ x.drop_tx_bytes
    drop_tx =
        omega (arith, read_le32_lem wire 12 (omega arith) (omega arith) (omega arith) (omega arith))

module _ (P : Platform) (L : BulkLaws P) where
  pub uart_get_port_cap_answer :
      (s : State P.World) (d : Device) (port : ℕ)
      → s.device ≡ some d
      → let (r, s') = uart_get_port_cap P port there s in
        Reported P L s d 0x01 port 0x01 12 port_cap_of r s'
  unfolding uart_get_port_cap
  uart_get_port_cap_answer s d port opened =
      query-Reported P L s d 0x01 port 0x01 12 port_cap_of
        (transact P 0x01 port 0x01 0x01 none 0 (some (replicate 12 0)) 12 s) (omega arith)
        (transact-Exchanged P L s d 0x01 port 0x01 0x01 none 0 (some (replicate 12 0)) 12 opened tt
          (omega arith))

  -- The query for the capabilities of a port on an open device, on a libusb that reports what it
  -- moved: no access is out of bounds and every loop ends; the sequence number moves on by one. What
  -- is reported is what `port_cap_of` reads in the 12 payload bytes of a frame received by the call,
  -- which is a response with status 0 to this request on this port's control channel, and in the
  -- bytes of a port's capabilities on the wire, with the two capacities as 16-bit words with their
  -- low byte first, it reads those capabilities.
  pub uart_get_port_cap-Reported :
      (s : State P.World) (d : Device) (port : ℕ) (x : PortCap)
      → s.device ≡ some d
      → x.rx_capacity < 2 ^ 16
      → x.tx_capacity < 2 ^ 16
      → (let (r, s') = uart_get_port_cap P port there s in
          Reported P L s d 0x01 port 0x01 12 port_cap_of r s')
        × (port_cap_of (port_cap_bytes x) ≡ x)
  uart_get_port_cap-Reported s d port x opened p q =
      (uart_get_port_cap_answer s d port opened, port_cap_of-port_cap_bytes x p q)

  pub uart_get_stats_answer :
      (s : State P.World) (d : Device) (port : ℕ)
      → s.device ≡ some d
      → let (r, s') = uart_get_stats P port there s in
        Reported P L s d 0x01 port 0x0c 20 uart_stats_of r s'
  unfolding uart_get_stats
  uart_get_stats_answer s d port opened =
      query-Reported P L s d 0x01 port 0x0c 20 uart_stats_of
        (transact P 0x01 port 0x01 0x0c none 0 (some (replicate 20 0)) 20 s) (omega arith)
        (transact-Exchanged P L s d 0x01 port 0x01 0x0c none 0 (some (replicate 20 0)) 20 opened tt
          (omega arith))

  -- The query for the statistics of a port on an open device, on a libusb that reports what it
  -- moved: no access is out of bounds and every loop ends; the sequence number moves on by one. What
  -- is reported is what `uart_stats_of` reads in the 20 payload bytes of a frame received by the
  -- call, which is a response with status 0 to this request on this port's control channel, and in
  -- the bytes of statistics on the wire, with the four counters as 32-bit words with their low byte
  -- first, it reads those statistics.
  pub uart_get_stats-Reported :
      (s : State P.World) (d : Device) (port : ℕ) (x : UartStats)
      → s.device ≡ some d
      → x.rx_bytes < 2 ^ 32
      → x.tx_bytes < 2 ^ 32
      → x.drop_rx_bytes < 2 ^ 32
      → x.drop_tx_bytes < 2 ^ 32
      → (let (r, s') = uart_get_stats P port there s in
          Reported P L s d 0x01 port 0x0c 20 uart_stats_of r s')
        × (uart_stats_of (uart_stats_bytes x) ≡ x)
  uart_get_stats-Reported s d port x opened p q p' q' =
      (uart_get_stats_answer s d port opened, uart_stats_of-uart_stats_bytes x p q p' q')
