-- ===== src/Uart/Sys.antt =====
-- `ch32mux_sys_get_dev_info`, `ch32mux_sys_get_caps` and `ch32mux_sys_heartbeat`.
pub mod Laws
use usbmux_tool.Base.{
  ℕ, Option, none, some, List, replicate, byte_at, err, err_arg, Dest, null, there,
}
use usbmux_tool.Proto.Words.{read_le32}
use usbmux_tool.Proto.Constants.{
  ch_sys, msg_cmd, sys_get_dev_info_op, sys_get_caps_op, sys_heartbeat_op,
}
use usbmux_tool.Device.Platform.{Platform}
use usbmux_tool.Device.State.{Call, lift, ◌>>=◌}
use usbmux_tool.Exchange.{transact}
use usbmux_tool.Exchange.Accept.{Response, fields_of}

-- `ch32mux_dev_info_t`
pub record DevInfo : Type 0 where
  pub proto_version : ℕ
  pub fw_major : ℕ
  pub fw_minor : ℕ
  pub fw_patch : ℕ
  pub uart_port_count : ℕ
  pub ble_max_links : ℕ
  pub reserved0 : ℕ
  pub reserved1 : ℕ

-- `memcpy(info, payload, sizeof(*info))`: the structure is eight bytes in this order.
pub dev_info_of : List ℕ → DevInfo
dev_info_of payload = record {
  proto_version = byte_at payload 0;
  fw_major = byte_at payload 1;
  fw_minor = byte_at payload 2;
  fw_patch = byte_at payload 3;
  uart_port_count = byte_at payload 4;
  ble_max_links = byte_at payload 5;
  reserved0 = byte_at payload 6;
  reserved1 = byte_at payload 7;
}

-- `ch32mux_caps_t`
pub record Caps : Type 0 where
  pub caps_bitmap : ℕ
  pub uart_port_count : ℕ
  pub ble_max_links : ℕ
  pub net_reserved : ℕ
  pub reserved0 : ℕ

pub caps_of : List ℕ → Caps
caps_of payload = record {
  caps_bitmap = read_le32 payload 0;
  uart_port_count = byte_at payload 4;
  ble_max_links = byte_at payload 5;
  net_reserved = byte_at payload 6;
  reserved0 = byte_at payload 7;
}

module _ (P : Platform) where
  unfoldable pub sys_get_dev_info : Dest → Call P.World DevInfo
  unfolding dev_info_of
  sys_get_dev_info null s = (err err_arg, s)
  sys_get_dev_info there s =
      (do
        r ← transact P ch_sys 0 msg_cmd sys_get_dev_info_op none 0 (some (replicate 8 0)) 8
        lift (fields_of 8 dev_info_of r))
        s

  unfoldable pub sys_get_caps : Dest → Call P.World Caps
  unfolding caps_of
  sys_get_caps null s = (err err_arg, s)
  sys_get_caps there s =
      (do
        r ← transact P ch_sys 0 msg_cmd sys_get_caps_op none 0 (some (replicate 8 0)) 8
        lift (fields_of 8 caps_of r))
        s

  unfoldable pub sys_heartbeat : Option (List ℕ) → ℕ → Option (List ℕ) → ℕ → Call P.World Response
  sys_heartbeat payload payload_len response response_capacity =
      transact P ch_sys 0 msg_cmd sys_heartbeat_op payload payload_len response response_capacity
