-- ===== src/Proto/Constants.antt =====
-- The channels, message types and opcodes of userspace/include/ch32v208_mux/proto.h that the
-- driver uses.
use usbmux_tool.Base.{ℕ}

-- ch32mux_channel_type_t
abbrev pub ch_sys : ℕ
ch_sys = 0x00

abbrev pub ch_uart_ctrl : ℕ
ch_uart_ctrl = 0x01

abbrev pub ch_uart_data : ℕ
ch_uart_data = 0x02

abbrev pub ch_ble_mgmt : ℕ
ch_ble_mgmt = 0x10

-- ch32mux_msg_type_t
abbrev pub msg_cmd : ℕ
msg_cmd = 0x01

abbrev pub msg_rsp : ℕ
msg_rsp = 0x02

abbrev pub msg_evt : ℕ
msg_evt = 0x03

abbrev pub msg_data : ℕ
msg_data = 0x04

-- ch32mux_sys_opcode_t
abbrev pub sys_get_dev_info_op : ℕ
sys_get_dev_info_op = 0x01

abbrev pub sys_get_caps_op : ℕ
sys_get_caps_op = 0x02

abbrev pub sys_heartbeat_op : ℕ
sys_heartbeat_op = 0x07

-- ch32mux_uart_opcode_t
abbrev pub uart_get_port_cap_op : ℕ
uart_get_port_cap_op = 0x01

abbrev pub uart_open_op : ℕ
uart_open_op = 0x03

abbrev pub uart_close_op : ℕ
uart_close_op = 0x04

abbrev pub uart_get_stats_op : ℕ
uart_get_stats_op = 0x0c

-- ch32mux_ble_opcode_t
abbrev pub ble_get_cap_op : ℕ
ble_get_cap_op = 0x01

abbrev pub ble_set_scan_param_op : ℕ
ble_set_scan_param_op = 0x02

abbrev pub ble_scan_start_op : ℕ
ble_scan_start_op = 0x03

abbrev pub ble_scan_stop_op : ℕ
ble_scan_stop_op = 0x04

abbrev pub ble_evt_scan_rsp_op : ℕ
ble_evt_scan_rsp_op = 0x80
