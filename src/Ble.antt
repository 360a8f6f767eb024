-- ===== src/Ble.antt =====
-- userspace/src/ble.c: the BLE management calls and events.
pub mod Scan
pub mod Manage
pub mod Event
pub mod Steps
