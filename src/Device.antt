-- ===== src/Device.antt =====
-- userspace/src/device.c: the USB transport over libusb.
pub mod Platform
pub mod State
pub mod Write
pub mod Read
pub mod Hint
pub mod Lifecycle
pub mod Seq
pub mod Along
