-- ===== src/Proto.antt =====
-- userspace/src/proto.c and userspace/include/ch32v208_mux/proto.h
pub mod Words
pub mod Constants
pub mod Header
pub mod Crc
pub mod Codec
pub mod Hint
pub mod Names
