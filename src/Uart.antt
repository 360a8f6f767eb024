-- ===== src/Uart.antt =====
-- userspace/src/uart.c: the SYS and UART calls.
pub mod Sys
pub mod Port
pub mod Stream
pub mod Steps
