-- ===== src/Examples.antt =====
-- Concrete runs: a platform to run the driver on, and the theorems at concrete inputs.
pub mod Bench
pub mod Codec
pub mod Transport
pub mod Clients
pub mod Board
pub mod Cli
