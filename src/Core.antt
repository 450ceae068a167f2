-- ===== src/Core.antt =====
-- The state of src/core.c and the parts that work on it.
pub mod State
pub mod Transmit
pub mod Tags
pub mod Types
pub mod Reassembly
pub mod Control
pub mod Receive
pub mod Setup
pub mod Safety
pub mod Blocks
pub mod Exchange
pub mod Examples
mod Tests
