-- ===== src/Examples.antt =====
-- Concrete inputs, and what the theorems say of them.
pub mod Blank
pub mod Runs
pub mod Draws
pub mod Shaders
pub mod Inputs
pub mod Depths
pub mod Presents
pub mod Clocks
pub mod Copies
pub mod Logs
pub mod Memories
pub mod Tevs
