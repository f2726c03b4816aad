-- ===== src/Xf.antt =====
-- `handle_xf` and `copy_xf_data` of lib/gx/register_decoder.cpp.
pub mod Memory
pub mod Registers
pub mod Handle
pub mod Total
