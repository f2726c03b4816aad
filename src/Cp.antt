-- ===== src/Cp.antt =====
-- `handle_cp` of lib/gx/register_decoder.cpp.
pub mod Cache
pub mod Vertex
pub mod Handle
pub mod Agrees
pub mod Repeat
