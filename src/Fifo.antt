-- ===== src/Fifo.antt =====
-- `process` and `handle_aurora` of lib/gx/register_dispatch.cpp.
pub mod Commands
pub mod Aurora
pub mod Process
pub mod Total
