-- ===== src/Geometry.antt =====
-- Vertex layouts, snapshots and indices of draws: ps5/gpu/gx_geometry.cpp.
pub mod Indices
pub mod Bounds
pub mod Merged
pub mod Commands
pub mod Layout
pub mod Snapshot
pub mod Decode
pub mod Shifted
