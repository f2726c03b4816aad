-- ===== src/Bp/Decoded.antt =====
-- The decoded state and the register file.
pub mod Pixel
pub mod Fog
