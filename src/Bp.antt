-- ===== src/Bp.antt =====
-- `handle_bp` of lib/gx/register_decoder.cpp. Each case of its switch is a function of a child.
pub mod Field
pub mod Tev
pub mod Indirect
pub mod Colors
pub mod Pixel
pub mod Fog
pub mod Copy
pub mod Scissor
pub mod Texture
pub mod Switch
pub mod Handle
pub mod Frame
pub mod Ranges
pub mod Decoded
pub mod Masked
pub mod Keeps
pub mod Flags
pub mod Generation
pub mod Extents
pub mod Encoded
pub mod Scale
