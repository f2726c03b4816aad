-- ===== src/State.antt =====
-- lib/gx/register_state.hpp: `GXRegisterState`, its members in groups, with the file statics of the
-- decoder (`epoch`, the CP caches) and the calls that it makes into the renderer.
pub mod Vec
pub mod Tev
pub mod Pixel
pub mod Copy
pub mod Vertex
pub mod Transform
pub mod Texture
pub mod Cache
pub mod Machine
pub mod XfMap
