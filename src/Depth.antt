-- ===== src/Depth.antt =====
-- ps5/gpu/depth_layout.cpp and ps5/gpu/gx_depth_offset.h: the tiled layout of the depth target.
pub mod Words
pub mod Blocks
pub mod Bounds
use mkwii_ps.Base.{ℕ, ◌+◌, ◌*◌, ◌/◌, ◌%◌, ◌^◌, ◌||◌, ltb, leb, ◌==◌, if◌then◌else◌, bit_and}
use mkwii_ps.Base.Outcome.{Outcome, Exception, ok, throws}
use Prim.Native.Nat.{bit_xor}

-- `x << k` and a mask, of words of 32 bits.
unfoldable pub shifted_mask : ℕ → ℕ → ℕ → ℕ
shifted_mask x k mask = bit_and (x * 2 ^ k % 2 ^ 32) mask

-- `inBlock` of `mkw_depth_pixel_offset`.
unfoldable pub in_block : ℕ → ℕ → ℕ
in_block x y =
    let y1 = bit_xor (shifted_mask y 3 0x8) (shifted_mask y 4 0x20) in
    let y2 = bit_xor (bit_xor y1 (shifted_mask y 5 0xF80)) (shifted_mask y 9 0x1000) in
    let y3 = bit_xor y2 (shifted_mask y 8 0x4000) in
    let x1 = bit_xor (bit_xor y3 (shifted_mask x 2 0x4)) (shifted_mask x 3 0x10) in
    let x2 = bit_xor (bit_xor x1 (shifted_mask x 4 0x440)) (shifted_mask x 5 0x300) in
    bit_xor (bit_xor x2 (shifted_mask x 6 0x800)) (shifted_mask x 9 0xA000)

unfoldable pub mkw_depth_pixel_offset : ℕ → ℕ → ℕ → ℕ
mkw_depth_pixel_offset x y blocks_per_row =
    let block = (y / 2 ^ 7 * blocks_per_row + x / 2 ^ 7) % 2 ^ 32 in
    (block * 2 ^ 16 % 2 ^ 32 + in_block x y) % 2 ^ 32

pub record DepthLayout : Type 0 where
  pub width : ℕ
  pub height : ℕ
  pub padded_width : ℕ
  pub bytes : ℕ

-- `(n + 127) & ~127u`.
unfoldable pub aligned : ℕ → ℕ
aligned n = bit_and ((n + 127) % 2 ^ 32) 0xFFFFFF80

-- The constructor.
unfoldable pub depth_layout : ℕ → ℕ → Outcome DepthLayout
depth_layout w h =
    if w == 0 || h == 0 || ltb 16384 w || ltb 16384 h
    then throws Exception.invalid_argument
    else ok (record {
      width = w;
      height = h;
      padded_width = aligned w;
      bytes = aligned w * aligned h * 4 % 2 ^ 64;
    })

unfoldable pub pixel_offset : DepthLayout → ℕ → ℕ → Outcome ℕ
pixel_offset layout x y =
    if leb layout.width x || leb layout.height y
    then throws Exception.out_of_range
    else ok (mkw_depth_pixel_offset x y (layout.padded_width / 2 ^ 7))
