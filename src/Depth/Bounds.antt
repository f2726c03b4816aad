-- ===== src/Depth/Bounds.antt =====
-- The offset of a pixel of the depth target lies inside the target.
use mkwii_ps.Base.{
  ℕ, ◌+◌, ◌*◌, ◌/◌, ◌%◌, ◌^◌, ◌≤◌, ◌<◌, ◌≡◌, ◌||◌, false, ltb, leb, ◌==◌, refl, sym, ap, ◌∙◌, arith,
  if◌then◌else◌,
}
use mkwii_ps.Base.Outcome.{Outcome, Exception, ok, throws, Gives, gives}
use native.Mathlib.Nat.{
  mul-le-mul_right, mul-le-mul, mul-add-mod_self_right, mod-eq_of_lt, mul-add-div_right,
  div-eq_of_lt,
}
use mkwii_ps.Depth.{
  DepthLayout, depth_layout, pixel_offset, mkw_depth_pixel_offset, aligned, in_block,
}
use mkwii_ps.Depth.Words.{in_block-InBlock, aligned_up}
use mkwii_ps.Depth.Blocks.{in_block-same}

-- A word inside a buffer.
pub record InBuffer (bytes offset : ℕ) : Type 0 where
  pub word : offset % 4 ≡ 0
  pub inside : offset + 4 ≤ bytes

-- The block of a pixel, in `columns` columns and `rows` rows.
block_inside :
    (i j columns rows : ℕ) → j < columns → i < rows → i * columns + j + 1 ≤ rows * columns
block_inside i j columns rows p q =
    grind (arith, mul-le-mul_right {m = i + 1} {n = rows} columns (omega arith))

blocks_bound : (columns rows : ℕ) → columns ≤ 128 → rows ≤ 128 → rows * columns ≤ 16384
blocks_bound columns rows p q = mul-le-mul {n₁ = rows} {m₁ = columns} {n₂ = 128} {m₂ = 128} q p

-- Columns or rows of blocks that cover a dimension.
abbrev pub blocks : ℕ → ℕ
blocks n = (n + 127) / 128

-- The offset of a pixel, with nothing wrapped: the block's number in rows of blocks, 64 KiB for each
-- block, and the place inside the block.
abbrev pub exact_offset : ℕ → ℕ → ℕ → ℕ
exact_offset columns x y = (y / 128 * columns + x / 128) * 65536 + in_block x y

-- Where a pixel lies.
pub record Offset (w h bytes x y offset : ℕ) : Type 0 where
  pub exact : offset ≡ exact_offset (blocks w) x y
  pub in_buffer : InBuffer bytes offset

-- No product wraps around.
mkw_depth_pixel_offset-Offset :
    (w h x y : ℕ)
    → x < w
    → y < h
    → w ≤ 16384
    → h ≤ 16384
    → Offset w h (blocks h * blocks w * 65536) x y (mkw_depth_pixel_offset x y (blocks w))
unfolding mkw_depth_pixel_offset
mkw_depth_pixel_offset-Offset w h x y p q c r =
    let b = block_inside (y / 128) (x / 128) (blocks w) (blocks h) (omega arith) (omega arith) in
    let t = blocks_bound (blocks w) (blocks h) (omega arith) (omega arith) in
    let k = in_block-InBlock x y in
    record {
      exact = omega (arith, b, t, k.below);
      in_buffer = record {
        word = omega (arith, b, t, k.below, k.word);
        inside = omega (arith, b, t, k.below, k.word);
      };
    }

-- Two block numbers in rows of `columns` are the same only for the same block.
same_block :
    (i i' j j' columns : ℕ)
    → j < columns
    → j' < columns
    → i * columns + j ≡ i' * columns + j'
    → (i ≡ i') × (j ≡ j')
same_block i i' j j' columns p q e = (
  sym (row i j p) ∙ ap (λ b. b / columns) e ∙ row i' j' q,
  sym (column i j p) ∙ ap (λ b. b % columns) e ∙ column i' j' q,
)
  where
    column : (a b : ℕ) → b < columns → (a * columns + b) % columns ≡ b
    column a b l = mul-add-mod_self_right a columns b ∙ mod-eq_of_lt l

    row : (a b : ℕ) → b < columns → (a * columns + b) / columns ≡ a
    row a b l =
        mul-add-div_right (omega (arith, l)) a b ∙ ap (λ c. a + c) (div-eq_of_lt l) ∙ omega arith

-- Two pixels with one offset are one pixel.
exact_offset-same :
    (columns x y x' y' : ℕ)
    → x < 2 ^ 14
    → y < 2 ^ 14
    → x' < 2 ^ 14
    → y' < 2 ^ 14
    → x / 128 < columns
    → x' / 128 < columns
    → exact_offset columns x y ≡ exact_offset columns x' y'
    → (x ≡ x') × (y ≡ y')
exact_offset-same columns x y x' y' a b c d p q e =
    let k = in_block-InBlock x y in
    let k' = in_block-InBlock x' y' in
    let place : in_block x y ≡ in_block x' y' = omega (arith, e, k.below, k'.below) in
    let block : y / 128 * columns + x / 128 ≡ y' / 128 * columns + x' / 128 =
      omega (arith, e, k.below, k'.below) in
    let s = same_block (y / 128) (y' / 128) (x / 128) (x' / 128) columns p q block in
    let l = in_block-same x y x' y' (omega arith) (omega arith) (omega arith) (omega arith) place in
    (omega (arith, s.1, l.0), omega (arith, s.0, l.1))

-- A layout of accepted dimensions.
pub record Tiled (w h : ℕ) (layout : DepthLayout) : Type 0 where
  pub width : layout.width ≡ w
  pub height : layout.height ≡ h
  pub padded : layout.padded_width ≡ blocks w * 128
  pub size : layout.bytes ≡ blocks h * blocks w * 65536
  pub offsets :
      (x y : ℕ) → x < w → y < h → Gives (Offset w h layout.bytes x y) (pixel_offset layout x y)
  pub distinct :
      (x y x' y' : ℕ)
      → x < w
      → y < h
      → x' < w
      → y' < h
      → pixel_offset layout x y ≡ pixel_offset layout x' y'
      → (x ≡ x') × (y ≡ y')

bytes_of : (c r : ℕ) → c ≤ 128 → r ≤ 128 → c * 128 * (r * 128) * 4 % 2 ^ 64 ≡ r * c * 65536
bytes_of c r p q = rw (product) (omega (arith, blocks_bound c r p q))
  where
    product : c * 128 * (r * 128) * 4 ≡ r * c * 65536
    product = grind arith

-- The offset of an outcome that has one.
the_offset : Outcome ℕ → ℕ
the_offset (ok o) = o
the_offset _ = 0

-- For a width and a height from 1 to 16384 the constructor returns a layout of these dimensions, its
-- width padded to whole blocks, whose size is 64 KiB for each block of 128 by 128 pixels that covers
-- them. Each pixel has the offset of its block, in rows of blocks, and of its place in the block,
-- computed without a wrap-around; it is a multiple of 4 whose word lies inside the layout's bytes;
-- and no two pixels have the same offset.
pub depth_layout-Tiled :
    (w h : ℕ) → 0 < w → w ≤ 16384 → 0 < h → h ≤ 16384 → Gives (Tiled w h) (depth_layout w h)
unfolding depth_layout pixel_offset the_offset
depth_layout-Tiled w h p q r s = rw (dimensions) (
    gives (record {
      width = refl;
      height = refl;
      padded = aligned_up w q;
      size = bytes;
      offsets = offsets;
      distinct = distinct;
    }))
  where
    dimensions : (w == 0 || h == 0 || ltb 16384 w || ltb 16384 h) ≡ false
    dimensions = ground arith

    columns : aligned w / 2 ^ 7 ≡ blocks w
    columns = omega (arith, aligned_up w q)

    bytes : aligned w * aligned h * 4 % 2 ^ 64 ≡ blocks h * blocks w * 65536
    bytes =
        rw (aligned_up w q, aligned_up h s)
          (bytes_of (blocks w) (blocks h) (omega arith) (omega arith))

    offset_at : ℕ → ℕ → Outcome ℕ
    offset_at x y =
        if leb w x || leb h y
        then throws Exception.out_of_range
        else ok (mkw_depth_pixel_offset x y (aligned w / 2 ^ 7))

    found : (x y : ℕ) → x < w → y < h → offset_at x y ≡ ok (mkw_depth_pixel_offset x y (blocks w))
    found x y a b = rw (in_range, columns) refl
      where
        in_range : (leb w x || leb h y) ≡ false
        in_range = ground arith

    offsets :
        (x y : ℕ)
        → x < w
        → y < h
        → Gives (Offset w h (aligned w * aligned h * 4 % 2 ^ 64) x y) (offset_at x y)
    offsets x y a b =
        rw (found x y a b, bytes) (gives (mkw_depth_pixel_offset-Offset w h x y a b q s))

    exact : (x y : ℕ) → x < w → y < h → the_offset (offset_at x y) ≡ exact_offset (blocks w) x y
    exact x y a b = rw (found x y a b) (mkw_depth_pixel_offset-Offset w h x y a b q s).exact

    distinct :
        (x y x' y' : ℕ)
        → x < w
        → y < h
        → x' < w
        → y' < h
        → offset_at x y ≡ offset_at x' y'
        → (x ≡ x') × (y ≡ y')
    distinct x y x' y' a b c d e =
        exact_offset-same (blocks w) x y x' y' (omega arith) (omega arith) (omega arith)
          (omega arith) (omega arith) (omega arith)
          (sym (exact x y a b) ∙ ap the_offset e ∙ exact x' y' c d)
