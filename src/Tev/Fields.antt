-- ===== src/Tev/Fields.antt =====
-- ps5/gpu/tev_stage.h: how the shader takes packed fields apart, and that it finds what was packed.
use mkwii_ps.Base.{
  ℕ, ◌+◌, ◌*◌, ◌/◌, ◌^◌, ◌<◌, ◌≡◌, refl, arith, Bool, true, false, ◌&&◌, ◌||◌, leb, ◌==◌, ◌!=◌,
  if◌then◌else◌, bit_and, bit_or, bit_and_mask, bit_or_above, bit_and_power,
}
use mkwii_ps.Base.Outcome.{Safe, done, require-Safe}
use mkwii_ps.State.Tev.{TevPass, TevOp, TevSwap}
use mkwii_ps.Tev.{TevEnums, swizzle, pack_args, args_within, operation, flag}

-- `mkw_tev_eval` and `mkw_tev_write`: the operation, the scale, whether the result is clamped to bytes,
-- the bias in units of 128 and one more, and the register.
pub record OpFields : Type 0 where
  pub op : ℕ
  pub scale : ℕ
  pub clamp : Bool
  pub shifted_bias : ℕ
  pub destination : ℕ

unfoldable pub op_fields : ℕ → OpFields
op_fields flags = record {
  op = bit_and flags 15;
  scale = bit_and (flags / 2 ^ 4) 3;
  clamp = bit_and flags 64 != 0;
  shifted_bias = bit_and (flags / 2 ^ 8) 3;
  destination = bit_and (flags / 2 ^ 10) 3;
}

-- The selectors of `mkw_tev_stage`, of four and of three bits.
unfoldable pub color_selectors : ℕ → TevPass
color_selectors c = record {
  a = bit_and c 15;
  b = bit_and (c / 2 ^ 4) 15;
  c = bit_and (c / 2 ^ 8) 15;
  d = bit_and (c / 2 ^ 12) 15;
}

unfoldable pub alpha_selectors : ℕ → TevPass
alpha_selectors a = record {
  a = bit_and a 7;
  b = bit_and (a / 2 ^ 3) 7;
  c = bit_and (a / 2 ^ 6) 7;
  d = bit_and (a / 2 ^ 9) 7;
}

-- The lanes of `mkw_tev_swizzle`.
unfoldable pub swap_lanes : ℕ → TevSwap
swap_lanes sw = record {
  red = bit_and sw 3;
  green = bit_and (sw / 2 ^ 2) 3;
  blue = bit_and (sw / 2 ^ 4) 3;
  alpha = bit_and (sw / 2 ^ 6) 3;
}

color_sum :
    (p : TevPass)
    → args_within 15 p ≡ true
    → pack_args 4 p ≡ p.a + p.b * 2 ^ 4 + p.c * 2 ^ 8 + p.d * 2 ^ 12
unfolding pack_args args_within
color_sum p h =
    rw
      (
        bit_or_above 4 p.a p.b (ground arith),
        bit_or_above 8 (p.a + p.b * 2 ^ 4) p.c (ground arith),
        bit_or_above 12 (p.a + p.b * 2 ^ 4 + p.c * 2 ^ 8) p.d (ground arith),
      )
      refl

pub color_selectors-pack_args :
    (p : TevPass) → args_within 15 p ≡ true → color_selectors (pack_args 4 p) ≡ p
unfolding color_selectors args_within
color_selectors-pack_args p h = rw (color_sum p h) (
    ground (
      arith,
      bit_and_mask 4 (p.a + p.b * 2 ^ 4 + p.c * 2 ^ 8 + p.d * 2 ^ 12),
      bit_and_mask 4 ((p.a + p.b * 2 ^ 4 + p.c * 2 ^ 8 + p.d * 2 ^ 12) / 2 ^ 4),
      bit_and_mask 4 ((p.a + p.b * 2 ^ 4 + p.c * 2 ^ 8 + p.d * 2 ^ 12) / 2 ^ 8),
      bit_and_mask 4 ((p.a + p.b * 2 ^ 4 + p.c * 2 ^ 8 + p.d * 2 ^ 12) / 2 ^ 12),
    ))

alpha_sum :
    (p : TevPass)
    → args_within 7 p ≡ true
    → pack_args 3 p ≡ p.a + p.b * 2 ^ 3 + p.c * 2 ^ 6 + p.d * 2 ^ 9
unfolding pack_args args_within
alpha_sum p h =
    rw
      (
        bit_or_above 3 p.a p.b (ground arith),
        bit_or_above 6 (p.a + p.b * 2 ^ 3) p.c (ground arith),
        bit_or_above 9 (p.a + p.b * 2 ^ 3 + p.c * 2 ^ 6) p.d (ground arith),
      )
      refl

pub alpha_selectors-pack_args :
    (p : TevPass) → args_within 7 p ≡ true → alpha_selectors (pack_args 3 p) ≡ p
unfolding alpha_selectors args_within
alpha_selectors-pack_args p h = rw (alpha_sum p h) (
    ground (
      arith,
      bit_and_mask 3 (p.a + p.b * 2 ^ 3 + p.c * 2 ^ 6 + p.d * 2 ^ 9),
      bit_and_mask 3 ((p.a + p.b * 2 ^ 3 + p.c * 2 ^ 6 + p.d * 2 ^ 9) / 2 ^ 3),
      bit_and_mask 3 ((p.a + p.b * 2 ^ 3 + p.c * 2 ^ 6 + p.d * 2 ^ 9) / 2 ^ 6),
      bit_and_mask 3 ((p.a + p.b * 2 ^ 3 + p.c * 2 ^ 6 + p.d * 2 ^ 9) / 2 ^ 9),
    ))

unpacked :
    (s : TevSwap)
    → (leb s.red 3 && leb s.green 3 && leb s.blue 3 && leb s.alpha 3) ≡ true
    → swap_lanes (s.red + s.green * 2 ^ 2 + s.blue * 2 ^ 4 + s.alpha * 2 ^ 6) ≡ s
unfolding swap_lanes
unpacked s h = ground (
  arith,
  bit_and_mask 2 (s.red + s.green * 2 ^ 2 + s.blue * 2 ^ 4 + s.alpha * 2 ^ 6),
  bit_and_mask 2 ((s.red + s.green * 2 ^ 2 + s.blue * 2 ^ 4 + s.alpha * 2 ^ 6) / 2 ^ 2),
  bit_and_mask 2 ((s.red + s.green * 2 ^ 2 + s.blue * 2 ^ 4 + s.alpha * 2 ^ 6) / 2 ^ 4),
  bit_and_mask 2 ((s.red + s.green * 2 ^ 2 + s.blue * 2 ^ 4 + s.alpha * 2 ^ 6) / 2 ^ 6),
)

-- A swizzle that is packed is read back.
pub swizzle-lanes : (s : TevSwap) → Safe (λ sw. swap_lanes sw ≡ s) (swizzle s)
unfolding swizzle
swizzle-lanes s = require-Safe _ λ h. done (lanes h)
  where
    sum :
        (leb s.red 3 && leb s.green 3 && leb s.blue 3 && leb s.alpha 3) ≡ true
        → bit_or (bit_or (bit_or s.red (s.green * 2 ^ 2)) (s.blue * 2 ^ 4)) (s.alpha * 2 ^ 6)
          ≡ s.red + s.green * 2 ^ 2 + s.blue * 2 ^ 4 + s.alpha * 2 ^ 6
    sum h =
        rw
          (
            bit_or_above 2 s.red s.green (ground arith),
            bit_or_above 4 (s.red + s.green * 2 ^ 2) s.blue (ground arith),
            bit_or_above 6 (s.red + s.green * 2 ^ 2 + s.blue * 2 ^ 4) s.alpha (ground arith),
          )
          refl

    lanes :
        (leb s.red 3 && leb s.green 3 && leb s.blue 3 && leb s.alpha 3) ≡ true
        → swap_lanes
            (bit_or (bit_or (bit_or s.red (s.green * 2 ^ 2)) (s.blue * 2 ^ 4)) (s.alpha * 2 ^ 6))
          ≡ s
    lanes h = rw (sum h) (unpacked s h)

module _ ⦃e : TevEnums⦄ where
  -- The bias that a program keeps: none for comparisons.
  abbrev pub kept_bias : TevOp → ℕ
  kept_bias v =
      let bias = if leb 8 v.op then 0 else v.bias in
      if bias == e.tb_addhalf then 2 else if bias == e.tb_subhalf then 0 else 1

  -- What the shader should find of an operation.
  abbrev pub fields_of : TevOp → OpFields
  fields_of v = record {
    op = v.op;
    scale = v.scale;
    clamp = v.clamp;
    shifted_bias = kept_bias v;
    destination = v.out_reg;
  }

  op_sum :
      (op scale c bias out : ℕ)
      → op < 16
      → scale < 4
      → c < 2
      → bias < 4
      → bit_or
          (bit_or (bit_or (bit_or op (scale * 2 ^ 4)) (c * 2 ^ 6)) (bias * 2 ^ 8))
          (out * 2 ^ 10)
        ≡ op + scale * 2 ^ 4 + c * 2 ^ 6 + bias * 2 ^ 8 + out * 2 ^ 10
  op_sum op scale c bias out h0 h1 h2 h3 =
      rw
        (
          bit_or_above 4 op scale (omega arith),
          bit_or_above 6 (op + scale * 2 ^ 4) c (omega arith),
          bit_or_above 8 (op + scale * 2 ^ 4 + c * 2 ^ 6) bias (omega arith),
          bit_or_above 10 (op + scale * 2 ^ 4 + c * 2 ^ 6 + bias * 2 ^ 8) out (omega arith),
        )
        refl

  -- The fields of the sum.
  sum_fields :
      (op scale : ℕ) (clamp : Bool) (bias out : ℕ)
      → op < 16
      → scale < 4
      → bias < 4
      → out < 4
      → op_fields (op + scale * 2 ^ 4 + flag clamp * 2 ^ 6 + bias * 2 ^ 8 + out * 2 ^ 10)
        ≡ record { op = op; scale = scale; clamp = clamp; shifted_bias = bias; destination = out }
  unfolding op_fields
  sum_fields op scale true bias out h0 h1 h3 h4 = ground (
    arith,
    bit_and_mask 4 (op + scale * 2 ^ 4 + flag true * 2 ^ 6 + bias * 2 ^ 8 + out * 2 ^ 10),
    bit_and_mask 2 ((op + scale * 2 ^ 4 + flag true * 2 ^ 6 + bias * 2 ^ 8 + out * 2 ^ 10) / 2 ^ 4),
    bit_and_power 6 (op + scale * 2 ^ 4 + flag true * 2 ^ 6 + bias * 2 ^ 8 + out * 2 ^ 10),
    bit_and_mask 2 ((op + scale * 2 ^ 4 + flag true * 2 ^ 6 + bias * 2 ^ 8 + out * 2 ^ 10) / 2 ^ 8),
    bit_and_mask 2
        ((op + scale * 2 ^ 4 + flag true * 2 ^ 6 + bias * 2 ^ 8 + out * 2 ^ 10) / 2 ^ 10),
  )
  sum_fields op scale false bias out h0 h1 h3 h4 = ground (
    arith,
    bit_and_mask 4 (op + scale * 2 ^ 4 + flag false * 2 ^ 6 + bias * 2 ^ 8 + out * 2 ^ 10),
    bit_and_mask 2
        ((op + scale * 2 ^ 4 + flag false * 2 ^ 6 + bias * 2 ^ 8 + out * 2 ^ 10) / 2 ^ 4),
    bit_and_power 6 (op + scale * 2 ^ 4 + flag false * 2 ^ 6 + bias * 2 ^ 8 + out * 2 ^ 10),
    bit_and_mask 2
        ((op + scale * 2 ^ 4 + flag false * 2 ^ 6 + bias * 2 ^ 8 + out * 2 ^ 10) / 2 ^ 8),
    bit_and_mask 2
        ((op + scale * 2 ^ 4 + flag false * 2 ^ 6 + bias * 2 ^ 8 + out * 2 ^ 10) / 2 ^ 10),
  )

  flag-lt : (b : Bool) → flag b < 2
  flag-lt true = omega arith
  flag-lt false = omega arith

  abbrev accepted : TevOp → Bool
  accepted v =
      (leb v.op 1 || leb 8 v.op && leb v.op 15) && leb v.scale e.cs_divide_2 && leb v.out_reg 3

  bounds :
      (v : TevOp)
      → e.cs_divide_2 ≡ 3
      → accepted v ≡ true
      → (v.op < 16) × (v.scale < 4) × (v.out_reg < 4)
  bounds v last h = ground arith

  bias-lt : (v : TevOp) → kept_bias v < 4
  bias-lt v = ground arith

  packed_fields :
      (v : TevOp)
      → e.cs_divide_2 ≡ 3
      → accepted v ≡ true
      → op_fields (
          bit_or
            (bit_or
              (bit_or (bit_or v.op (v.scale * 2 ^ 4)) (flag v.clamp * 2 ^ 6))
              (kept_bias v * 2 ^ 8))
            (v.out_reg * 2 ^ 10))
        ≡ fields_of v
  packed_fields v last h =
      let b = bounds v last h in
      rw
        (op_sum v.op v.scale (flag v.clamp) (kept_bias v) v.out_reg b.0 b.1 (flag-lt v.clamp)
          (bias-lt v))
        (sum_fields v.op v.scale v.clamp (kept_bias v) v.out_reg b.0 b.1 (bias-lt v) b.2)

  -- An operation that is accepted is read back, where the last scale is 3.
  pub operation-fields :
      (v : TevOp) → e.cs_divide_2 ≡ 3 → Safe (λ f. op_fields f ≡ fields_of v) (operation v)
  unfolding operation
  operation-fields v last = require-Safe (accepted v) λ h.
      require-Safe (leb (if leb 8 v.op then 0 else v.bias) e.tb_subhalf)
        λ g. done (packed_fields v last h)
