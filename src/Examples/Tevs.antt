-- ===== src/Examples/Tevs.antt =====
-- The theorems on the texture environment's program at a concrete state.
use mkwii_ps.Base.{ℕ, ◌≡◌, ◌<◌, ◌↔◌, refl, arith, true, ◌==◌, if◌then◌else◌, bit}
use mkwii_ps.Base.Outcome.{Safe, Gives, is_ok}
use mkwii_ps.State.Tev.{TevState}
use mkwii_ps.State.Pixel.{AlphaCompare}
use mkwii_ps.Tev.{TevEnums, build_tev_program, tev_program_used_texcoords}
use mkwii_ps.Tev.Packed.{Program, build_tev_program-Program}
use mkwii_ps.Tev.Used.{reads, tev_program_used_texcoords-reads}
use mkwii_ps.Tev.Accepted.{Accepted, build_tev_program-is_ok}
use mkwii_ps.Examples.Blank.{dolphin, no_stage, no_tev}
use mkwii_ps.Examples.Shaders.{shader_enums}

instance abbrev tev_enums : TevEnums
tev_enums = record {
  tb_addhalf = 1;
  tb_subhalf = 2;
  cs_divide_2 = 3;
  cc_konst = 14;
  ca_konst = 6;
  color0a0_id = 4;
  color1a1_id = 5;
  color_null_id = 0xFF;
  times_255 = λ f. f;
  is_byte_range = λ lo hi f. true;
  round_even = λ f. f;
  eighths = λ n. n;
}

-- Two stages, and the coordinate 1 for an indirect stage that the first one names.
abbrev two_stages : TevState
two_stages = record no_tev {
  tev_stages = λ i.
      if i == 0
      then record no_stage { color_pass = record { a = 15; b = 8; c = 10; d = 0 } }
      else record no_stage { ind_tex_stage = 4 };
  ind_stages = λ _. record { tex_coord_id = 1; tex_map_id = 0; scale_s = 0; scale_t = 0 };
  num_tev_stages = 2;
  num_ind_stages = 1;
  num_tex_gens = 2;
}

abbrev always : AlphaCompare
always = record { comp0 = 7; ref0 = 0; op = 0; comp1 = 7; ref1 = 0 }

build_tev_program-Program_example :
    Safe
      (λ program. (program.stage_count ≡ 2) × Program two_stages 0 2 program.stages)
      (build_tev_program two_stages always)
build_tev_program-Program_example = build_tev_program-Program two_stages refl always

build_tev_program-is_ok_example :
    (is_ok (build_tev_program two_stages always) ≡ true) ↔ Accepted two_stages always
build_tev_program-is_ok_example = build_tev_program-is_ok two_stages always

tev_program_used_texcoords-reads_example :
    Gives
      (λ used. (c : ℕ) → (bit c used ≡ 1) ↔ ((i : ℕ) × (i < 2) × (reads two_stages i c ≡ true)))
      (tev_program_used_texcoords two_stages)
tev_program_used_texcoords-reads_example =
    tev_program_used_texcoords-reads two_stages (omega arith) (omega arith) (omega arith)
