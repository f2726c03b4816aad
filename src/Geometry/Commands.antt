-- ===== src/Geometry/Commands.antt =====
-- The draw commands of the dispatcher and the primitives of the geometry.
use mkwii_ps.Base.{
  ℕ, ◌<◌, ◌≡◌, refl, Bool, true, false, ◌||◌, not, all_below, all_below-test, arith, Option, none,
  some, Returns, returns, Anything,
}
use mkwii_ps.Fifo.Process.{is_draw_cmd}
use mkwii_ps.Geometry.Indices.{Primitive, gx_primitive_from_command}

abbrev accepted : Option Primitive → Bool
accepted none = false
accepted (some q) = true

accepted-Returns : (o : Option Primitive) → accepted o ≡ true → Returns Anything o
accepted-Returns none e = ground arith
accepted-Returns (some q) e = returns tt

-- Each byte that the dispatcher takes for a draw command names a primitive, so `handle_draw` does not
-- throw on its opcode.
pub gx_primitive_from_command-Returns :
    (command : ℕ)
    → command < 256
    → is_draw_cmd command ≡ true
    → Returns Anything (gx_primitive_from_command command)
unfolding is_draw_cmd gx_primitive_from_command all_below
gx_primitive_from_command-Returns command byte draw = accepted-Returns _ (ground (arith, table))
  where
    table : (not (is_draw_cmd command) || accepted (gx_primitive_from_command command)) ≡ true
    table =
        all_below-test 256 (λ c. not (is_draw_cmd c) || accepted (gx_primitive_from_command c))
          command refl byte
