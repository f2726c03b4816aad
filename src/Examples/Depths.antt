-- ===== src/Examples/Depths.antt =====
-- The theorem on the depth target at a concrete size.
use mkwii_ps.Base.{arith}
use mkwii_ps.Base.Outcome.{Gives}
use mkwii_ps.Depth.{depth_layout}
use mkwii_ps.Depth.Bounds.{Tiled, depth_layout-Tiled}

depth_layout-Tiled_example : Gives (Tiled 640 528) (depth_layout 640 528)
depth_layout-Tiled_example =
    depth_layout-Tiled 640 528 (omega arith) (omega arith) (omega arith) (omega arith)
