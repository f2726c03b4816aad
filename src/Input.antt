-- ===== src/Input.antt =====
-- ps5/input: the samples of a pad, and the presses of a script that are merged into them.
pub mod Sample
pub mod Axes
pub mod Autopilot
pub mod Playback
