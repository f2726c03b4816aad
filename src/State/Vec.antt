-- ===== src/State/Vec.antt =====
-- Vectors and matrices of floats (patterns): `aurora/math.hpp` as the register state uses it.
use mkwii_ps.Base.{ℕ}

pub record Vec2 : Type 0 where
  pub x : ℕ
  pub y : ℕ

-- `v[0]` to `v[3]`.
pub record Vec4 : Type 0 where
  pub x : ℕ
  pub y : ℕ
  pub z : ℕ
  pub w : ℕ

pub record Mat4 : Type 0 where
  pub m0 : Vec4
  pub m1 : Vec4
  pub m2 : Vec4
  pub m3 : Vec4

pub record Mat3x2 : Type 0 where
  pub m0 : Vec2
  pub m1 : Vec2
  pub m2 : Vec2
