-- ===== src/Cp/Repeat.antt =====
-- Repeated writes to a CP register.
use mkwii_ps.Base.{
  ℕ, ◌≡◌, ◌≢◌, refl, true, ◌&&◌, ◌==◌, if◌then◌else◌, update, arith, Bool-cases, inl, inr, Option,
  none, some, List, [], ◌∷◌, ◌∙◌,
}
use mkwii_ps.Platform.{Platform}
use mkwii_ps.State.Machine.{Machine}
use mkwii_ps.Cp.Cache.{cp_register_write_unchanged, cacheable_cp_register}
use mkwii_ps.Cp.Handle.{handle_cp}
use mkwii_ps.Cp.Agrees.{cp_switch-cp_register_cache}

-- The value that the cache holds for a register.
abbrev pub cached : Machine → ℕ → Option ℕ
cached m a = if m.cp_register_cache_valid a then some (m.cp_register_cache a) else none

-- No write of the list goes to register `a`.
abbrev pub NoneTo : ℕ → List (ℕ × ℕ) → Type 0
NoneTo a [] = Unit {0}
NoneTo a ((b, w) ∷ rest) = (a ≢ b) × NoneTo a rest

module _ ⦃p : Platform⦄ where
  skipped :
      (a v : ℕ) (m : Machine)
      → cacheable_cp_register a ≡ true
      → cached m a ≡ some v
      → handle_cp a v m ≡ m
  unfolding handle_cp cp_register_write_unchanged
  skipped a v m kept held = rw (kept, hit) refl
    where
      hit : (m.cp_register_cache_valid a && m.cp_register_cache a == v) ≡ true
      hit = ground arith

  -- What the cache holds after a write.
  handle_cp-cached :
      (a v : ℕ) (m : Machine) (k : ℕ)
      → cached (handle_cp a v m) k
        ≡ (if cacheable_cp_register a && k == a then some v else cached m k)
  unfolding handle_cp cp_register_write_unchanged
  handle_cp-cached a v m k = elim (Bool-cases (cacheable_cp_register a)) [
    | inr no_cache ↦ rw no_cache (ground (arith, cp_switch-cp_register_cache a v m))
    | inl kept ↦
        rw kept (elim (Bool-cases (m.cp_register_cache_valid a && m.cp_register_cache a == v)) [
          | inl hit ↦ rw hit (ground arith)
          | inr miss ↦ rw miss (
              ground (
                arith,
                cp_switch-cp_register_cache a v (record m {
                  cp_register_cache_valid = update m.cp_register_cache_valid a true;
                  cp_register_cache = update m.cp_register_cache a v;
                }),
              ))
        ])
  ]

  -- Writes to registers, in order.
  unfoldable pub cp_writes : List (ℕ × ℕ) → Machine → Machine
  cp_writes [] m = m
  cp_writes ((b, w) ∷ rest) m = cp_writes rest (handle_cp b w m)

  cp_writes-cached :
      (a : ℕ) (writes : List (ℕ × ℕ)) (m : Machine)
      → NoneTo a writes
      → cached (cp_writes writes m) a ≡ cached m a
  unfolding cp_writes
  cp_writes-cached a [] m others = refl
  cp_writes-cached a ((b, w) ∷ rest) m others =
      cp_writes-cached a rest (handle_cp b w m) others.1
      ∙ ground (arith, handle_cp-cached b w m a, others.0)

  -- A write to a cacheable CP register changes nothing where it repeats the last write to that
  -- register, whatever was written to other CP registers between the two.
  pub handle_cp-repeat :
      (a v : ℕ) (writes : List (ℕ × ℕ)) (m : Machine)
      → cacheable_cp_register a ≡ true
      → NoneTo a writes
      → handle_cp a v (cp_writes writes (handle_cp a v m)) ≡ cp_writes writes (handle_cp a v m)
  handle_cp-repeat a v writes m kept others = skipped a v _ kept (
      cp_writes-cached a writes (handle_cp a v m) others ∙ ground (arith, handle_cp-cached a v m a))
