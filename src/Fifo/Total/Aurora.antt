-- ===== src/Fifo/Total/Aurora.antt =====
-- The reads of the sub-commands of `handle_aurora`.
use mkwii_ps.Base.{
  ℕ, zero, suc, ◌+◌, ◌≤◌, ◌≡◌, Bool, true, ◌-◌, leb, ◌==◌, within, if◌then◌else◌, arith, Option,
  none, some, List, Returns, returns, Anything, >>=-Returns, if-Returns, Returns-weaken,
}
use mkwii_ps.Platform.{Platform}
use mkwii_ps.Reader.{Bytes, advance, read_u16, read_u32, read_u64, read_f32}
use mkwii_ps.Reader.Total.{
  Readable, Readable-advance, read_u16-Returns, read_u32-Returns, read_f32-Returns,
  read_u64-Returns,
}
use mkwii_ps.State.Vertex.{va_pos}
use mkwii_ps.State.Machine.{Machine, Call, call}
use mkwii_ps.Bp.Texture.{max_tluts}
use mkwii_ps.Fifo.Commands.{Commands, Flow, stop, go_on}
use mkwii_ps.Fifo.Aurora.{
  has_bytes, read_chars, read_string, aurora_label, aurora_viewport, aurora_scissor, aurora_array,
  aurora_texobj_body, aurora_texobj, aurora_tlut_body, aurora_tlut, aurora_evict, aurora_evict_copy,
  aurora_switch, handle_aurora,
}

-- The handler returns, or goes on at `at` or behind it.
abbrev pub Onward : ℕ → Flow → Type 0
Onward at (stop m) = Unit {0}
Onward at (go_on at' m) = at ≤ at'

pub has_bytes-le : (at size n : ℕ) → has_bytes at size n ≡ true → at + n ≤ size
unfolding has_bytes
has_bytes-le at size n e = ground arith

read_chars-Returns : (n : ℕ) (ptr : Bytes) → Readable ptr n → Returns Anything (read_chars n ptr)
unfolding read_chars
read_chars-Returns zero ptr h = returns tt
read_chars-Returns (suc n) ptr h = >>=-Returns (h 0 (omega arith)) λ c _.
    >>=-Returns (read_chars-Returns n (advance ptr 1) (λ i lt. h (1 + i) (omega arith)))
      λ cs _. returns tt

pub further : (at : ℕ) (f : Flow) → Onward (at + 2) f → Onward at f
further at (stop m) le = tt
further at (go_on at' m) le = omega arith

module _ ⦃p : Platform⦄ (ptr : Bytes) (size : ℕ) (be : Bool) (h : Readable ptr size) where
  u16 : (at : ℕ) → at + 2 ≤ size → Returns Anything (read_u16 (advance ptr at) be)
  u16 at le = read_u16-Returns (advance ptr at) be (Readable-advance ptr at 2 size h le)

  pub u32 : (at : ℕ) → at + 4 ≤ size → Returns Anything (read_u32 (advance ptr at) be)
  u32 at le = read_u32-Returns (advance ptr at) be (Readable-advance ptr at 4 size h le)

  f32 : (at : ℕ) → at + 4 ≤ size → Returns Anything (read_f32 (advance ptr at) be)
  f32 at le = read_f32-Returns (advance ptr at) be (Readable-advance ptr at 4 size h le)

  u64 : (at : ℕ) → at + 8 ≤ size → Returns Anything (read_u64 (advance ptr at) be)
  u64 at le = read_u64-Returns (advance ptr at) be (Readable-advance ptr at 8 size h le)

  guarded-Returns :
      (at n : ℕ) (m : Machine) {body : Option Flow}
      → (at + n ≤ size → Returns (Onward at) body)
      → Returns (Onward at) (if has_bytes at size n then body else some (stop m))
  guarded-Returns at n m k =
      if-Returns (has_bytes at size n) (λ e. k (has_bytes-le at size n e)) λ _. returns tt

  aurora_viewport-Returns :
      (at : ℕ) (m : Machine) → at + 24 ≤ size → Returns (Onward at) (aurora_viewport ptr at be m)
  unfolding aurora_viewport
  aurora_viewport-Returns at m le = >>=-Returns (f32 at (omega arith)) λ left _.
      >>=-Returns (f32 (at + 4) (omega arith)) λ top _.
        >>=-Returns (f32 (at + 8) (omega arith)) λ width _.
          >>=-Returns (f32 (at + 12) (omega arith)) λ height _.
            >>=-Returns (f32 (at + 16) (omega arith))
              λ near_z _. >>=-Returns (f32 (at + 20) (omega arith)) λ far_z _. returns (omega arith)

  aurora_scissor-Returns :
      (at : ℕ) (m : Machine) → at + 16 ≤ size → Returns (Onward at) (aurora_scissor ptr at be m)
  unfolding aurora_scissor
  aurora_scissor-Returns at m le = >>=-Returns (u32 at (omega arith)) λ left _.
      >>=-Returns (u32 (at + 4) (omega arith)) λ top _.
        >>=-Returns (u32 (at + 8) (omega arith))
          λ width _. >>=-Returns (u32 (at + 12) (omega arith)) λ height _. returns (omega arith)

  aurora_array-Returns :
      (i at : ℕ) (m : Machine) → at + 13 ≤ size → Returns (Onward at) (aurora_array i ptr at be m)
  unfolding aurora_array
  aurora_array-Returns i at m le = >>=-Returns (u64 at (omega arith)) λ array_addr _.
      >>=-Returns (u32 (at + 8) (omega arith))
        λ array_size _. >>=-Returns (h (at + 12) (omega arith)) λ b _. returns (omega arith)

  aurora_texobj-Returns :
      (at : ℕ) (m : Machine) → at + 34 ≤ size → Returns (Onward at) (aurora_texobj ptr at be m)
  unfolding aurora_texobj aurora_texobj_body
  aurora_texobj-Returns at m le = >>=-Returns (h at (omega arith)) λ i _.
      if-Returns (leb p.max_texmap i) (λ _. returns tt)
        λ _. >>=-Returns (u64 (at + 1) (omega arith)) λ base _.
          >>=-Returns (u32 (at + 1 + 8) (omega arith)) λ width _.
            >>=-Returns (u32 (at + 1 + 12) (omega arith)) λ height _.
              >>=-Returns (u32 (at + 1 + 16) (omega arith)) λ format _.
                >>=-Returns (u32 (at + 1 + 20) (omega arith)) λ tlut _.
                  >>=-Returns (h (at + 1 + 24) (omega arith)) λ mips _.
                    >>=-Returns (u32 (at + 1 + 25) (omega arith)) λ id _.
                      >>=-Returns (u32 (at + 1 + 29) (omega arith))
                        λ version _. returns (omega arith)

  aurora_tlut-Returns :
      (at : ℕ) (m : Machine) → at + 23 ≤ size → Returns (Onward at) (aurora_tlut ptr at be m)
  unfolding aurora_tlut aurora_tlut_body
  aurora_tlut-Returns at m le = >>=-Returns (h at (omega arith)) λ i _.
      if-Returns (leb max_tluts i) (λ _. returns tt)
        λ _. >>=-Returns (u64 (at + 1) (omega arith)) λ base _.
          >>=-Returns (u32 (at + 1 + 8) (omega arith)) λ format _.
            >>=-Returns (u16 (at + 1 + 12) (omega arith)) λ entries _.
              >>=-Returns (u32 (at + 1 + 14) (omega arith)) λ id _.
                >>=-Returns (u32 (at + 1 + 18) (omega arith)) λ version _. returns (omega arith)

  aurora_evict-Returns :
      (c : ℕ → Call) (at : ℕ) (m : Machine)
      → at + 4 ≤ size
      → Returns (Onward at) (aurora_evict c ptr at be m)
  unfolding aurora_evict
  aurora_evict-Returns c at m le = >>=-Returns (u32 at le) λ id _. returns (omega arith)

  aurora_evict_copy-Returns :
      (at : ℕ) (m : Machine) → at + 8 ≤ size → Returns (Onward at) (aurora_evict_copy ptr at be m)
  unfolding aurora_evict_copy
  aurora_evict_copy-Returns at m le = >>=-Returns (u64 at le) λ id _. returns (omega arith)

  -- A string that is returned ends behind where it began.
  abbrev Behind : ℕ → Option (List ℕ × ℕ) → Type 0
  Behind at none = Unit {0}
  Behind at (some r) = at ≤ r.1

  read_string-Returns : (at : ℕ) → Returns (Behind at) (read_string ptr at size be)
  unfolding read_string
  read_string-Returns at =
      if-Returns (has_bytes at size 2)
        (λ e.
          let le : at + 2 ≤ size = has_bytes-le at size 2 e in
          >>=-Returns (u16 at le) λ n _.
            if-Returns (has_bytes (at + 2) size n)
              (λ e'.
                let le' : at + 2 + n ≤ size = has_bytes-le (at + 2) size n e' in
                >>=-Returns
                  (read_chars-Returns n (advance ptr (at + 2))
                    (Readable-advance ptr (at + 2) n size h le'))
                  λ cs _. returns (omega arith))
              λ _. returns tt)
        λ _. returns tt

  aurora_label-Returns :
      (c : List ℕ → Call) (at : ℕ) (m : Machine)
      → Returns (Onward at) (aurora_label c ptr at size be m)
  unfolding aurora_label
  aurora_label-Returns c at m = >>=-Returns (read_string-Returns at) λ r le. labelled r le
    where
      labelled :
          (r : Option (List ℕ × ℕ))
          → Behind at r
          → Returns
              (Onward at)
              (elim r [ none ↦ some (stop m) | some (cs, at') ↦ some (go_on at' (call (c cs) m)) ])
      labelled none le = returns tt
      labelled (some r) le = returns le

  aurora_switch-Returns :
      ⦃c : Commands⦄ (sub at : ℕ) (m : Machine)
      → at ≤ size
      → Returns (Onward at) (aurora_switch sub ptr at size be m)
  unfolding aurora_switch
  aurora_switch-Returns ⦃c⦄ sub at m le =
      if-Returns (sub == c.aurora_viewport_render)
        (λ _. guarded-Returns at 24 m (aurora_viewport-Returns at m))
        λ _.
          if-Returns (sub == c.aurora_scissor_render)
            (λ _. guarded-Returns at 16 m (aurora_scissor-Returns at m))
            λ _.
              if-Returns (within c.aurora_arraybase c.aurora_arraybase_last sub)
                (λ _.
                  guarded-Returns at 13 m
                    (aurora_array-Returns (sub - c.aurora_arraybase + va_pos) at m))
                λ _.
                  if-Returns (sub == c.aurora_texobj)
                    (λ _. guarded-Returns at 34 m (aurora_texobj-Returns at m))
                    λ _.
                      if-Returns (sub == c.aurora_tlut)
                        (λ _. guarded-Returns at 23 m (aurora_tlut-Returns at m))
                        λ _.
                          if-Returns (sub == c.aurora_destroy_texobj)
                            (λ _.
                              guarded-Returns at 4 m
                                (aurora_evict-Returns Call.evict_texture_object at m))
                            λ _.
                              if-Returns (sub == c.aurora_destroy_tlut)
                                (λ _.
                                  guarded-Returns at 4 m
                                    (aurora_evict-Returns Call.evict_tlut_object at m))
                                λ _.
                                  if-Returns (sub == c.aurora_destroy_copy_tex)
                                    (λ _. guarded-Returns at 8 m (aurora_evict_copy-Returns at m))
                                    λ _.
                                      if-Returns (sub == c.aurora_invalidate_tex_all)
                                        (λ _. returns (omega arith))
                                        λ _.
                                          if-Returns (sub == c.aurora_debug_group_push)
                                            (λ _. aurora_label-Returns Call.push_debug_group at m)
                                            λ _.
                                              if-Returns (sub == c.aurora_debug_group_pop)
                                                (λ _. returns (omega arith))
                                                λ _.
                                                  if-Returns (sub == c.aurora_debug_marker_insert)
                                                    (λ _.
                                                      aurora_label-Returns Call.insert_debug_marker
                                                        at m)
                                                    λ _. returns tt

  pub handle_aurora-Returns :
      ⦃c : Commands⦄ (at : ℕ) (m : Machine) → Returns (Onward at) (handle_aurora ptr at size be m)
  unfolding handle_aurora
  handle_aurora-Returns at m =
      if-Returns (has_bytes at size 2)
        (λ e.
          let le : at + 2 ≤ size = has_bytes-le at size 2 e in
          >>=-Returns (u16 at le)
            λ sub _. Returns-weaken (aurora_switch-Returns sub (at + 2) m le) (further at))
        λ _. returns tt
