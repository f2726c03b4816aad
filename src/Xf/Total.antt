-- ===== src/Xf/Total.antt =====
-- The reads of `copy_xf_data` and `handle_xf`, and the position.
use mkwii_ps.Base.{
  ℕ, zero, suc, ◌+◌, ◌-◌, ◌*◌, ◌/◌, ◌%◌, ◌^◌, ◌≤◌, ◌≡◌, Bool, false, ◌&&◌, ◌||◌, ltb, leb, ◌==◌,
  Array, update, bit_and, arith, some, Returns, returns, Anything, ◌>>=◌, >>=-Returns, if-Returns,
}
use mkwii_ps.Platform.{Platform}
use mkwii_ps.Reader.{Bytes, advance}
use mkwii_ps.Reader.Total.{Readable, Readable-advance, read_u32-Returns, read_f32-Returns}
use mkwii_ps.State.Transform.{Light}
use mkwii_ps.State.Machine.{Machine}
use mkwii_ps.Xf.Memory.{
  max_tex_mtx, max_pt_tex_mtx, max_lights, max_pn_mtx, read_flat, read_light, set_light_field,
  write_pos_mtx, write_tex_mtx, write_nrm_mtx, write_pt_tex_mtx, write_light, copy_xf_data,
}
use mkwii_ps.Xf.Handle.{XfRun, xf_write, xf_loop, xf_registers, xf_body, handle_xf}

header_fits : (at size : ℕ) → (ltb size at || ltb (size - at) 4) ≡ false → at + 4 ≤ size
header_fits at size e = ground arith

data_fit : (at size n : ℕ) → at ≤ size → ltb (size - at) n ≡ false → at + n ≤ size
data_fit at size n h e = ground arith

module _ ⦃p : Platform⦄ where
  read_flat-Returns :
      (n i : ℕ) (place : ℕ → ℕ) (ptr : Bytes) (be : Bool) (flat : Array ℕ)
      → Readable ptr ((i + n) * 4)
      → Returns Anything (read_flat n i place ptr be flat)
  unfolding read_flat
  read_flat-Returns zero i place ptr be flat h = returns tt
  read_flat-Returns (suc n) i place ptr be flat h =
      >>=-Returns
        (read_f32-Returns _ be (Readable-advance ptr (i * 4) 4 ((i + suc n) * 4) h (omega arith)))
        λ v _.
          read_flat-Returns n (i + 1) place ptr be (update flat (place i) v)
            (λ j lt. h j (omega arith))

  read_light-Returns :
      (n i start : ℕ) (ptr : Bytes) (be : Bool) (l : Light)
      → Readable ptr ((i + n) * 4)
      → Returns Anything (read_light n i start ptr be l)
  unfolding read_light
  read_light-Returns zero i start ptr be l h = returns tt
  read_light-Returns (suc n) i start ptr be l h =
      >>=-Returns
        (read_u32-Returns _ be (Readable-advance ptr (i * 4) 4 ((i + suc n) * 4) h (omega arith)))
        λ v _.
          read_light-Returns n (i + 1) start ptr be (set_light_field (start + i) v l)
            (λ j lt. h j (omega arith))

  -- Each bank reads all its `len` words, or is rejected.
  pub copy_xf_data-Returns :
      (addr : ℕ) (ptr : Bytes) (len : ℕ) (be : Bool) (m : Machine)
      → Readable ptr (len * 4)
      → Returns Anything (copy_xf_data addr ptr len be m)
  unfolding copy_xf_data write_pos_mtx write_tex_mtx write_nrm_mtx write_pt_tex_mtx write_light
  copy_xf_data-Returns addr ptr len be m h =
      if-Returns (ltb addr 0x78) (λ _. if-Returns (pn 12 addr) (λ _. flat _ _ _) λ _. returns tt)
        λ _.
          if-Returns (ltb addr 0x0F0)
            (λ _.
              if-Returns
                (ltb ((addr - 0x078) / 12) max_tex_mtx
                  && ((addr - 0x078) % 12 == 0 && (len == 8 || len == 12)))
                (λ _. flat _ _ _) λ _. returns tt)
            λ _.
              if-Returns (leb 0x400 addr && ltb addr 0x45A)
                (λ _. if-Returns (pn 9 (addr - 0x400)) (λ _. flat _ _ _) λ _. returns tt)
                λ _.
                  if-Returns (leb 0x500 addr && ltb addr 0x5F0)
                    (λ _.
                      if-Returns
                        (ltb ((addr - 0x500) / 12) max_pt_tex_mtx
                          && ((addr - 0x500) % 12 == 0 && len == 12))
                        (λ _. flat _ _ _) λ _. returns tt)
                    λ _.
                      if-Returns (leb 0x600 addr && ltb addr 0x680)
                        (λ _.
                          if-Returns
                            (ltb ((addr - 0x600) / 0x10) max_lights
                              && leb ((addr - 0x600) % 0x10 + len) 0x10)
                            (λ _. light _ _ _) λ _. returns tt)
                        λ _. returns tt
    where
      pn : ℕ → ℕ → Bool
      pn n base = ltb (base / n) max_pn_mtx && (base % n == 0 && len == n)

      flat :
          (place : ℕ → ℕ) (a : Array ℕ) (f : Array ℕ → Bool × Machine)
          → Returns Anything (read_flat len 0 place ptr be a >>= λ v. some (f v))
      flat place a f =
          >>=-Returns (read_flat-Returns len 0 place ptr be a (λ j lt. h j (omega arith)))
            λ v _. returns tt

      light :
          (start : ℕ) (l : Light) (f : Light → Bool × Machine)
          → Returns Anything (read_light len 0 start ptr be l >>= λ v. some (f v))
      light start l f =
          >>=-Returns (read_light-Returns len 0 start ptr be l (λ j lt. h j (omega arith)))
            λ v _. returns tt

  xf_loop-Returns :
      (n i xf_addr : ℕ) (ptr : Bytes) (be : Bool) (r : XfRun)
      → Readable ptr ((i + n) * 4)
      → Returns Anything (xf_loop n i xf_addr ptr be r)
  unfolding xf_loop
  xf_loop-Returns zero i xf_addr ptr be r h = returns tt
  xf_loop-Returns (suc n) i xf_addr ptr be r h =
      >>=-Returns
        (read_u32-Returns _ be (Readable-advance ptr (i * 4) 4 ((i + suc n) * 4) h (omega arith)))
        λ v _.
          xf_loop-Returns n (i + 1) xf_addr ptr be (xf_write (xf_addr + i) v r)
            (λ j lt. h j (omega arith))

  xf_body-Returns :
      (addr : ℕ) (ptr : Bytes) (count : ℕ) (be : Bool) (m : Machine)
      → Readable ptr (count * 4)
      → Returns Anything (xf_body addr ptr count be m)
  unfolding xf_body xf_registers
  xf_body-Returns addr ptr count be m h =
      >>=-Returns (copy_xf_data-Returns addr ptr count be m h) λ r _.
        if-Returns r.0 (λ _. returns tt)
          λ _.
            if-Returns (leb 0x1000 addr)
              (λ _.
                >>=-Returns
                  (xf_loop-Returns count 0 (addr - 0x1000) ptr be _ (λ j lt. h j (omega arith)))
                  λ v _. returns tt)
              (λ _. returns tt)

  -- With the position inside a readable buffer, a transform-unit command never faults, and leaves
  -- the position between where it was and the end of the buffer.
  pub handle_xf-Returns :
      (ptr : Bytes) (at size : ℕ) (be : Bool) (m : Machine)
      → Readable ptr size
      → at ≤ size
      → Returns (λ r. (at ≤ r.0) × (r.0 ≤ size)) (handle_xf ptr at size be m)
  unfolding handle_xf
  handle_xf-Returns ptr at size be m h fits =
      if-Returns (ltb size at || ltb (size - at) 4) (λ _. returns (omega arith, omega arith))
        λ enough.
          let head : at + 4 ≤ size = header_fits at size enough in
          >>=-Returns (read_u32-Returns _ be (Readable-advance ptr at 4 size h head)) λ header _.
            if-Returns (ltb (size - (at + 4)) (count header * 4))
              (λ _. returns (omega arith, omega arith))
              λ holds.
                let body : at + 4 + count header * 4 ≤ size =
                  data_fit (at + 4) size (count header * 4) head holds in
                >>=-Returns
                  (xf_body-Returns _ (advance ptr (at + 4)) (count header) be m
                    (Readable-advance ptr (at + 4) (count header * 4) size h body))
                  λ m' _. returns (omega arith, body)
    where
      Within : ℕ × Machine → Type 0
      Within r = (at ≤ r.0) × (r.0 ≤ size)

      count : ℕ → ℕ
      count header = bit_and (header / 2 ^ 16) 0xFFFF + 1
