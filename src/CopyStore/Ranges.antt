-- ===== src/CopyStore/Ranges.antt =====
-- Ranges in ascending order that do not meet, and the loops over them.
use mkwii_ps.Base.{
  ℕ, ◌+◌, ◌^◌, ◌≤◌, ◌<◌, ◌≡◌, ◌⊎◌, inl, inr, arith, false, Bool-cases, ltb, ◌==◌, List, [], ◌∷◌,
}
use mkwii_ps.CopyStore.{
  Ram, RamRange, Entry, overlaps, meets, CopyCall, erase_met, insert_range, entry_of,
}

-- Bytes from `start`, at least one, inside one bank.
pub record InBank (ram : Ram) (start bytes : ℕ) : Type 0 where
  pub some_bytes : 0 < bytes
  pub bank :
      (start + bytes ≤ ram.mem1_size) ⊎ ((ram.mem2_base ≤ start) × (start + bytes ≤ ram.mem2_end))

-- From `low` on, each range in a bank, and none before the end of the one before.
abbrev pub Laid : Ram → ℕ → List Entry → Type 0
Laid ram low [] = Unit {0}
Laid ram low (e ∷ es) =
    (low ≤ e.start) × InBank ram e.start e.bytes × Laid ram (e.start + e.bytes) es

-- The banks lie in 32 bits.
pub record Narrow (ram : Ram) : Type 0 where
  pub mem1 : ram.mem1_size ≤ 2 ^ 32
  pub mem2 : ram.mem2_end ≤ 2 ^ 32

pub InBank-end :
    (ram : Ram) (start bytes : ℕ) → Narrow ram → InBank ram start bytes → start + bytes ≤ 2 ^ 32
InBank-end ram start bytes n b = elim b.bank [
  | inl h ↦ omega (arith, h, n.mem1)
  | inr h ↦ omega (arith, h.1, n.mem2)
]

Laid-lower : (ram : Ram) (l m : ℕ) (es : List Entry) → l ≤ m → Laid ram m es → Laid ram l es
Laid-lower ram l m [] h d = tt
Laid-lower ram l m (e ∷ es) h d = (omega (arith, h, d.0), d.1, d.2)

-- The range meets none of the entries.
abbrev pub Clear : RamRange → List Entry → Type 0
Clear r [] = Unit {0}
Clear r (e ∷ es) = (meets r e ≡ false) × Clear r es

pub erase_met-Laid :
    (ram : Ram) (gone : Entry → List CopyCall → List CopyCall) (r : RamRange) (low : ℕ)
    (es : List Entry) (calls : List CopyCall)
    → Laid ram low es
    → Laid ram low (erase_met gone r es calls).0
unfolding erase_met
erase_met-Laid ram gone r low [] calls d = tt
erase_met-Laid ram gone r low (e ∷ es) calls d = elim (Bool-cases (meets r e)) [
  | inl h ↦ rw h (
      erase_met-Laid ram gone r low es (gone e calls)
        (Laid-lower ram low (e.start + e.bytes) es (omega (arith, d.0)) d.2))
  | inr h ↦ rw h (d.0, d.1, erase_met-Laid ram gone r (e.start + e.bytes) es calls d.2)
]

pub erase_met-Clear :
    (gone : Entry → List CopyCall → List CopyCall) (r : RamRange) (es : List Entry)
    (calls : List CopyCall)
    → Clear r (erase_met gone r es calls).0
unfolding erase_met
erase_met-Clear gone r [] calls = tt
erase_met-Clear gone r (e ∷ es) calls = elim (Bool-cases (meets r e)) [
  | inl h ↦ rw h (erase_met-Clear gone r es (gone e calls))
  | inr h ↦ rw h (h, erase_met-Clear gone r es calls)
]

-- Two ranges that do not meet: one ends where the other begins, or before.
apart :
    (ram : Ram) (r : RamRange) (e : Entry)
    → Narrow ram
    → InBank ram r.physical r.bytes
    → InBank ram e.start e.bytes
    → meets r e ≡ false
    → (e.start + e.bytes ≤ r.physical) ⊎ (r.physical + r.bytes ≤ e.start)
unfolding overlaps
apart ram r e n b c h =
    let r_end : r.physical + r.bytes ≤ 2 ^ 32 = InBank-end ram r.physical r.bytes n b in
    let e_end : e.start + e.bytes ≤ 2 ^ 32 = InBank-end ram e.start e.bytes n c in ground arith

pub insert_range-Laid :
    (ram : Ram) (r : RamRange) (token low : ℕ) (es : List Entry)
    → Narrow ram
    → InBank ram r.physical r.bytes
    → low ≤ r.physical
    → Laid ram low es
    → Clear r es
    → Laid ram low (insert_range (entry_of r token) es)
unfolding insert_range
insert_range-Laid ram r token low [] n b l d c = (l, b, tt)
insert_range-Laid ram r token low (e ∷ es) n b l d c =
    let sides = apart ram r e n b d.1 c.0 in
    elim (Bool-cases (ltb r.physical e.start)) [
      | inl h ↦ rw h (l, b, (ground (arith, sides, d.1.some_bytes), d.1, d.2))
      | inr h ↦
          let above : e.start + e.bytes ≤ r.physical = ground (arith, sides, b.some_bytes) in
          let other : (r.physical == e.start) ≡ false = ground (arith, d.1.some_bytes) in
          rw (h, other)
            (d.0, d.1, insert_range-Laid ram r token (e.start + e.bytes) es n b above d.2 c.1)
    ]
