-- ===== src/CopyStore/Laid.antt =====
-- The ranges of the store after any sequence of its operations.
use mkwii_ps.Base.{
  ℕ, ◌-◌, ◌≡◌, inl, inr, subst, arith, Bool, false, Bool-cases, Option-cases, ltb, ◌==◌, Option,
  none, some, ◌>>=◌, List, [], ◌∷◌,
}
use mkwii_ps.CopyStore.{
  Ram, RamRange, bank_limit, coherent, checked_ram, CopyCall, Answers, CopyStore, resolve_parts,
  defer_copy, publish_handle, resolve_reads, erase_met, retired, commit, publish_range, publish,
  prepare_range, prepare_write,
}
use mkwii_ps.CopyStore.Ranges.{
  InBank, Laid, Narrow, erase_met-Laid, erase_met-Clear, insert_range-Laid,
}

-- An operation, with any answers.
pub data Step (ram : Ram) : CopyStore → CopyStore → Type 0 where
  publishes : (s : CopyStore) (a : Answers) (address : ℕ) → Step ram s (publish ram a s address).0
  prepares :
      (s : CopyStore) (resolves : ℕ → ℕ → Bool) (address bytes : ℕ)
      → Step ram s (prepare_write ram resolves s address bytes).0

pub data Steps (ram : Ram) (s : CopyStore) : CopyStore → Type 0 where
  here : Steps ram s s
  next : {u v : CopyStore} → Steps ram s u → Step ram u v → Steps ram s v

abbrev pub untracked : CopyStore
untracked = record { ranges = []; calls = [] }

-- A range that is checked lies in a bank.
range_InBank :
    (ram : Ram) (physical bytes : ℕ)
    → (bank_limit ram physical == 0) ≡ false
    → (bytes == 0) ≡ false
    → ltb (bank_limit ram physical - physical) bytes ≡ false
    → InBank ram physical bytes
unfolding bank_limit
range_InBank ram physical bytes e b l = record {
  some_bytes = ground arith;
  bank = elim (Bool-cases (ltb physical ram.mem1_size)) [
    | inl h ↦ inl (ground arith)
    | inr h ↦ inr (ground arith)
  ];
}

-- What holds of a range, where there is one.
abbrev Checked : Ram → Option RamRange → Type 0
Checked ram none = Unit {0}
Checked ram (some r) = InBank ram r.physical r.bytes

checked_ram-Checked : (ram : Ram) (address bytes : ℕ) → Checked ram (checked_ram ram address bytes)
unfolding checked_ram
checked_ram-Checked ram address bytes = elim (Bool-cases (limit == 0)) [
  | inl e ↦ rw e tt
  | inr e ↦ elim (Bool-cases (bytes == 0)) [
    | inl b ↦ rw (e, b) tt
    | inr b ↦ elim (Bool-cases (ltb (limit - physical) bytes)) [
      | inl l ↦ rw (e, b, l) tt
      | inr l ↦ elim (Option-cases (coherent ram physical bytes 0 windows)) [
        | inl c ↦ rw (e, b, l, c) tt
        | inr c ↦ rw (e, b, l, c.1) (range_InBank ram physical bytes e b l)
      ]
    ]
  ]
]
  where
    physical : ℕ
    physical = ram.canonical address

    limit : ℕ
    limit = bank_limit ram physical

    windows : List ℕ
    windows = 0 ∷ 0x80000000 ∷ 0xC0000000 ∷ []

bound-Checked :
    (ram : Ram) (address : ℕ) (bytes : Option ℕ) → Checked ram (bytes >>= checked_ram ram address)
bound-Checked ram address none = tt
bound-Checked ram address (some bytes) = checked_ram-Checked ram address bytes

publish_range-Laid :
    (ram : Ram) (a : Answers) (s : CopyStore) (address : ℕ) (r : RamRange)
    → Narrow ram
    → InBank ram r.physical r.bytes
    → Laid ram 0 s.ranges
    → Laid ram 0 (publish_range a s address r).0.ranges
unfolding publish_range commit
publish_range-Laid ram a s address r n b d = elim (Bool-cases a.described) [
  | inr e ↦ rw e d
  | inl e ↦ elim (Bool-cases (resolve_parts a.resolves r s.ranges s.calls).1) [
    | inr p ↦ rw (e, p) d
    | inl p ↦ elim (Option-cases a.token) [
      | inl t ↦ rw (e, p, t) d
      | inr t ↦ elim (Bool-cases a.cached) [
        | inr c ↦ rw (e, p, t.1, c) d
        | inl c ↦ rw (e, p, t.1, c) (committed t.0)
      ]
    ]
  ]
]
  where
    called : List CopyCall
    called =
        publish_handle r.host ∷ defer_copy address ∷ (resolve_parts a.resolves r s.ranges s.calls).0

    committed : (t : ℕ) → Laid ram 0 (commit r t s called).ranges
    committed t =
        insert_range-Laid ram r t 0 (erase_met (retired r) r s.ranges called).0 n b (omega arith)
          (erase_met-Laid ram (retired r) r 0 s.ranges called d)
          (erase_met-Clear (retired r) r s.ranges called)

prepare_range-Laid :
    (ram : Ram) (resolves : ℕ → ℕ → Bool) (s : CopyStore) (r : RamRange)
    → Laid ram 0 s.ranges
    → Laid ram 0 (prepare_range resolves s r).0.ranges
unfolding prepare_range
prepare_range-Laid ram resolves s r d = elim (Bool-cases (resolves r.physical r.bytes)) [
  | inl h ↦ rw h (erase_met-Laid ram _ r 0 s.ranges (resolve_reads r.physical r.bytes ∷ s.calls) d)
  | inr h ↦ rw h d
]

publish-Laid :
    (ram : Ram) (a : Answers) (s : CopyStore) (address : ℕ)
    → Narrow ram
    → Laid ram 0 s.ranges
    → Laid ram 0 (publish ram a s address).0.ranges
unfolding publish
publish-Laid ram a s address n d = elim (Option-cases (a.copy_bytes >>= checked_ram ram address)) [
  | inl c ↦ rw c d
  | inr c ↦ rw c.1 (
      publish_range-Laid ram a s address c.0 n
        (subst (Checked ram) c.1 (bound-Checked ram address a.copy_bytes)) d)
]

prepare_write-Laid :
    (ram : Ram) (resolves : ℕ → ℕ → Bool) (s : CopyStore) (address bytes : ℕ)
    → Laid ram 0 s.ranges
    → Laid ram 0 (prepare_write ram resolves s address bytes).0.ranges
unfolding prepare_write
prepare_write-Laid ram resolves s address bytes d = elim (Bool-cases (bytes == 0)) [
  | inl e ↦ rw e d
  | inr e ↦ elim (Option-cases (checked_ram ram address bytes)) [
    | inl c ↦ rw (e, c) d
    | inr c ↦ rw (e, c.1) (prepare_range-Laid ram resolves s c.0 d)
  ]
]

-- Where both banks end within 32 bits: after any sequence of publications and writes, the ones that
-- threw included, the tracked ranges are in ascending order, each lies inside one bank and has at
-- least one byte, and none begins before the one before it ends.
pub Steps-Laid :
    (ram : Ram) (s : CopyStore) → Narrow ram → Steps ram untracked s → Laid ram 0 s.ranges
Steps-Laid ram s n here = tt
Steps-Laid ram s n (next {u} r (publishes _ a address)) =
    publish-Laid ram a u address n (Steps-Laid ram u n r)
Steps-Laid ram s n (next {u} r (prepares _ resolves address bytes)) =
    prepare_write-Laid ram resolves u address bytes (Steps-Laid ram u n r)
