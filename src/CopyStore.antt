-- ===== src/CopyStore.antt =====
-- ps5/gpu/gx_copy_store.cpp: the ranges of guest memory that copies on the GPU stand for. The memory, the deferred
-- reads and the cache of sampled copies are parameters: `Ram`, and the `Answers` of a call.
pub mod Ranges
pub mod Laid
use mkwii_ps.Base.{
  ℕ, ◌+◌, ◌-◌, ◌%◌, ◌^◌, Bool, true, false, ◌&&◌, ◌||◌, not, ltb, leb, ◌==◌, ◌!=◌, if◌then◌else◌,
  Option, none, some, ◌>>=◌, List, [], ◌∷◌, bit_or,
}

-- `Memory`: the ends of its banks, the address in a bank, and the host's view of an alias.
pub record Ram : Type 0 where
  pub mem1_size : ℕ
  pub mem2_base : ℕ
  pub mem2_end : ℕ
  pub canonical : ℕ → ℕ
  pub contains : ℕ → ℕ → Bool
  pub pointer : ℕ → ℕ → ℕ

pub record RamRange : Type 0 where
  pub physical : ℕ
  pub bytes : ℕ
  pub host : ℕ

pub record Entry : Type 0 where
  pub start : ℕ
  pub bytes : ℕ
  pub token : ℕ
  pub destination : ℕ

-- Where the bank of an address ends; 0 for an address in none.
unfoldable pub bank_limit : Ram → ℕ → ℕ
bank_limit ram physical =
    if ltb physical ram.mem1_size
    then ram.mem1_size
    else (if leb ram.mem2_base physical && ltb physical ram.mem2_end then ram.mem2_end else 0)

-- The host address that all the windows have in common; a null pointer is 0.
unfoldable pub coherent : Ram → ℕ → ℕ → ℕ → List ℕ → Option ℕ
coherent ram physical bytes host [] = some host
coherent ram physical bytes host (window ∷ rest) =
    let address = bit_or physical window in
    let next = ram.pointer address bytes in
    let result = coherent ram physical bytes next rest in
    if not (ram.contains address bytes) || (host != 0 && host != next) then none else result

-- `none` is the exception.
unfoldable pub checked_ram : Ram → ℕ → ℕ → Option RamRange
checked_ram ram address bytes =
    let physical = ram.canonical address in
    let limit = bank_limit ram physical in
    let host = coherent ram physical bytes 0 (0 ∷ 0x80000000 ∷ 0xC0000000 ∷ []) in
    if limit == 0 || bytes == 0 || ltb (limit - physical) bytes
    then none
    else host >>= λ h. some (record { physical = physical; bytes = bytes; host = h })

unfoldable pub overlaps : ℕ → ℕ → ℕ → ℕ → Bool
overlaps a an b bn = ltb a ((b + bn) % 2 ^ 64) && ltb b ((a + an) % 2 ^ 64)

abbrev pub meets : RamRange → Entry → Bool
meets r e = overlaps e.start e.bytes r.physical r.bytes

-- What the store asks of the memory and of the cache.
pub data CopyCall : Type 0 where
  resolve_reads : ℕ → ℕ → CopyCall
  cancel_read : ℕ → CopyCall
  defer_copy : ℕ → CopyCall
  publish_handle : ℕ → CopyCall
  evict : ℕ → CopyCall

-- What those answer: false or `none` is an exception. `copy_bytes` is `native_color_copy_bytes`.
pub record Answers : Type 0 where
  pub copy_bytes : Option ℕ
  pub described : Bool
  pub resolves : ℕ → ℕ → Bool
  pub token : Option ℕ
  pub cached : Bool

-- The map, by ascending addresses, and the calls that were made, the last one first.
pub record CopyStore : Type 0 where
  pub ranges : List Entry
  pub calls : List CopyCall

unfoldable pub is_covered : RamRange → Entry → Bool
is_covered r e =
    leb r.physical e.start && leb ((e.start + e.bytes) % 2 ^ 64) ((r.physical + r.bytes) % 2 ^ 64)

-- The reads of the copies that are overwritten in part, up to one that throws.
unfoldable pub resolve_parts :
    (ℕ → ℕ → Bool) → RamRange → List Entry → List CopyCall → List CopyCall × Bool
resolve_parts resolves r [] calls = (calls, true)
resolve_parts resolves r (e ∷ es) calls =
    let part = meets r e && not (is_covered r e) in
    let more = if part then resolve_reads e.start e.bytes ∷ calls else calls in
    let rest = resolve_parts resolves r es more in
    if part && not (resolves e.start e.bytes) then (more, false) else rest

-- The loop that erases the entries that meet a range, after `gone` for each.
unfoldable pub erase_met :
    (Entry → List CopyCall → List CopyCall)
    → RamRange
    → List Entry
    → List CopyCall
    → List Entry × List CopyCall
erase_met gone r [] calls = ([], calls)
erase_met gone r (e ∷ es) calls =
    let rest = erase_met gone r es (if meets r e then gone e calls else calls) in
    if meets r e then rest else (e ∷ rest.0, rest.1)

unfoldable pub retired : RamRange → Entry → List CopyCall → List CopyCall
retired r e calls =
    if e.destination != r.host
    then evict e.destination ∷ cancel_read e.token ∷ calls
    else cancel_read e.token ∷ calls

-- `std::map::insert`: an entry whose key is there stays.
unfoldable pub insert_range : Entry → List Entry → List Entry
insert_range n [] = n ∷ []
insert_range n (e ∷ es) =
    let rest = insert_range n es in
    if ltb n.start e.start then n ∷ e ∷ es else (if n.start == e.start then e ∷ es else e ∷ rest)

abbrev pub entry_of : RamRange → ℕ → Entry
entry_of r token = record {
  start = r.physical;
  bytes = r.bytes;
  token = token;
  destination = r.host;
}

-- The commit of a publication whose copy the cache holds.
unfoldable pub commit : RamRange → ℕ → CopyStore → List CopyCall → CopyStore
commit r token s calls =
    let left = erase_met (retired r) r s.ranges calls in
    record { ranges = insert_range (entry_of r token) left.0; calls = left.1 }

unfoldable pub publish_range : Answers → CopyStore → ℕ → RamRange → CopyStore × Bool
publish_range a s address r =
    let resolved = resolve_parts a.resolves r s.ranges s.calls in
    if not a.described
    then (s, false)
    else (if not resolved.1
        then (record { ranges = s.ranges; calls = resolved.0 }, false)
        else deferred resolved.0 a.token)
  where
    deferred : List CopyCall → Option ℕ → CopyStore × Bool
    deferred calls none = (record { ranges = s.ranges; calls = defer_copy address ∷ calls }, false)
    deferred calls (some t) =
        let called = publish_handle r.host ∷ defer_copy address ∷ calls in
        if a.cached
        then (commit r t s called, true)
        else (record { ranges = s.ranges; calls = cancel_read t ∷ called }, false)

-- The store afterwards, and whether the call returned without an exception. A null copy has no `copy_bytes`.
unfoldable pub publish : Ram → Answers → CopyStore → ℕ → CopyStore × Bool
publish ram a s address = go (a.copy_bytes >>= checked_ram ram address)
  where
    go : Option RamRange → CopyStore × Bool
    go none = (s, false)
    go (some r) = publish_range a s address r

unfoldable pub prepare_range : (ℕ → ℕ → Bool) → CopyStore → RamRange → CopyStore × Bool
prepare_range resolves s r =
    let calls = resolve_reads r.physical r.bytes ∷ s.calls in
    let left = erase_met (λ e c. evict e.destination ∷ c) r s.ranges calls in
    if resolves r.physical r.bytes
    then (record { ranges = left.0; calls = left.1 }, true)
    else (record { ranges = s.ranges; calls = calls }, false)

unfoldable pub prepare_write : Ram → (ℕ → ℕ → Bool) → CopyStore → ℕ → ℕ → CopyStore × Bool
prepare_write ram resolves s address bytes =
    if bytes == 0 then (s, true) else go (checked_ram ram address bytes)
  where
    go : Option RamRange → CopyStore × Bool
    go none = (s, false)
    go (some r) = prepare_range resolves s r
