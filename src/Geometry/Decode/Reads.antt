-- ===== src/Geometry/Decode/Reads.antt =====
-- `load` inside its bytes, and where the values of an attribute lie.
use mkwii_ps.Base.{
  ℕ, zero, suc, ◌+◌, ◌-◌, ◌≤◌, ◌<◌, ◌≡◌, refl, ◌⊎◌, inl, inr, Bool, true, false, ◌&&◌, leb, arith,
  List, length, get_or, get_elem?-get_or, Anything, get_elem?, some, ap,
}
use mkwii_ps.Base.Outcome.{ok, Gives, gives}
use mkwii_ps.Geometry.Snapshot.Covers.{index_of}
use mkwii_ps.Geometry.Decode.{load_bytes, load}

load_bytes-Gives :
    (bytes : List ℕ) (at width : ℕ) (little : Bool) (n i acc : ℕ)
    → at + i + n ≤ length bytes
    → Gives Anything (load_bytes bytes at width little n i acc)
unfolding load_bytes
load_bytes-Gives bytes at width little zero i acc fits = gives tt
load_bytes-Gives bytes at width little (suc n) i acc fits =
    rw (get_elem?-get_or bytes (at + i) 0 (omega arith))
      (load_bytes-Gives bytes at width little n (i + 1) _ (omega arith))

pub load-Gives :
    (bytes : List ℕ) (at width : ℕ) (little : Bool)
    → at + width ≤ length bytes
    → Gives Anything (load bytes at width little)
unfolding load
load-Gives bytes at width little fits =
    rw room (load_bytes-Gives bytes at width little width 0 0 (omega arith))
  where
    room : (leb at (length bytes) && leb width (length bytes - at)) ≡ true
    room = ground arith

load_room :
    (bytes : List ℕ) (at width : ℕ) (little : Bool)
    → at + width ≤ length bytes
    → load bytes at width little ≡ load_bytes bytes at width little width 0 0
unfolding load
load_room bytes at width little fits = rw room refl
  where
    room : (leb at (length bytes) && leb width (length bytes - at)) ≡ true
    room = ground arith

first_byte :
    (bytes : List ℕ) (at : ℕ)
    → at < length bytes
    → get_elem? bytes (at + 0) ≡ some (get_or bytes at 0)
first_byte bytes at lt = let e : at + 0 ≡ at = omega arith in rw e (get_elem?-get_or bytes at 0 lt)

-- An index is read as the snapshot read it.
pub load-index_of :
    (bytes : List ℕ) (at width : ℕ)
    → (width ≡ 1) ⊎ (width ≡ 2)
    → at + width ≤ length bytes
    → load bytes at width false ≡ ok (index_of bytes width at)
unfolding load_bytes
load-index_of bytes at width (inl e) fits =
    rw (load_room bytes at width false fits, e, first_byte bytes at (omega arith))
      (ap ok (omega arith))
load-index_of bytes at width (inr e) fits =
    rw
      (
        load_room bytes at width false fits,
        e,
        first_byte bytes at (omega arith),
        get_elem?-get_or bytes (at + 1) 0 (omega arith),
      )
      (ap ok (omega arith))
