-- ===== src/Base/Arrays.antt =====
-- A `std::array` as the function of its index. The extent is not in the type. Byte buffers are lists, indexed by native numbers.
use Prim.Native.Nat.{ℕ, zero, suc, ◌+◌, ◌-◌, ◌≤◌, ◌<◌}
use mathlib.Core.Path.{◌≡◌, refl, ap, sym, ◌∙◌}
use mathlib.Core.List.{List, [], ◌∷◌, ◌++◌}
use mathlib.Core.Bool.{Bool, true, ◌&&◌}
use mathlib.Core.Option.{Option, none, some}
use native.Mathlib.Omega.{arith}
use mathlib.Core.Logic.{◌≢◌, inl, inr}
use mkwii_ps.Base.Tests.{ltb, ◌==◌, if◌then◌else◌, Bool-cases}

module _ {ℓ} where
  abbrev pub Array : Type ℓ → Type ℓ
  Array A = ℕ → A

  -- `a[i] = v`.
  abbrev pub update : {A : Type ℓ} → Array A → ℕ → A → Array A
  update a i v j = if j == i then v else a j

  -- A change to `a[i]` through a reference.
  abbrev pub modify : {A : Type ℓ} → Array A → ℕ → (A → A) → Array A
  modify a i f j = if j == i then f (a j) else a j

  -- A cell of the updated array is the new one or an old one.
  pub update-elim {κ} :
      {A : Type ℓ} (P : A → Type κ) (a : Array A) (i : ℕ) (v : A) (j : ℕ)
      → (j ≡ i → P v)
      → (j ≢ i → P (a j))
      → P (update a i v j)
  update-elim P a i v j new old = elim (Bool-cases (j == i)) [
    | inl e ↦ rw e (new (ground arith))
    | inr e ↦ rw e (old (ground arith))
  ]

module _ {ℓ} {A : Type ℓ} where
  abbrev pub length : List A → ℕ
  length [] = 0
  length (x ∷ xs) = suc (length xs)

  abbrev pub get_elem? : List A → ℕ → Option A
  get_elem? [] i = none
  get_elem? (x ∷ xs) zero = some x
  get_elem? (x ∷ xs) (suc i) = get_elem? xs i

  abbrev pub get_or : List A → ℕ → A → A
  get_or [] i d = d
  get_or (x ∷ xs) zero d = x
  get_or (x ∷ xs) (suc i) d = get_or xs i d

  pub get_elem?-lt : (xs : List A) (i : ℕ) → i < length xs → (a : A) × (get_elem? xs i ≡ some a)
  get_elem?-lt [] i h = absurd (omega arith)
  get_elem?-lt (x ∷ xs) zero h = (x, refl)
  get_elem?-lt (x ∷ xs) (suc i) h = get_elem?-lt xs i (omega arith)

  pub length-append : (xs ys : List A) → length (xs ++ ys) ≡ length xs + length ys
  length-append [] ys = omega arith
  length-append (x ∷ xs) ys = omega (arith, length-append xs ys)

  -- The first `n` elements.
  abbrev pub take : List A → ℕ → List A
  take xs zero = []
  take [] (suc n) = []
  take (x ∷ xs) (suc n) = x ∷ take xs n

  pub length-take : (xs : List A) (n : ℕ) → n ≤ length xs → length (take xs n) ≡ n
  length-take xs zero h = refl
  length-take [] (suc n) h = absurd (omega arith)
  length-take (x ∷ xs) (suc n) h = omega (arith, length-take xs n (omega arith))

  -- All but the first `n` elements.
  abbrev pub drop : List A → ℕ → List A
  drop xs zero = xs
  drop [] (suc n) = []
  drop (x ∷ xs) (suc n) = drop xs n

  drop-nil : (n : ℕ) → drop [] n ≡ []
  drop-nil zero = refl
  drop-nil (suc n) = refl

  pub length-drop : (xs : List A) (n : ℕ) → length (drop xs n) ≡ length xs - n
  length-drop xs zero = omega arith
  length-drop [] (suc n) = omega arith
  length-drop (x ∷ xs) (suc n) = omega (arith, length-drop xs n)

  pub take-drop : (xs : List A) (n : ℕ) → take xs n ++ drop xs n ≡ xs
  take-drop xs zero = refl
  take-drop [] (suc n) = refl
  take-drop (x ∷ xs) (suc n) = ap (λ l. x ∷ l) (take-drop xs n)

  pub drop-drop : (xs : List A) (n m : ℕ) → drop (drop xs n) m ≡ drop xs (n + m)
  drop-drop xs zero m = ap (drop xs) (omega arith)
  drop-drop [] (suc n) m = drop-nil m ∙ sym (drop-nil (suc n + m))
  drop-drop (x ∷ xs) (suc n) m =
      let e : suc (n + m) ≡ suc n + m = omega arith in drop-drop xs n m ∙ ap (drop (x ∷ xs)) e

  pub get_elem?-get_or :
      (xs : List A) (i : ℕ) (d : A) → i < length xs → get_elem? xs i ≡ some (get_or xs i d)
  get_elem?-get_or [] i d h = absurd (omega arith)
  get_elem?-get_or (x ∷ xs) zero d h = refl
  get_elem?-get_or (x ∷ xs) (suc i) d h = get_elem?-get_or xs i d (omega arith)

-- The entries of a buffer are bytes.
abbrev pub all_bytes : List ℕ → Bool
all_bytes [] = true
all_bytes (x ∷ xs) = ltb x 256 && all_bytes xs

pub all_bytes-bound :
    (xs : List ℕ) → all_bytes xs ≡ true → (i b : ℕ) → get_elem? xs i ≡ some b → b < 256
all_bytes-bound [] e i b is = absurd (ground arith)
all_bytes-bound (x ∷ xs) e zero b is = ground arith
all_bytes-bound (x ∷ xs) e (suc i) b is = all_bytes-bound xs (ground arith) i b is
