-- ===== src/Base/Fault.antt =====
-- A step that may fault (`none`): what it returns, and the rules for a chain of steps.
use mathlib.Core.Path.{◌≡◌, refl}
use mathlib.Core.Bool.{Bool, true, false}
use mathlib.Core.Option.{Option, some}
use mkwii_ps.Base.Tests.{◌>>=◌, if◌then◌else◌}

-- The step returns, and its result satisfies `P`.
pub data Returns {A : Type 0} (P : A → Type 0) : Option A → Type 0 where
  returns : {a : A} → P a → Returns P (some a)

abbrev pub Anything : {A : Type 0} → A → Type 0
Anything a = Unit {0}

module _ {A : Type 0} where
  pub >>=-Returns :
      {B : Type 0} {P : A → Type 0} {Q : B → Type 0} {o : Option A} {f : A → Option B}
      → Returns P o
      → ((a : A) → P a → Returns Q (f a))
      → Returns Q (o >>= f)
  >>=-Returns (returns {a = a} h) k = k a h

  pub if-Returns :
      {P : A → Type 0} (b : Bool) {x y : Option A}
      → (b ≡ true → Returns P x)
      → (b ≡ false → Returns P y)
      → Returns P (if b then x else y)
  if-Returns true h k = h refl
  if-Returns false h k = k refl

  pub Returns-weaken :
      {P Q : A → Type 0} {o : Option A} → Returns P o → ((a : A) → P a → Q a) → Returns Q o
  Returns-weaken (returns {a = a} h) k = returns (k a h)

  -- The result itself.
  pub Returns-some : {P : A → Type 0} {o : Option A} → Returns P o → (a : A) × (o ≡ some a) × P a
  Returns-some (returns {a = a} h) = (a, refl, h)

  pub Returns-is :
      {P : A → Type 0} {o : Option A} → Returns P o → Returns (λ a. (o ≡ some a) × P a) o
  Returns-is (returns h) = returns (refl, h)
