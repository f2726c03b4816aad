-- ===== src/Base/Outcome.antt =====
-- Code that may throw: the result, an exception, or a fault where the code would read outside an
-- object. Not passed on by Base: its `>>=` takes the place of the one of `Option`.
use mathlib.Core.Path.{◌≡◌, refl}
use mathlib.Core.Bool.{Bool, true, false, ◌&&◌}
use mathlib.Core.Option.{Option, none, some}
use mkwii_ps.Base.Tests.{if◌then◌else◌}

pub data Exception : Type 0 where
  invalid_argument out_of_range length_error logic_error : Exception

pub data Outcome (A : Type 0) : Type 0 where
  ok : A → Outcome A
  throws : Exception → Outcome A
  fault : Outcome A

infixl 5 ◌>>=◌ ◌>>◌
abbrev pub ◌>>=◌ : {A B : Type 0} → Outcome A → (A → Outcome B) → Outcome B
ok a >>= f = f a
throws e >>= f = throws e
fault >>= f = fault

abbrev pub ◌>>◌ : {B : Type 0} → Outcome (Unit {0}) → Outcome B → Outcome B
m >> k = m >>= λ _. k

-- `require` of ps5/gpu/gx_geometry.cpp.
abbrev pub require : Bool → Outcome (Unit {0})
require true = ok tt
require false = throws Exception.invalid_argument

-- A read through a pointer.
abbrev pub or_fault : {A : Type 0} → Option A → Outcome A
or_fault none = fault
or_fault (some a) = ok a

-- No fault: the code returns a result with `P`, or throws.
pub data Safe {A : Type 0} (P : A → Type 0) : Outcome A → Type 0 where
  done : {a : A} → P a → Safe P (ok a)
  thrown : {e : Exception} → Safe P (throws e)

pub >>=-Safe :
    {A B : Type 0} {P : A → Type 0} {Q : B → Type 0} {o : Outcome A} {f : A → Outcome B}
    → Safe P o
    → ((a : A) → P a → Safe Q (f a))
    → Safe Q (o >>= f)
>>=-Safe (done {a = a} h) k = k a h
>>=-Safe thrown k = thrown

-- After `require b` the code goes on with `b`.
pub require-Safe :
    {B : Type 0} {Q : B → Type 0} (b : Bool) {o : Outcome B}
    → (b ≡ true → Safe Q o)
    → Safe Q (require b >> o)
require-Safe true k = k refl
require-Safe false k = thrown

pub Safe-ok : {A : Type 0} {P : A → Type 0} {a : A} → Safe P (ok a) → P a
Safe-ok (done h) = h

pub if-Safe :
    {A : Type 0} {P : A → Type 0} (b : Bool) {x y : Outcome A}
    → (b ≡ true → Safe P x)
    → (b ≡ false → Safe P y)
    → Safe P (if b then x else y)
if-Safe true h k = h refl
if-Safe false h k = k refl

pub Safe-weaken :
    {A : Type 0} {P Q : A → Type 0} {o : Outcome A} → Safe P o → ((a : A) → P a → Q a) → Safe Q o
Safe-weaken (done {a = a} h) k = done (k a h)
Safe-weaken thrown k = thrown

abbrev pub is_ok : {A : Type 0} → Outcome A → Bool
is_ok (ok a) = true
is_ok (throws e) = false
is_ok fault = false

-- Where the second step's success does not depend on the first one's result.
pub >>=-is_ok :
    {A B : Type 0} (o : Outcome A) (f : A → Outcome B) (b : Bool)
    → ((a : A) → is_ok (f a) ≡ b)
    → is_ok (o >>= f) ≡ (is_ok o && b)
>>=-is_ok (ok a) f b h = h a
>>=-is_ok (throws e) f b h = refl
>>=-is_ok fault f b h = refl

pub require-is_ok :
    {B : Type 0} (test : Bool) (o : Outcome B) → is_ok (require test >> o) ≡ (test && is_ok o)
require-is_ok true o = refl
require-is_ok false o = refl

-- The code returns a result with `P`, without an exception.
pub data Gives {A : Type 0} (P : A → Type 0) : Outcome A → Type 0 where
  gives : {a : A} → P a → Gives P (ok a)

pub >>=-Gives :
    {A B : Type 0} {P : A → Type 0} {Q : B → Type 0} {o : Outcome A} {f : A → Outcome B}
    → Gives P o
    → ((a : A) → P a → Gives Q (f a))
    → Gives Q (o >>= f)
>>=-Gives (gives {a = a} h) k = k a h

pub if-Gives :
    {A : Type 0} {P : A → Type 0} (b : Bool) {x y : Outcome A}
    → (b ≡ true → Gives P x)
    → (b ≡ false → Gives P y)
    → Gives P (if b then x else y)
if-Gives true h k = h refl
if-Gives false h k = k refl

pub Gives-weaken :
    {A : Type 0} {P Q : A → Type 0} {o : Outcome A} → Gives P o → ((a : A) → P a → Q a) → Gives Q o
Gives-weaken (gives {a = a} h) k = gives (k a h)

-- The result itself.
pub Gives-is :
    {A : Type 0} {P : A → Type 0} {o : Outcome A} → Gives P o → Gives (λ a. (o ≡ ok a) × P a) o
Gives-is (gives h) = gives (refl, h)

pub Gives-Safe : {A : Type 0} {P : A → Type 0} {o : Outcome A} → Gives P o → Safe P o
Gives-Safe (gives h) = done h
