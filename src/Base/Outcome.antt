-- ===== src/Base/Outcome.antt =====
-- The outcome of code that may leave the bounds of an array or stop at a failed assert.
use mathlib.Core.Path.{◌≡◌, refl}

-- `dangling` is the use of what was deleted, `bad_format` a conversion of printf with no argument,
-- `other_format` one that the model does not read, `overlapping` a memcpy or strcpy between regions
-- that overlap, which C leaves undefined.
pub data Fault : Type 0 where
  out_of_bounds null_pointer dangling aborted bad_format other_format overlapping : Fault

pub data Run {ℓ} (A : Type ℓ) : Type ℓ where
  ok : A → Run A
  fault : Fault → Run A

infixl 5 ◌>>=◌ ◌>>◌
abbrev pub ◌>>=◌ {ℓ κ} : {A : Type ℓ} {B : Type κ} → Run A → (A → Run B) → Run B
ok a >>= f = f a
fault e >>= f = fault e

abbrev pub ◌>>◌ {ℓ} : {B : Type ℓ} → Run (Unit {0}) → Run B → Run B
m >> k = m >>= λ _. k

-- The run ends with no fault, in a value with the property.
abbrev pub Ensures {ℓ} : {A : Type ℓ} → Run A → (A → Type 0) → Type 0
Ensures (ok a) P = P a
Ensures (fault e) P = ⊥

pub Ensures-ok {ℓ} :
    {A : Type ℓ} (P : A → Type 0) (r : Run A) → Ensures r P → (a : A) × (r ≡ ok a) × P a
Ensures-ok P (ok a) h = (a, refl, h)
Ensures-ok P (fault e) h = absurd h

pub Ensures-map {ℓ} :
    {A : Type ℓ} (P Q : A → Type 0) (r : Run A) → ((x : A) → P x → Q x) → Ensures r P → Ensures r Q
Ensures-map P Q (ok x) f h = f x h
Ensures-map P Q (fault e) f h = h

-- The run stays in bounds: it ends in a value with the property, at a failed assert, or at a copy
-- between regions that overlap.
abbrev pub Within {ℓ} : {A : Type ℓ} → (A → Type 0) → Run A → Type 0
Within P (ok a) = P a
Within P (fault out_of_bounds) = ⊥
Within P (fault null_pointer) = ⊥
Within P (fault dangling) = ⊥
Within P (fault bad_format) = ⊥
Within P (fault other_format) = ⊥
Within P (fault overlapping) = Unit
Within P (fault aborted) = Unit

pub Within-bind {ℓ κ} :
    {A : Type ℓ} {B : Type κ} (P : A → Type 0) (Q : B → Type 0) (m : Run A) (f : A → Run B)
    → Within P m
    → ((a : A) → P a → Within Q (f a))
    → Within Q (m >>= f)
Within-bind P Q (ok a) f h k = k a h
Within-bind P Q (fault aborted) f h k = tt
Within-bind P Q (fault out_of_bounds) f h k = h
Within-bind P Q (fault null_pointer) f h k = h
Within-bind P Q (fault dangling) f h k = h
Within-bind P Q (fault bad_format) f h k = h
Within-bind P Q (fault other_format) f h k = h
Within-bind P Q (fault overlapping) f h k = tt

pub Ensures-Within {ℓ} : {A : Type ℓ} (P : A → Type 0) (r : Run A) → Ensures r P → Within P r
Ensures-Within P (ok a) h = h
Ensures-Within P (fault e) h = absurd h

-- If the run ends with no fault, its value has the property.
abbrev pub Yields {ℓ κ} : {A : Type ℓ} → (A → Type κ) → Run A → Type κ
Yields P (ok a) = P a
Yields P (fault e) = Unit

pub Yields-bind {ℓ κ μ ν} :
    {A : Type ℓ} {B : Type κ} (P : A → Type μ) (Q : B → Type ν) (m : Run A) (f : A → Run B)
    → Yields P m
    → ((a : A) → P a → Yields Q (f a))
    → Yields Q (m >>= f)
Yields-bind P Q (ok a) f h k = k a h
Yields-bind P Q (fault e) f h k = tt

-- Whatever the first run gives.
pub Yields-after {ℓ κ ν} :
    {A : Type ℓ} {B : Type κ} (Q : B → Type ν) (m : Run A) (f : A → Run B)
    → ((a : A) → Yields Q (f a))
    → Yields Q (m >>= f)
Yields-after Q (ok a) f k = k a
Yields-after Q (fault e) f k = tt

pub Ensures-bind {ℓ κ} :
    {A : Type ℓ} {B : Type κ} (P : A → Type 0) (Q : B → Type 0) (m : Run A) (f : A → Run B)
    → Ensures m P
    → ((a : A) → P a → Ensures (f a) Q)
    → Ensures (m >>= f) Q
Ensures-bind P Q (ok a) f h k = k a h
Ensures-bind P Q (fault e) f h k = h

pub Yields-both {ℓ κ μ} :
    {A : Type ℓ} (P : A → Type κ) (Q : A → Type μ) (r : Run A)
    → Yields P r
    → Yields Q r
    → Yields (λ a. P a × Q a) r
Yields-both P Q (ok a) p q = (p, q)
Yields-both P Q (fault e) p q = tt

pub Yields-map {ℓ κ μ} :
    {A : Type ℓ} (P : A → Type κ) (Q : A → Type μ) (r : Run A)
    → ((a : A) → P a → Q a)
    → Yields P r
    → Yields Q r
Yields-map P Q (ok a) f p = f a p
Yields-map P Q (fault e) f p = tt

pub Yields-any {ℓ} : {A : Type ℓ} (r : Run A) → Yields (λ a. Unit {0}) r
Yields-any (ok a) = tt
Yields-any (fault e) = tt
