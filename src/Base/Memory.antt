-- ===== src/Base/Memory.antt =====
-- A C array as a function from its indices. Its bound is not part of it: code that indexes an array
-- tests the index against the bound that the source declares, and faults outside it.
use Prim.Native.Nat.{ℕ, zero, suc, ◌+◌, ◌-◌}
use mathlib.Core.Bool.{◌&&◌}
use mathlib.Core.Path.{◌≡◌, refl, ap}
use mathlib.Core.List.{List, [], ◌∷◌}
use package.correct_gps.Base.Tests.{ltb, leb, ◌==◌, if◌then◌else◌}
use package.correct_gps.Base.Lists.{length, get_or}

abbrev pub Cells {ℓ} : Type ℓ → Type ℓ
Cells A = ℕ → A

module _ {ℓ} {A : Type ℓ} where
  -- a[i] = v
  abbrev pub write : Cells A → ℕ → A → Cells A
  write a i v k = if k == i then v else a k

  -- memcpy (a + dst, a + src, n cells) inside one array, with the result that memmove gives where
  -- the ranges overlap
  abbrev pub move : Cells A → ℕ → ℕ → ℕ → Cells A
  move a dst src n k = if leb dst k && ltb k (dst + n) then a (src + (k - dst)) else a k

  -- the n cells from i on
  abbrev pub slice : Cells A → ℕ → ℕ → List A
  slice a i zero = []
  slice a i (suc n) = a i ∷ slice a (i + 1) n

  -- the cells from i on take the values of a list
  abbrev pub store : Cells A → ℕ → List A → Cells A
  store a i vs k = if leb i k && ltb k (i + length vs) then get_or vs (k - i) (a k) else a k

  pub length-slice : (a : Cells A) (i n : ℕ) → length (slice a i n) ≡ n
  length-slice a i zero = refl
  length-slice a i (suc n) = ap suc (length-slice a (i + 1) n)
