-- ===== src/Base/Fds.antt =====
-- Lists of file descriptors: those that the process has open, and those that epoll watches.
use Prim.Native.Nat.{ℕ, ◌+◌}
use mathlib.Core.Path.{◌≡◌, refl}
use mathlib.Core.Bool.{Bool, true, false}
use mathlib.Core.List.{List, [], ◌∷◌}
use native.Mathlib.Omega.{arith}
use correct_gps.Base.Tests.{◌==◌, if◌then◌else◌}
use correct_gps.Base.Lists.{length}

abbrev pub contains : List ℕ → ℕ → Bool
contains [] fd = false
contains (g ∷ gs) fd = if g == fd then true else contains gs fd

abbrev pub without : ℕ → List ℕ → List ℕ
without fd [] = []
without fd (g ∷ gs) = let rest = without fd gs in if g == fd then rest else g ∷ rest

-- No descriptor twice.
abbrev pub IsDistinct : List ℕ → Type 0
IsDistinct [] = Unit
IsDistinct (g ∷ gs) = (contains gs g ≡ false) × IsDistinct gs

pub contains-without_ne :
    (fd g : ℕ) (l : List ℕ) → contains l g ≡ false → contains (without fd l) g ≡ false
contains-without_ne fd g [] h = refl
contains-without_ne fd g (x ∷ l) h = ground (arith, contains-without_ne fd g l)

pub contains-without_other :
    (fd g : ℕ) (l : List ℕ) → (g == fd) ≡ false → contains (without fd l) g ≡ contains l g
contains-without_other fd g [] h = refl
contains-without_other fd g (x ∷ l) h = ground (arith, contains-without_other fd g l h)

pub without-IsDistinct : (fd : ℕ) (l : List ℕ) → IsDistinct l → IsDistinct (without fd l)
without-IsDistinct fd [] h = tt
without-IsDistinct fd (g ∷ l) h =
    ground (arith, without-IsDistinct fd l h.1, contains-without_ne fd g l h.0)

pub without-absent : (fd : ℕ) (l : List ℕ) → contains l fd ≡ false → without fd l ≡ l
without-absent fd [] h = refl
without-absent fd (g ∷ l) h = ground (arith, without-absent fd l)

pub length-without :
    (fd : ℕ) (l : List ℕ)
    → IsDistinct l
    → contains l fd ≡ true
    → length (without fd l) + 1 ≡ length l
length-without fd [] h c = cc
length-without fd (g ∷ l) h c = ground (arith, length-without fd l h.1, without-absent fd l)

pub contains-without_same : (fd : ℕ) (l : List ℕ) → contains (without fd l) fd ≡ false
contains-without_same fd [] = refl
contains-without_same fd (g ∷ l) = ground (arith, contains-without_same fd l)
