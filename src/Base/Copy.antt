-- ===== src/Base/Copy.antt =====
-- memcpy and strcpy inside one array: defined where the two regions have no cell in common.
use Prim.Native.Nat.{ℕ, ◌+◌}
use mathlib.Core.Bool.{Bool, ◌||◌}
use package.correct_gps.Base.Tests.{leb, if◌then◌else◌}
use package.correct_gps.Base.Memory.{Cells, move}
use package.correct_gps.Base.Outcome.{Run, ok, fault, overlapping}

abbrev pub disjoint : (dst src n : ℕ) → Bool
disjoint dst src n = leb (dst + n) src || leb (src + n) dst

-- memcpy (a + dst, a + src, n cells)
abbrev pub copy : {A : Type 0} → Cells A → (dst src n : ℕ) → Run (Cells A)
copy a dst src n = if disjoint dst src n then ok (move a dst src n) else fault overlapping
