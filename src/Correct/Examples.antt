-- ===== src/Correct/Examples.antt =====
-- Runs of the worker, and its theorems at concrete requests. The doubles are numbers here, and
-- atof reads the length of its text.
use correct_gps.Base.{
  ℕ, ◌+◌, ◌-◌, ◌<◌, ◌≡◌, refl, [], ◌∷◌, Bytes, ◌≢◌, length, codes, arith, Ensures, ok, none, some,
  ◌==◌, if◌then◌else◌,
}
use correct_gps.OffsetArray.{OffsetData, OffsetArray, Poi, array_count}
use correct_gps.Client.{Client}
use correct_gps.Tools.Coordinate.{chang2uint, chang_loop}
use correct_gps.Tools.Chars.{atoi_cells}
use correct_gps.Correct.{InfoMap, find_info, Doubles, correctgps_worker}
use correct_gps.Correct.Shift.{correctgps_worker-unset}

abbrev numbers : Doubles ℕ
numbers = record { atof = λ s. 1000 + length s; sub = ◌-◌ }

abbrev item : ℕ → OffsetData ℕ
item n = record { x = n; dx = n + 1; dy = n + 2 }

-- Two longitudes, 100 and 200.
abbrev row : OffsetArray ℕ
row = record {
  arraylng = λ k. if k == 0 then item 100 else if k == 1 then item 200 else item 0;
  index = 2;
}

-- The row of the latitude 0.20.
abbrev city : InfoMap ℕ
city = (20, row) ∷ []

abbrev stack : Poi ℕ
stack = record { dx = 7; dy = 9 }

abbrev asking : Bytes → Bytes → Client ℕ
asking x y = record {
  fd = 5;
  offset = 0;
  iobuf = λ k. 0;
  serial = [];
  md5 = [];
  xbaidu = x;
  ybaidu = y;
  xgps = 0;
  ygps = 0;
  status = 1;
  delay_time = 0;
}

reads : chang2uint (codes "1.50") ≡ ok 150
unfolding chang2uint chang_loop atoi_cells
reads = refl

row_y : chang2uint (codes "0.20") ≡ ok 20
unfolding chang2uint chang_loop atoi_cells
row_y = refl

far_y : chang2uint (codes "0.30") ≡ ok 30
unfolding chang2uint chang_loop atoi_cells
far_y = refl

row_found : find_info 20 city ≡ some row
unfolding find_info
row_found = refl

row_missing : find_info 30 city ≡ none
unfolding find_info
row_missing = refl

lacks_150 : (k : ℕ) → k < array_count → (row.arraylng k).x ≢ 150
lacks_150 k p = ground arith

correctgps_worker-unset_example :
    Ensures
      (correctgps_worker numbers city stack (asking (codes "1.50") (codes "0.20")))
      (λ c. (c.xgps ≡ 7) × (c.ygps ≡ 9) × (c.status ≡ 2))
correctgps_worker-unset_example =
    correctgps_worker-unset numbers city stack (asking (codes "1.50") (codes "0.20")) 20 row_y row
      150 row_found reads (omega arith) (omega arith) (omega arith) lacks_150
