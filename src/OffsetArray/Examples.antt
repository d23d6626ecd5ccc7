-- ===== src/OffsetArray/Examples.antt =====
-- Runs of CXArray, and its theorems at concrete arrays. The doubles are numbers here.
use correct_gps.Base.{
  ℕ, ◌+◌, ◌-◌, ◌<◌, ◌≡◌, refl, ◌⊎◌, arith, Ensures, ok, fault, overlapping, out_of_bounds, ◌>>=◌,
  ◌==◌, if◌then◌else◌, ltb, leb, ◌||◌,
}
use correct_gps.OffsetArray.{
  OffsetData, OffsetArray, Poi, new_array, append, array_count, get_gpsxy,
}
use correct_gps.OffsetArray.Slots.{IsAscending, Holds}
use correct_gps.OffsetArray.Order.{append-IsAscending, append-overlaps}
use correct_gps.OffsetArray.Contents.{append-Holds}
use correct_gps.OffsetArray.Linear.{linear, get_gpsxy-linear}

abbrev entry : ℕ → OffsetData ℕ
entry n = record { x = n; dx = n + 1; dy = n + 2 }

abbrev blank : OffsetData ℕ
blank = record { x = 0; dx = 0; dy = 0 }

-- Two entries, the keys 100 and 200.
abbrev pair : OffsetArray ℕ
pair = record {
  arraylng = λ k. if k == 0 then entry 100 else if k == 1 then entry 200 else blank;
  index = 2;
}

here : Poi ℕ
here = record { dx = 1000; dy = 2000 }

built : (append (new_array blank) (entry 100) >>= λ a. append a (entry 200)) ≡ ok pair
unfolding append new_array
built = ground arith

shifted :
    get_gpsxy ◌-◌ pair here (record { dx = 1000; dy = 2000 }) 200
    ≡ ok (record { dx = 799; dy = 1798 })
unfolding get_gpsxy
shifted = refl

pair-IsAscending : IsAscending pair
pair-IsAscending i j le below = ground arith

append-IsAscending_example : Ensures (append pair (entry 150)) IsAscending
append-IsAscending_example =
    append-IsAscending pair (entry 150) pair-IsAscending (omega arith) (omega arith)
      (λ two. omega arith)

append-Holds_example : Ensures (append pair (entry 150)) (λ b.
    ((o : OffsetData ℕ) → Holds pair o → Holds b o)
    × (Holds b (entry 150) ⊎ ((i : ℕ) × (i < 2) × ((pair.arraylng i).x ≡ 150))))
append-Holds_example =
    append-Holds pair (entry 150) (omega arith) (omega arith) (λ two. omega arith)

-- A third entry, the key 300.
abbrev triple : OffsetArray ℕ
triple = record { arraylng = λ k. if k == 2 then entry 300 else pair.arraylng k; index = 3 }

triple-IsAscending : IsAscending triple
triple-IsAscending i j le below = ground arith

append-overlaps_example : append triple (entry 150) ≡ fault overlapping
append-overlaps_example =
    append-overlaps triple (entry 150) triple-IsAscending (omega arith) (omega arith) (omega arith)
      (omega arith) (λ i below. ground arith)

get_gpsxy-linear_example : get_gpsxy ◌-◌ pair here here 200 ≡ (
    if ltb 200 100 || leb (100 + array_count) 200
    then fault out_of_bounds
    else ok (linear ◌-◌ pair here here 200))
get_gpsxy-linear_example =
    get_gpsxy-linear ◌-◌ pair here here 200 (omega arith) (omega arith)
      (λ i j hi hj e f. ground arith)
