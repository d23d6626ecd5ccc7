-- ===== src/Loader/Shifts.antt =====
-- From a row of the database to the shift of a request.
use correct_gps.Base.{ℕ, ◌≡◌, refl, [], ◌∷◌, Bytes, none, some, ok, ◌>>=◌, arith}
use correct_gps.OffsetArray.{OffsetData, OffsetArray, new_array, append}
use correct_gps.Tools.Coordinate.{chang2uint}
use correct_gps.Correct.{InfoMap, Doubles, find_info}
use correct_gps.Loader.{Row, put_info, add_entry, load_offsets, load_row}

-- A row with all of its columns.
abbrev pub whole_row : (lat lng dx dy : Bytes) → Row
whole_row lat lng dx dy = record {
  lat = some lat;
  lng = some lng;
  offsetlng = some dx;
  offsetlat = some dy;
}

module _ {D : Type 0} where
  pub find-put :
      (y : ℕ) (a b : OffsetArray D) (m : InfoMap D)
      → find_info y m ≡ some a
      → find_info y (put_info y b m) ≡ some b
  unfolding find_info put_info
  find-put y a b [] h = cc
  find-put y a b ((k, e) ∷ m) h = ground (arith, find-put y a b m)

  pub find-front : (y : ℕ) (b : OffsetArray D) (m : InfoMap D) → find_info y ((y, b) ∷ m) ≡ some b
  unfolding find_info
  find-front y b m = ground arith

  pub add-missing :
      (zero_entry : OffsetData D) (y : ℕ) (e : OffsetData D) (m : InfoMap D)
      → find_info y m ≡ none
      → add_entry zero_entry y e m ≡ (append (new_array zero_entry) e >>= λ b. ok ((y, b) ∷ m))
  unfolding add_entry
  add-missing zero_entry y e m h = ground arith

  pub add-found :
      (zero_entry : OffsetData D) (y : ℕ) (e : OffsetData D) (m : InfoMap D) (a : OffsetArray D)
      → find_info y m ≡ some a
      → add_entry zero_entry y e m ≡ (append a e >>= λ b. ok (put_info y b m))
  unfolding add_entry
  add-found zero_entry y e m a h = ground arith

module _ {D : Type 0} (d : Doubles D) (zero_entry : OffsetData D) where
  pub load_row-whole :
      (lat lng dx dy : Bytes) (y x : ℕ) (m : InfoMap D)
      → chang2uint lat ≡ ok y
      → chang2uint lng ≡ ok x
      → load_row d zero_entry m (whole_row lat lng dx dy) ≡ (
          add_entry zero_entry y (record { x = x; dx = d.atof dx; dy = d.atof dy }) m >>= λ n.
          ok (some n))
  unfolding load_row load_offsets
  load_row-whole lat lng dx dy y x m hy hx = rw (hy, hx) refl
