-- ===== src/Loader.antt =====
-- Cdbdo::checklink, getResult and getdb (src/dbdo.h, src/dbdo.cpp, the USE_ARRAY build): the offsets
-- of the database are read in batches into the map of the latitudes. What the database gives is an
-- argument.
pub mod Shifts
pub mod Batches
pub mod Table
pub mod Serves
pub mod Link
mod Examples
use correct_gps.Base.{
  ℕ, zero, suc, ◌+◌, Bool, true, false, List, [], ◌∷◌, Bytes, Option, none, some, ltb, ◌==◌,
  if◌then◌else◌, Run, ok, fault, ◌>>=◌, ◌||◌,
}
use correct_gps.OffsetArray.{OffsetData, OffsetArray, new_array, append}
use correct_gps.Tools.Coordinate.{chang2uint}
use correct_gps.Correct.{InfoMap, Doubles, find_info}

-- A row of the result; a column is none for NULL.
pub record Row : Type 0 where
  pub lat : Option Bytes
  pub lng : Option Bytes
  pub offsetlng : Option Bytes
  pub offsetlat : Option Bytes

module _ {D : Type 0} where
  -- What is written through it->second.
  unfoldable pub put_info : ℕ → OffsetArray D → InfoMap D → InfoMap D
  put_info key b [] = []
  put_info key b ((k, a) ∷ m) =
      let rest = put_info key b m in if k == key then (k, b) ∷ m else (k, a) ∷ rest

  -- An entry goes to the array of its latitude, or to a new one; `zero_entry` is what memset leaves
  -- in the slots of a new array.
  unfoldable pub add_entry : OffsetData D → ℕ → OffsetData D → InfoMap D → Run (InfoMap D)
  add_entry zero_entry key e m = elim (find_info key m) [
    | none ↦ append (new_array zero_entry) e >>= λ b. ok ((key, b) ∷ m)
    | some a ↦ append a e >>= λ b. ok (put_info key b m)
  ]

module _ {D : Type 0} (d : Doubles D) (zero_entry : OffsetData D) where
  -- The columns of the offsets, behind those of the keys.
  unfoldable pub load_offsets : InfoMap D → Row → ℕ → ℕ → Run (Option (InfoMap D))
  unfolding add_entry
  load_offsets m row key lngkey = elim row.offsetlng [
    | none ↦ ok none
    | some dx ↦ elim row.offsetlat [
      | none ↦ ok none
      | some dy ↦
          add_entry zero_entry key (record { x = lngkey; dx = d.atof dx; dy = d.atof dy }) m
          >>= λ n. ok (some n)
    ]
  ]

  -- One row, with its columns tested in turn. None: a column is NULL, and the batch ends.
  unfoldable pub load_row : InfoMap D → Row → Run (Option (InfoMap D))
  unfolding load_offsets
  load_row m row = elim row.lat [
    | none ↦ ok none
    | some lat ↦ chang2uint lat >>= λ key. elim row.lng [
      | none ↦ ok none
      | some lng ↦ chang2uint lng >>= λ lngkey. load_offsets m row key lngkey
    ]
  ]

  -- The loop over the rows of a batch.
  unfoldable pub load_rows : InfoMap D → List Row → Run (InfoMap D)
  load_rows m [] = ok m
  load_rows m (row ∷ rows) =
      load_row m row >>= λ o. elim o [ none ↦ ok m | some n ↦ load_rows n rows ]

-- What mysql_query returns: one of the four errors of getResult, of which the last sets its flag, or
-- another value. The errors fall through to the last.
pub data Query : Type 0 where
  out_of_sync server_gone server_lost unknown_error other : Query

-- boolresult, and what mysql_store_result gives (none for NULL)
abbrev pub get_result : Query → Option (List Row) → Bool × Option (List Row)
get_result out_of_sync stored = (false, stored)
get_result server_gone stored = (false, stored)
get_result server_lost stored = (false, stored)
get_result unknown_error stored = (false, stored)
get_result other stored = (true, stored)

-- The result of a batch, where neither test of it fails.
abbrev pub usable : Bool × Option (List Row) → Option (List Row)
usable (false, stored) = none
usable (true, stored) = stored

-- The answers of mysql_ping, true for a link. The fourth failure ends the loop; none is for answers
-- that end before.
abbrev pub checklink : ℕ → List Bool → Option Bool
checklink n [] = none
checklink n (true ∷ later) = some true
checklink n (false ∷ later) = if ltb 3 (n + 1) then some false else checklink (n + 1) later

-- Before each batch: allExitFlag, and the answers to its query.
pub record Batch : Type 0 where
  pub exit_flag : Bool
  pub query : Query
  pub stored : Option (List Row)

-- MAX_RECORD and COUNT_PER_READ
abbrev pub max_record : ℕ
max_record = 30000000

abbrev pub count_per_read : ℕ
count_per_read = 10000000

module _ {D : Type 0} (d : Doubles D) (zero_entry : OffsetData D) where
  -- The loop over the batches from record n on: the map, and whether the loader set allExitFlag. The
  -- outer none is for batches that end before the loop does.
  unfoldable pub read_batches : ℕ → InfoMap D → List Batch → Run (Option (InfoMap D × Bool))
  read_batches n m [] = ok (if ltb n max_record then none else some (m, false))
  read_batches n m (b ∷ later) =
      if b.exit_flag
      then ok (some (m, false))
      else if ltb n max_record
      then elim (usable (get_result b.query b.stored)) [
        | none ↦ ok (some (m, true))
        | some rows ↦
            load_rows d zero_entry m rows >>= λ m'. read_batches (n + count_per_read) m' later
      ]
      else ok (some (m, false))

  unfoldable pub getdb : InfoMap D → List Bool → List Batch → Run (Option (InfoMap D × Bool))
  unfolding read_batches
  getdb m pings batches = elim (checklink 0 pings) [
    | none ↦ ok none
    | some false ↦ ok (some (m, false))
    | some true ↦ read_batches 0 m batches
  ]
