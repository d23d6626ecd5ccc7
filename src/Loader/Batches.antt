-- ===== src/Loader/Batches.antt =====
-- The batches that the loader reads.
use correct_gps.Base.{
  ℕ, ◌+◌, ◌≡◌, ◌∙◌, refl, Bool, true, false, List, [], ◌∷◌, some, Run, ok, fault, ◌>>=◌, arith, ltb,
}
use correct_gps.OffsetArray.{OffsetData}
use correct_gps.Correct.{InfoMap, Doubles}
use correct_gps.Loader.{
  Row, Batch, other, checklink, count_per_read, max_record, load_rows, read_batches, getdb,
}

-- A batch that is read with no error, while allExitFlag is not set.
abbrev pub stored_rows : List Row → Batch
stored_rows rows = record { exit_flag = false; query = other; stored = some rows }

module _ {D : Type 0} (d : Doubles D) (zero_entry : OffsetData D) where
  read_batches-end :
      (m : InfoMap D) (later : List Batch)
      → read_batches d zero_entry max_record m later ≡ ok (some (m, false))
  unfolding read_batches
  read_batches-end m [] = refl
  read_batches-end m (b ∷ later) = ground arith

  read_batches-step :
      (n : ℕ) (m : InfoMap D) (rows : List Row) (later : List Batch)
      → ltb n max_record ≡ true
      → read_batches d zero_entry n m (stored_rows rows ∷ later) ≡ (
          load_rows d zero_entry m rows >>= λ m'.
          read_batches d zero_entry (n + count_per_read) m' later)
  unfolding read_batches
  read_batches-step n m rows later more = ground arith

  getdb-linked :
      (m : InfoMap D) (pings : List Bool) (batches : List Batch)
      → checklink 0 pings ≡ some true
      → getdb d zero_entry m pings batches ≡ read_batches d zero_entry 0 m batches
  unfolding getdb
  getdb-linked m pings batches linked = ground arith

  -- With a link to the database and no error, the loader reads three batches and no more, each into
  -- the map that the one before has left, and ends without setting the exit flag; a fault of a batch
  -- is one of the loader.
  pub getdb-three_batches :
      (m : InfoMap D) (pings : List Bool) (first second third : List Row) (later : List Batch)
      → checklink 0 pings ≡ some true
      → getdb d zero_entry m pings
          (stored_rows first ∷ stored_rows second ∷ stored_rows third ∷ later)
        ≡ (load_rows d zero_entry m first >>= λ m1. load_rows d zero_entry m1 second >>= λ m2.
            load_rows d zero_entry m2 third >>= λ m3. ok (some (m3, false)))
  getdb-three_batches m pings first second third later linked =
      getdb-linked m pings (stored_rows first ∷ stored_rows second ∷ stored_rows third ∷ later)
        linked
      ∙ read_batches-step 0 m first (stored_rows second ∷ stored_rows third ∷ later) refl
      ∙ after_first (load_rows d zero_entry m first)
    where
      after_second :
          (r : Run (InfoMap D))
          → (r >>= λ m2.
              read_batches d zero_entry
                (count_per_read + count_per_read)
                m2
                (stored_rows third ∷ later))
            ≡ (r >>= λ m2. load_rows d zero_entry m2 third >>= λ m3. ok (some (m3, false)))
      after_second (fault e) = refl
      after_second (ok m2) =
          read_batches-step (count_per_read + count_per_read) m2 third later refl
          ∙ at_end (load_rows d zero_entry m2 third)
        where
          at_end :
              (r : Run (InfoMap D))
              → (r >>= λ m3. read_batches d zero_entry max_record m3 later)
                ≡ (r >>= λ m3. ok (some (m3, false)))
          at_end (fault e) = refl
          at_end (ok m3) = read_batches-end m3 later

      after_first :
          (r : Run (InfoMap D))
          → (r >>= λ m1.
              read_batches d zero_entry count_per_read m1
                (stored_rows second ∷ stored_rows third ∷ later))
            ≡ (r >>= λ m1. load_rows d zero_entry m1 second >>= λ m2.
                load_rows d zero_entry m2 third >>= λ m3. ok (some (m3, false)))
      after_first (fault e) = refl
      after_first (ok m1) =
          read_batches-step count_per_read m1 second (stored_rows third ∷ later) refl
          ∙ after_second (load_rows d zero_entry m1 second)
