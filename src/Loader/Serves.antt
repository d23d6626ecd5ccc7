-- ===== src/Loader/Serves.antt =====
-- What the service promises for the table of its database, and that the loader and the worker keep
-- the promise.
use correct_gps.Base.{
  ℕ, ◌≡◌, refl, subst, ap, List, [], ◌∷◌, ◌++◌, Option, none, some, ok, arith, Ensures,
  Ensures-bind, Bool, true, false, map, All, Among, length,
}
use correct_gps.OffsetArray.{OffsetData, OffsetArray, Poi}
use correct_gps.OffsetArray.Table.{get_gpsxy-Represents}
use correct_gps.Client.{Client}
use correct_gps.Tools.Coordinate.{chang2uint}
use correct_gps.Correct.{InfoMap, Doubles, find_info, baidu_of, correctgps_worker}
use correct_gps.Correct.Shift.{ShiftedBy, correctgps_worker-ShiftedBy, correctgps_worker-unmapped}
use correct_gps.Loader.{Batch, checklink, load_rows, getdb}
use correct_gps.Loader.Batches.{stored_rows, getdb-three_batches}
use correct_gps.Loader.Table.{
  TableRow, HasCell, as_row, entry, at_latitude, IsLoadable, Among-at_latitude, Stores, Stored,
  load_rows-Stored,
}

-- What the service promises for a table: the correction of a request is the shift by the offsets of
-- the row of its cell, and none where no row has its latitude.
pub record Serves {D : Type 0} (d : Doubles D) (rows : List TableRow) (m : InfoMap D) : Type 0 where
  pub shifts :
      (r : TableRow) (c : Client D) (gpsxy : Poi D)
      → Among r rows
      → chang2uint c.ybaidu ≡ ok r.y
      → chang2uint c.xbaidu ≡ ok r.x
      → Ensures (correctgps_worker d m gpsxy c) (ShiftedBy d (entry d r) c)
  pub passes :
      (y : ℕ) (c : Client D) (gpsxy : Poi D)
      → at_latitude d y rows ≡ []
      → chang2uint c.ybaidu ≡ ok y
      → correctgps_worker d m gpsxy c
        ≡ ok (record c { xgps = d.atof c.xbaidu; ygps = d.atof c.ybaidu; status = 2 })

module _ {D : Type 0} (d : Doubles D) (rows : List TableRow) where
  pub Stored-Serves : (m : InfoMap D) → Stored d m rows → Serves d rows m
  Stored-Serves m h = record {
    shifts = λ r c gpsxy among latitude longitude.
        by_row r c gpsxy latitude longitude (Among-at_latitude d r rows among) (find_info r.y m)
          refl (h r.y);
    passes = λ y c gpsxy none_there latitude.
        by_latitude y c gpsxy latitude none_there (find_info y m) refl (h y);
  }
    where
      by_row :
          (r : TableRow) (c : Client D) (gpsxy : Poi D)
          → chang2uint c.ybaidu ≡ ok r.y
          → chang2uint c.xbaidu ≡ ok r.x
          → Among (entry d r) (at_latitude d r.y rows)
          → (o : Option (OffsetArray D)) → find_info r.y m ≡ o
          → Stores d o (at_latitude d r.y rows)
          → Ensures (correctgps_worker d m gpsxy c) (ShiftedBy d (entry d r) c)
      by_row r c gpsxy latitude longitude among none e s =
          absurd (subst (Among (entry d r)) s among)
      by_row r c gpsxy latitude longitude among (some a) e (s, used) =
          correctgps_worker-ShiftedBy d m gpsxy c r.y a (entry d r) latitude longitude e (
            get_gpsxy-Represents a (at_latitude d r.y rows) d.sub gpsxy (baidu_of d c) (entry d r) s
              among)

      by_latitude :
          (y : ℕ) (c : Client D) (gpsxy : Poi D)
          → chang2uint c.ybaidu ≡ ok y
          → at_latitude d y rows ≡ []
          → (o : Option (OffsetArray D)) → find_info y m ≡ o
          → Stores d o (at_latitude d y rows)
          → correctgps_worker d m gpsxy c
            ≡ ok (record c { xgps = d.atof c.xbaidu; ygps = d.atof c.ybaidu; status = 2 })
      by_latitude y c gpsxy latitude empty none e s =
          correctgps_worker-unmapped d m gpsxy c y latitude e
      by_latitude y c gpsxy latitude empty (some a) e (s, used) =
          absurd (let k : length (at_latitude d y rows) ≡ 0 = ap length empty in omega arith)

-- The loader ended with a map that serves the table, and without setting the exit flag.
abbrev pub LoadedTable :
    {D : Type 0} → Doubles D → List TableRow → Option (InfoMap D × Bool) → Type 0
LoadedTable d rows none = ⊥
LoadedTable d rows (some (m, failed)) = Serves d rows m × (failed ≡ false)

-- With a link to the database and no error in its three batches, a table whose rows have the cells
-- of their texts, and in which each row has a longitude key above zero and above those of the rows
-- of its latitude before it, within 32 bits and within the size of the array from the first of
-- them, with room left in the array, is loaded with no fault into a map that serves it: every
-- request in the cell of a row is shifted by just the offsets of that row, and every request at a
-- latitude of no row keeps its position.
pub getdb-LoadedTable :
    {D : Type 0} (d : Doubles D) (zero_entry : OffsetData D) (pings : List Bool)
    (first second third : List TableRow) (later : List Batch)
    → zero_entry.x ≡ 0
    → checklink 0 pings ≡ some true
    → IsLoadable d [] first
    → IsLoadable d first second
    → IsLoadable d (first ++ second) third
    → All HasCell first
    → All HasCell second
    → All HasCell third
    → Ensures
        (getdb d zero_entry [] pings (
          stored_rows (map as_row first)
          ∷ stored_rows (map as_row second)
          ∷ stored_rows (map as_row third)
          ∷ later))
        (LoadedTable d ((first ++ second) ++ third))
getdb-LoadedTable d zero_entry pings first second third later zeroed linked l1 l2 l3 c1 c2 c3 =
    rw
      (getdb-three_batches d zero_entry [] pings (map as_row first) (map as_row second)
        (map as_row third) later linked)
      (Ensures-bind (λ m. Stored d m first) _ (load_rows d zero_entry [] (map as_row first)) _
        (load_rows-Stored d zero_entry zeroed [] [] first (λ y. unfold find_info in refl) l1 c1)
        (λ m1 s1.
          Ensures-bind (λ m. Stored d m (first ++ second)) _
            (load_rows d zero_entry m1 (map as_row second)) _
            (load_rows-Stored d zero_entry zeroed m1 first second s1 l2 c2)
            (λ m2 s2.
              Ensures-bind (λ m. Stored d m ((first ++ second) ++ third)) _
                (load_rows d zero_entry m2 (map as_row third)) _
                (load_rows-Stored d zero_entry zeroed m2 (first ++ second) third s2 l3 c3)
                (λ m3 s3. (Stored-Serves d ((first ++ second) ++ third) m3 s3, refl)))))
