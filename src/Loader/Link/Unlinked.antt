-- ===== src/Loader/Link/Unlinked.antt =====
-- The daemon without its database.
use correct_gps.Base.{
  ℕ, ◌≡◌, refl, subst, pos, codes, Yields, Yields-after, Bool, true, false, List, [], ◌++◌, Bytes,
  Option, some, ok, replicate,
}
use correct_gps.Client.{Client}
use correct_gps.Tools.Items.{find, file_to_items}
use correct_gps.Tools.Coordinate.{chang2uint}
use correct_gps.OffsetArray.{OffsetData, Poi}
use correct_gps.Correct.{Doubles, find_info, correctgps_worker}
use correct_gps.Correct.Shift.{correctgps_worker-unmapped}
use correct_gps.Loader.{Batch}
use correct_gps.Loader.Link.{
  Database, new_database, port_or, read_settings, connect_database, data_base_ini, load_db,
  load_offsets_of,
}

-- A new object has no connection, whatever the file says.
IsUnconnected : Database → Type 0
IsUnconnected db = db.connected ≡ false

read_settings-IsUnconnected :
    (file : Option Bytes) → Yields IsUnconnected (read_settings file new_database)
unfolding read_settings IsUnconnected
read_settings-IsUnconnected file =
    Yields-after IsUnconnected (file_to_items file []) _ λ r.
      Yields-after IsUnconnected (port_or (pos 3306) (find (codes "db_port") r.1)) _ λ port. refl

module _ {D : Type 0} (d : Doubles D) (zero_entry : OffsetData D) where
  -- Where mysql_init gives an object, the connection to the database fails and four calls of
  -- mysql_ping in a row find no link, main goes on with an empty map and without the exit flag,
  -- once the settings of the database are read: the worker then takes the Baidu coordinates of
  -- every request, unshifted, for its position.
  pub load_offsets_of-unshifted :
      (file : Option Bytes) (link pings : List Bool) (batches : List Batch) (db : Database)
      (gpsxy : Poi D) (c : Client D) (y : ℕ)
      → read_settings file new_database ≡ ok db
      → chang2uint c.ybaidu ≡ ok y
      → (load_offsets_of d zero_entry file true false (replicate 4 false ++ link) pings batches
          ≡ ok (some ([], false)))
        × (correctgps_worker d [] gpsxy c
            ≡ ok (record c { xgps = d.atof c.xbaidu; ygps = d.atof c.ybaidu; status = 2 }))
  unfolding load_offsets_of data_base_ini connect_database load_db
  load_offsets_of-unshifted file link pings batches db gpsxy c y settings latitude = (
    let new : db.connected ≡ false =
          unfold IsUnconnected in
          subst (Yields IsUnconnected) settings (read_settings-IsUnconnected file) in
        rw (settings, new) refl,
    correctgps_worker-unmapped d [] gpsxy c y latitude (unfold find_info in refl),
  )
