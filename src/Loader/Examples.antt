-- ===== src/Loader/Examples.antt =====
-- The theorems on the loader at concrete rows. The doubles are numbers here, and atof reads the
-- length of its text.
use correct_gps.Base.{
  some, pos, replicate, false, ◌++◌, map, ℕ, ◌+◌, ◌-◌, ◌≡◌, refl, [], ◌∷◌, codes, length, ok, arith,
  Ensures, true,
}
use correct_gps.OffsetArray.{OffsetData, Poi}
use correct_gps.Client.{Client}
use correct_gps.Tools.Coordinate.{chang2uint, chang_loop}
use correct_gps.Tools.Chars.{atoi_cells}
use correct_gps.Correct.{Doubles, correctgps_worker}
use correct_gps.Loader.{getdb}
use correct_gps.Loader.Table.{TableRow, as_row, IsLoadable}
use correct_gps.Loader.Serves.{LoadedTable, getdb-LoadedTable}
use correct_gps.Tools.Items.{find, insert}
use correct_gps.Tools.Items.File.{Item, Fits, print_items, file_to_items-print}
use correct_gps.Config.{text_or}
use correct_gps.Loader.Link.{new_database, port_or, read_settings, load_offsets_of}
use correct_gps.Loader.Link.Unlinked.{load_offsets_of-unshifted}
use correct_gps.Loader.Batches.{stored_rows}

abbrev numbers : Doubles ℕ
numbers = record { atof = λ s. 1000 + length s; sub = ◌-◌ }

abbrev zero_entry : OffsetData ℕ
zero_entry = record { x = 0; dx = 0; dy = 0 }

abbrev stack : Poi ℕ
stack = record { dx = 7; dy = 9 }

abbrev phone : Client ℕ
phone = record {
  fd = 5;
  offset = 0;
  iobuf = λ k. 0;
  serial = [];
  md5 = [];
  xbaidu = codes "1.501";
  ybaidu = codes "0.209";
  xgps = 0;
  ygps = 0;
  status = 1;
  delay_time = 0;
}

lat_key : chang2uint (codes "0.20") ≡ ok 20
unfolding chang2uint chang_loop atoi_cells
lat_key = refl

lng_key : chang2uint (codes "1.50") ≡ ok 150
unfolding chang2uint chang_loop atoi_cells
lng_key = refl

phone_y : chang2uint phone.ybaidu ≡ ok 20
unfolding chang2uint chang_loop atoi_cells
phone_y = refl

-- A table of two latitudes.
abbrev first_row : TableRow
first_row = record {
  lat = codes "0.20";
  lng = codes "1.50";
  offsetlng = codes "12";
  offsetlat = codes "345";
  y = 20;
  x = 150;
}

abbrev east_row : TableRow
east_row = record first_row { lng = codes "1.52"; x = 152 }

abbrev north_row : TableRow
north_row = record first_row { lat = codes "0.21"; y = 21 }

east_key : chang2uint (codes "1.52") ≡ ok 152
unfolding chang2uint chang_loop atoi_cells
east_key = refl

north_key : chang2uint (codes "0.21") ≡ ok 21
unfolding chang2uint chang_loop atoi_cells
north_key = refl

rows-IsLoadable : IsLoadable numbers [] (first_row ∷ east_row ∷ [])
rows-IsLoadable = (
  record {
    room = omega arith;
    positive = omega arith;
    word = omega arith;
    window = tt;
    above = tt;
  },
  (
    record {
      room = omega arith;
      positive = omega arith;
      word = omega arith;
      window = omega arith;
      above = (omega arith, tt);
    },
    tt,
  ),
)

north-IsLoadable : IsLoadable numbers (first_row ∷ east_row ∷ []) (north_row ∷ [])
north-IsLoadable = (
  record {
    room = omega arith;
    positive = omega arith;
    word = omega arith;
    window = tt;
    above = tt;
  },
  tt,
)

getdb-LoadedTable_example :
    Ensures
      (getdb numbers zero_entry [] (true ∷ []) (
        stored_rows (map as_row (first_row ∷ east_row ∷ []))
        ∷ stored_rows (map as_row (north_row ∷ []))
        ∷ stored_rows (map as_row [])
        ∷ []))
      (LoadedTable numbers (first_row ∷ east_row ∷ north_row ∷ []))
getdb-LoadedTable_example =
    getdb-LoadedTable numbers zero_entry (true ∷ []) (first_row ∷ east_row ∷ []) (north_row ∷ []) []
      [] refl refl rows-IsLoadable north-IsLoadable tt
      ((lat_key, lng_key), ((lat_key, east_key), tt)) ((north_key, lng_key), tt) tt

-- A configuration with the port of the database only.
abbrev port_item : Item
port_item = record { first = b'd'; rest = codes "b_port"; value = codes "3307" }

port_item-Fits : Fits port_item
port_item-Fits = record {
  is_key = record { lacks_eq = ground arith; no_comment = λ e. omega arith; starts = refl };
  ends = refl;
  one_line = ground arith;
  no_nul = ground arith;
  short = omega arith;
}

other_port :
    read_settings (some (print_items (port_item ∷ []))) new_database
    ≡ ok (record new_database { port = pos 3307 })
unfolding read_settings port_or find insert atoi_cells text_or
other_port = rw (file_to_items-print (port_item ∷ []) [] (port_item-Fits, tt)) refl

load_offsets_of-unshifted_example :
    (load_offsets_of numbers zero_entry
        (some (print_items (port_item ∷ [])))
        true
        false
        (replicate 4 false ++ true ∷ [])
        []
        []
      ≡ ok (some ([], false)))
    × (correctgps_worker numbers [] stack phone
        ≡ ok (record phone { xgps = 1005; ygps = 1005; status = 2 }))
load_offsets_of-unshifted_example =
    load_offsets_of-unshifted numbers zero_entry (some (print_items (port_item ∷ []))) (true ∷ [])
      [] [] (record new_database { port = pos 3307 }) stack phone 20 other_port phone_y
