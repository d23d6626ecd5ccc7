-- ===== src/Loader/Link.antt =====
-- The connection to the database (src/dbdo.cpp): Cdbdo's constructor, readConfigFile, DataBaseIni,
-- loaddb and BBT_DisConn. What the client library gives is an argument.
pub mod Unlinked
use correct_gps.Base.{
  ℕ, Bool, true, false, List, [], Bytes, codes, Option, none, some, if◌then◌else◌, Run, ok, fault,
  null_pointer, ◌>>=◌, ◌++◌, ◌∷◌, ℤ, pos,
}
use correct_gps.Tools.Chars.{atoi_cells}
use correct_gps.Tools.Items.{find, file_to_items}
use correct_gps.Config.{text_or}
use correct_gps.OffsetArray.{OffsetData}
use correct_gps.Correct.{InfoMap, Doubles}
use correct_gps.Loader.{Batch, checklink, getdb}

-- `connected` tells that conn is not NULL.
pub record Database : Type 0 where
  pub connected : Bool
  pub server_name : Bytes
  pub user_name : Bytes
  pub password : Bytes
  pub db_name : Bytes
  pub port : ℤ

abbrev pub new_database : Database
new_database = record {
  connected = false;
  server_name = codes "localhost";
  user_name = codes "test";
  password = codes "test";
  db_name = codes "baidumaps";
  port = pos 3306;
}

-- m_port, which keeps its value where the item is missing.
unfoldable pub port_or : ℤ → Option Bytes → Run ℤ
port_or old none = ok old
port_or old (some v) = atoi_cells (v ++ 0 ∷ [])

-- readConfigFile on the contents of the file, none where it cannot be opened.
unfoldable pub read_settings : Option Bytes → Database → Run Database
unfolding port_or
read_settings file db = file_to_items file [] >>= λ r.
    port_or db.port (find (codes "db_port") r.1) >>= λ port. ok (record db {
      server_name = text_or db.server_name (find (codes "db_host_ip") r.1);
      db_name = text_or db.db_name (find (codes "db_name") r.1);
      user_name = text_or db.user_name (find (codes "db_user") r.1);
      password = text_or db.password (find (codes "db_psw") r.1);
      port = port;
    })

-- The connection, for an object that has none: mysql_init, then mysql_real_connect. A connection that
-- fails leaves what mysql_init gave. A NULL from mysql_init is handed on to mysql_real_connect.
unfoldable pub connect_database : (init_ok connect_ok : Bool) → Database → Run (Database × Bool)
connect_database init_ok connect_ok db =
    if init_ok then ok (record db { connected = true }, connect_ok) else fault null_pointer

unfoldable pub data_base_ini :
    Option Bytes → (init_ok connect_ok : Bool) → Database → Run (Database × Bool)
unfolding read_settings connect_database
data_base_ini file init_ok connect_ok db = read_settings file db >>= λ db'.
    if db'.connected then ok (db', true) else connect_database init_ok connect_ok db'

abbrev pub dis_conn : Database → Database
dis_conn db = record db { connected = false }

module _ {D : Type 0} (d : Doubles D) (zero_entry : OffsetData D) where
  -- loaddb, with the thread that it starts run to its end: getdb tests the link once more.
  unfoldable pub load_db :
      InfoMap D → List Bool → List Bool → List Batch → Run (Option (InfoMap D × Bool))
  load_db m link pings batches = elim (checklink 0 link) [
    | none ↦ ok none
    | some false ↦ ok (some (m, false))
    | some true ↦ getdb d zero_entry m pings batches
  ]

  -- What main does with the database: the result of DataBaseIni is not looked at.
  unfoldable pub load_offsets_of :
      Option Bytes
      → (init_ok connect_ok : Bool) → List Bool
      → List Bool
      → List Batch
      → Run (Option (InfoMap D × Bool))
  unfolding data_base_ini load_db
  load_offsets_of file init_ok connect_ok link pings batches =
      data_base_ini file init_ok connect_ok new_database >>= λ r. load_db [] link pings batches
