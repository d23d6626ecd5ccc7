-- ===== src/Config/Examples.antt =====
-- A configuration file that is read, and its theorem at a concrete list of items.
use correct_gps.Base.{◌≡◌, refl, [], ◌∷◌, codes, ok}
use correct_gps.Tools.Chars.{atoi_cells}
use correct_gps.Tools.Items.File.{Item}
use correct_gps.Tools.Items.Lookup.{first_value}
use correct_gps.Config.{settings_of}

worker_item : Item
worker_item = record { first = b'M'; rest = codes "AX_WORKER"; value = codes "4" }

four_workers :
    settings_of (first_value (worker_item ∷ []))
    ≡ ok (record {
      carserver_port = 81;
      carserver_ip = codes "0.0.0.0";
      carserv_domainname = codes "localhost";
      local_port = codes "8080";
      max_clients = 50000;
      outtime_s = 30;
      max_worker = 4;
    })
unfolding settings_of worker_item atoi_cells
four_workers = refl
