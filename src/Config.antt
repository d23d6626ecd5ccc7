-- ===== src/Config.antt =====
-- Ccfg::readConfigFile (src/Ccfg.h, src/Ccfg.cpp): the settings, from the items of the configuration
-- file, with their defaults.
mod Examples
use correct_gps.Base.{
  ℕ, refl, true, false, [], ◌∷◌, ◌++◌, Bytes, codes, Option, none, some, if◌then◌else◌, arith, Run,
  ok, ◌>>=◌, to_u32,
}
use correct_gps.Tools.Chars.{atoi_cells}
use correct_gps.Tools.Items.{str_eq, find, insert, file_to_items}
use correct_gps.Tools.Items.Laws.{or_new, find-insert}
use correct_gps.Tools.Items.File.{key, insert_all}

pub record Cfg : Type 0 where
  pub carserver_port : ℕ
  pub carserver_ip : Bytes
  pub carserv_domainname : Bytes
  pub local_port : Bytes
  pub max_clients : ℕ
  pub outtime_s : ℕ
  pub max_worker : ℕ

-- atoi of a c_str, as an unsigned int, or the default.
pub number_or : ℕ → Option Bytes → Run ℕ
number_or default none = ok default
number_or default (some v) = atoi_cells (v ++ 0 ∷ []) >>= λ n. ok (to_u32 n)

unfoldable pub text_or : Bytes → Option Bytes → Bytes
text_or default none = default
text_or default (some v) = v

-- The settings, by what a lookup finds for each key.
unfoldable pub settings_of : (Bytes → Option Bytes) → Run Cfg
unfolding number_or text_or
settings_of lookup = number_or 81 (lookup (codes "CARSERVER_PORT")) >>= λ carserver_port.
    number_or 50000 (lookup (codes "MAX_CONNECTION_NUM")) >>= λ max_clients.
    number_or 30 (lookup (codes "LINK_TIMEOUT")) >>= λ outtime_s.
    number_or 1 (lookup (codes "MAX_WORKER")) >>= λ max_worker. ok (record {
      carserver_port = carserver_port;
      carserver_ip = text_or (codes "0.0.0.0") (lookup (codes "CARSERVER_IP"));
      carserv_domainname = text_or (codes "localhost") (lookup (codes "CARSERVER_DOMAINNAME"));
      local_port = text_or (codes "8080") (lookup (codes "LOCAL_PORT"));
      max_clients = max_clients;
      outtime_s = outtime_s;
      max_worker = max_worker;
    })

-- The contents of the file, or none where it cannot be opened. What file_to_items returns is not
-- tested.
unfoldable pub read_config_file : Option Bytes → Run Cfg
unfolding settings_of
read_config_file file = file_to_items file [] >>= λ r. settings_of (λ k. find k r.1)
