-- ===== src/Tools/Values.antt =====
-- read_conf_value and write_conf_value (src/tools.cpp), which nothing calls. The contents of the file
-- are none where it cannot be opened.
pub mod Written
use correct_gps.Base.{
  ℕ, Bool, true, false, ◌&&◌, ◌||◌, ◌==◌, ltb, List, [], ◌∷◌, ◌++◌, Bytes, Option, none, some,
  if◌then◌else◌, Run, ok, ◌>>=◌,
}
use correct_gps.Tools.Items.{KeyValMap, str_eq, find, file_to_items}

abbrev pub value_or : Bytes → Option Bytes → Bytes
value_or old none = old
value_or old (some v) = v

-- What `value` holds at the end; `old` is what it held. kvmap is cleared at the end.
unfoldable pub read_conf_value : Bytes → Bytes → Option Bytes → KeyValMap → Run Bytes
read_conf_value key old file kvmap =
    file_to_items file kvmap >>= λ r. ok (value_or old (find key r.1))

-- it->second = value, where the key is there.
unfoldable pub assign : Bytes → Bytes → KeyValMap → KeyValMap
assign k v [] = []
assign k v ((j, w) ∷ m) =
    let rest = assign k v m in if str_eq j k then (j, v) ∷ m else (j, w) ∷ rest

-- The order of std::string.
abbrev pub str_less : Bytes → Bytes → Bool
str_less [] [] = false
str_less [] (d ∷ t) = true
str_less (c ∷ s) [] = false
str_less (c ∷ s) (d ∷ t) = ltb c d || (c == d && str_less s t)

-- The order in which an iterator goes through the map.
unfoldable pub place : Bytes → Bytes → KeyValMap → KeyValMap
place k v [] = (k, v) ∷ []
place k v ((j, w) ∷ m) =
    let rest = place k v m in if str_less j k then (j, w) ∷ rest else (k, v) ∷ (j, w) ∷ m

unfoldable pub in_order : KeyValMap → KeyValMap
in_order [] = []
in_order ((k, v) ∷ m) = place k v (in_order m)

-- fprintf (fp, "%s=%s\n", ...) for each entry
unfoldable pub print_map : KeyValMap → Bytes
print_map [] = []
print_map ((k, v) ∷ m) = (k ++ b'=' ∷ v) ++ b'\n' ∷ print_map m

-- What is returned, and the contents of the file then. `writable` tells that fopen (file, "w")
-- succeeds.
unfoldable pub write_conf_value :
    Bytes → Bytes → Option Bytes → Bool → KeyValMap → Run (ℕ × Option Bytes)
write_conf_value key value file writable kvmap = file_to_items file kvmap >>= λ r.
    ok (if writable then (0, some (print_map (in_order (assign key value r.1)))) else (1, file))
