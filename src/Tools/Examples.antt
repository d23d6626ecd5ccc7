-- ===== src/Tools/Examples.antt =====
-- Runs of the helpers, and their theorems at concrete texts.
use correct_gps.Base.{
  true, codes, ◌+◌, ◌*◌, ◌%◌, ◌^◌, ◌<◌, ◌≡◌, refl, [], ◌∷◌, ◌++◌, some, arith, ok,
}
use correct_gps.Tools.Clock.{Tm, getnowdate, date_of}
use correct_gps.Tools.Decimal.{digits_of}
use correct_gps.Tools.Chars.{atoi_cells}
use correct_gps.Tools.Trim.{strtrim}
use correct_gps.Tools.Coordinate.{chang2uint, chang_loop, chang2uint_two_decimals}
use correct_gps.Tools.Items.Lines.{IsKey}
use correct_gps.Tools.Items.File.{Item, key, Fits, print_items}
use correct_gps.Tools.Values.{write_conf_value}
use correct_gps.Tools.Values.Written.{read_back, read_conf_value-write_conf_value}
use correct_gps.Tools.Unicode.{utf8_to_unicode, encode, utf8_to_unicode-encode}
use correct_gps.Tools.Checksum.{checksum, checksum_completes}

trim_runs : strtrim (codes "a b \r\n") ≡ ok (codes "a b")
unfolding strtrim
trim_runs = refl

key_runs : chang2uint (codes "114.73427") ≡ ok 11473
unfolding chang2uint chang_loop atoi_cells
key_runs = refl

chang2uint_two_decimals_example : chang2uint (codes "114.73427") ≡ ok (114 * 100 + 7 * 10 + 3)
chang2uint_two_decimals_example =
    chang2uint_two_decimals b'1' (codes "14") (refl, (refl, (refl, tt))) (omega arith) (omega arith)
      b'7' b'3' (codes "427") refl refl

port-IsKey : IsKey b'P' (codes "ORT")
port-IsKey = record { lacks_eq = ground arith; no_comment = λ e. omega arith; starts = refl }

port_item : Item
port_item = record { first = b'P'; rest = codes "ORT"; value = codes "81" }

port_item-Fits : Fits port_item
unfolding port_item
port_item-Fits = record {
  is_key = port-IsKey;
  ends = refl;
  one_line = ground arith;
  no_nul = ground arith;
  short = omega arith;
}

-- The value of the port is written over.
new_port : Item
new_port = record { first = b'P'; rest = codes "ORT"; value = codes "9090" }

new_port-Fits : Fits new_port
unfolding new_port
new_port-Fits = record {
  is_key = port-IsKey;
  ends = refl;
  one_line = ground arith;
  no_nul = ground arith;
  short = omega arith;
}

read_conf_value-write_conf_value_example :
    read_back
      (codes "PORT")
      []
      (write_conf_value (key new_port) new_port.value (some (print_items (port_item ∷ []))) true [])
    ≡ ok (codes "9090")
unfolding port_item new_port
read_conf_value-write_conf_value_example =
    read_conf_value-write_conf_value (port_item ∷ []) new_port (codes "PORT") []
      (port_item-Fits, tt) new_port-Fits

utf8_to_unicode-encode_example :
    utf8_to_unicode (encode (0x41 ∷ 0x4e2d ∷ []) ++ 0 ∷ []) 4 ≡ ok (0x41 ∷ 0x4e2d ∷ [], 2)
utf8_to_unicode-encode_example =
    utf8_to_unicode-encode (0x41 ∷ 0x4e2d ∷ []) (0 ∷ []) (omega arith, (omega arith, tt))

checksum_completes_example :
    (checksum (1 ∷ 2 ∷ 3 ∷ []) < 2 ^ 16) × ((516 + checksum (1 ∷ 2 ∷ 3 ∷ [])) % 65535 ≡ 0)
checksum_completes_example = checksum_completes (1 ∷ 2 ∷ 3 ∷ []) (omega arith)

abbrev moment : Tm
moment = record { tm_year = 113; tm_mon = 3; tm_mday = 8; tm_hour = 17; tm_min = 5; tm_sec = 9 }

moment_runs : getnowdate moment ≡ ok (codes "2013-04-08 17:05:09")
unfolding getnowdate date_of digits_of
moment_runs = refl
