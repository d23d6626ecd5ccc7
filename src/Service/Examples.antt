-- ===== src/Service/Examples.antt =====
-- The theorem on the way of a request at a concrete request. The doubles are numbers here.
use correct_gps.Base.{
  ℕ, ◌+◌, ◌-◌, ◌≡◌, refl, inl, inr, Bool-cases, [], ◌∷◌, codes, length, ok, ◌==◌, if◌then◌else◌,
  arith,
}
use correct_gps.OffsetArray.{OffsetArray, Poi}
use correct_gps.OffsetArray.Table.{Represents}
use correct_gps.Client.{Client}
use correct_gps.Client.Fields.{Fields, IsProper}
use correct_gps.Tools.Coordinate.{chang2uint, chang_loop}
use correct_gps.Tools.Chars.{atoi_cells}
use correct_gps.Correct.{InfoMap, Doubles, find_info}
use correct_gps.Exchange.{Settings}
use correct_gps.Loader.Table.{TableRow, entry, Stored}
use correct_gps.Loader.Serves.{Serves, Stored-Serves}
use correct_gps.Service.{IsPrintable}

abbrev pub numbers : Doubles ℕ
numbers = record { atof = λ s. 1000 + length s; sub = ◌-◌ }

abbrev pub settings : Settings ℕ
settings = record { domain = codes "car"; port = codes "81"; outtime = 5; print = λ n. codes "0.0" }

abbrev pub first_row : TableRow
first_row = record {
  lat = codes "0.20";
  lng = codes "1.50";
  offsetlng = codes "12";
  offsetlat = codes "345";
  y = 20;
  x = 150;
}

abbrev row : OffsetArray ℕ
row = record {
  arraylng = λ k. if k == 0 then entry numbers first_row else record { x = 0; dx = 0; dy = 0 };
  index = 1;
}

abbrev pub city : InfoMap ℕ
city = (20, row) ∷ []

row-Represents : Represents row (entry numbers first_row ∷ [])
row-Represents = record {
  count = refl;
  fits = omega arith;
  holds = ((0, omega arith, refl), tt);
  only = λ i h. inl (ground arith);
  rest = λ k h. ground arith;
  head = refl;
  served = ((omega arith, omega arith, omega arith, omega arith), tt);
  distinct = (tt, tt);
}

city-Stored : Stored numbers city (first_row ∷ [])
unfolding find_info
city-Stored y = elim (Bool-cases (20 == y)) [
  | inl here ↦ rw here (row-Represents, omega arith)
  | inr elsewhere ↦ rw elsewhere refl
]

pub city-Serves : Serves numbers (first_row ∷ []) city
city-Serves = Stored-Serves numbers (first_row ∷ []) city city-Stored

abbrev pub stack : Poi ℕ
stack = record { dx = 7; dy = 9 }

abbrev pub phone : Client ℕ
phone = record {
  fd = 5;
  offset = 0;
  iobuf = λ k. 0;
  serial = [];
  md5 = [];
  xbaidu = [];
  ybaidu = [];
  xgps = 0;
  ygps = 0;
  status = 0;
  delay_time = 0;
}

abbrev pub fields : Fields
fields = record {
  serial = codes "356823032255122";
  md5 = codes "2eb399b9588b1ac2ccc35dce6f266033";
  xbaidu = codes "1.5043";
  ybaidu = codes "0.2077";
}

pub fields-IsProper : IsProper fields
fields-IsProper = record {
  serial_digits = ground arith;
  serial_size = refl;
  md5_hex = ground arith;
  md5_size = refl;
  xbaidu_decimal = ground arith;
  xbaidu_size = omega arith;
  ybaidu_decimal = ground arith;
  ybaidu_size = omega arith;
}

pub settings-IsPrintable : IsPrintable settings
settings-IsPrintable = record {
  domain_size = omega arith;
  port_size = omega arith;
  number_size = λ n. omega arith;
}

pub y_key : chang2uint (codes "0.2077") ≡ ok 20
unfolding chang2uint chang_loop atoi_cells
y_key = refl

pub x_key : chang2uint (codes "1.5043") ≡ ok 150
unfolding chang2uint chang_loop atoi_cells
x_key = refl
