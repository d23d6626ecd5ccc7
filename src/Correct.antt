-- ===== src/Correct.antt =====
-- Ccorrectit::correctgps_worker (src/Ccorrectit.h, src/Ccorrectit.cpp, the USE_ARRAY build): the
-- Baidu coordinates of a request are shifted by the offsets of their cell of the map.
pub mod Shift
mod Examples
use correct_gps.Base.{
  ℕ, Bytes, Option, none, some, List, [], ◌∷◌, Run, ok, ◌>>=◌, ◌==◌, if◌then◌else◌,
}
use correct_gps.OffsetArray.{OffsetArray, Poi, get_gpsxy}
use correct_gps.Client.{Client, set_send2_car_server}
use correct_gps.Tools.Coordinate.{chang2uint}

-- INFO_MAP: the entries of the std::map, in the order of insertion.
abbrev pub InfoMap : Type 0 → Type 0
InfoMap D = List (ℕ × OffsetArray D)

module _ {D : Type 0} where
  unfoldable pub find_info : ℕ → InfoMap D → Option (OffsetArray D)
  find_info key [] = none
  find_info key ((k, a) ∷ m) = if k == key then some a else find_info key m

-- What the worker uses of doubles: atof and a subtraction.
pub record Doubles (D : Type 0) : Type 0 where
  pub atof : Bytes → D
  pub sub : D → D → D

module _ {D : Type 0} (d : Doubles D) where
  -- baiduxy
  abbrev pub baidu_of : Client D → Poi D
  baidu_of c = record { dx = d.atof c.xbaidu; dy = d.atof c.ybaidu }

  -- The position once the latitude is looked up. `gpsxy` is what the stack held before.
  unfoldable pub corrected : InfoMap D → Poi D → Client D → Run (Poi D)
  corrected infomap gpsxy c = chang2uint c.ybaidu >>= λ y1. elim (find_info y1 infomap) [
    | none ↦ ok (baidu_of c)
    | some a ↦ chang2uint c.xbaidu >>= λ x1. get_gpsxy d.sub a gpsxy (baidu_of c) x1
  ]

  unfoldable pub correctgps_worker : InfoMap D → Poi D → Client D → Run (Client D)
  unfolding corrected set_send2_car_server
  correctgps_worker infomap gpsxy c = corrected infomap gpsxy c >>= λ gps.
      ok (set_send2_car_server (record c { xgps = gps.dx; ygps = gps.dy }))
