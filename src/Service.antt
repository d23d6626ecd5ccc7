-- ===== src/Service.antt =====
-- The way of a request through the service: the texts that a worker sends for a client that it has
-- corrected (Ccorrectit::correctgps_worker, Csender::Send).
pub mod Delivery
mod Examples
use correct_gps.Base.{
  ℕ, ◌+◌, ◌≤◌, ◌<◌, ◌≡◌, refl, ap, ◌∙◌, true, Bytes, Run, ok, fault, aborted, ◌>>=◌, List, Ensures,
  Ensures-map, Ensures-bind, Yields, Yields-after, Among, length, arith,
}
use correct_gps.OffsetArray.{Poi}
use correct_gps.Client.{
  Client, Outcome, killed, alive, arrived, receive, get_send2_car_server, set_send2_car_server,
  serial_len, md5_len,
}
use correct_gps.Client.Fields.{Fields, IsProper}
use correct_gps.Tools.Coordinate.{chang2uint}
use correct_gps.Correct.{InfoMap, Doubles, corrected, correctgps_worker}
use correct_gps.Correct.Shift.{ShiftedBy}
use correct_gps.Sender.{send_request, request_text}
use correct_gps.Sender.Request.{send_request-fits}
use correct_gps.Exchange.{Settings}
use correct_gps.Loader.Table.{TableRow, entry}
use correct_gps.Loader.Serves.{Serves}

-- The texts that a request to the car server is made of are within the sizes that it has room for.
pub record IsPrintable {D : Type 0} (g : Settings D) : Type 0 where
  pub domain_size : length g.domain ≤ 200
  pub port_size : length g.port ≤ 5
  pub number_size : (x : D) → length (g.print x) ≤ 64

-- What a worker says of the phone to the car server, and the connection, are as before.
abbrev pub SameCaller : {D : Type 0} → Client D → Client D → Type 0
SameCaller c b = (b.serial ≡ c.serial) × (b.md5 ≡ c.md5) × (b.fd ≡ c.fd)

pub worker-SameCaller :
    {D : Type 0} (d : Doubles D) (m : InfoMap D) (gpsxy : Poi D) (c : Client D)
    → Yields (SameCaller c) (correctgps_worker d m gpsxy c)
unfolding correctgps_worker set_send2_car_server
worker-SameCaller d m gpsxy c =
    Yields-after (SameCaller c) (corrected d m gpsxy c) _ (λ gps. (refl, refl, refl))
