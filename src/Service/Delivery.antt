-- ===== src/Service/Delivery.antt =====
-- A request from end to end: the main loop reads it (CclientManager::doRead), a worker takes it,
-- corrects it and asks the car server, the answer goes back to the phone, and the connection ends.
mod Examples
use correct_gps.Base.{ℕ, ◌+◌, ◌≤◌, ◌≡◌, false, List, ◌∷◌, Bytes, some, ok, Among, length, contains}
use correct_gps.Client.{Client}
use correct_gps.Client.Fields.{Fields, IsProper}
use correct_gps.Client.Clean.{IsClean}
use correct_gps.Tools.Clock.{Tm, IsTime}
use correct_gps.Tools.Coordinate.{chang2uint}
use correct_gps.Correct.{correctgps_worker}
use correct_gps.Correct.Shift.{ShiftedBy}
use correct_gps.Sender.{request_text}
use correct_gps.Sender.Feedback.{Turn, chunk}
use correct_gps.Sender.Connect.{IsMade}
use correct_gps.Exchange.{Answers}
use correct_gps.Exchange.Reply.{Reply, IsShortReply, reply_text}
use correct_gps.Manager.{Manager, Context}
use correct_gps.Manager.Steps.{Reachable}
use correct_gps.Loader.Table.{TableRow, entry}
use correct_gps.Loader.Serves.{Serves}
use correct_gps.Service.{IsPrintable, SameCaller}

-- The car server takes the connection on a new socket `fd`, and its answer comes in one chunk.
pub record IsAnswered (a : Answers) (open_fds : List ℕ) (fd : ℕ) (r : Reply) : Type 0 where
  pub socket : a.socket ≡ some fd
  pub new : contains open_fds fd ≡ false
  pub made : IsMade a.result a.reports
  pub elapsed : ℕ
  pub later : List Turn
  pub turns : a.turns ≡ record { got = chunk (reply_text r); elapsed = elapsed } ∷ later
  pub short : IsShortReply r

module _ {D : Type 0} (x : Context D) where
  -- The request that goes to the car server for the fields of a phone and the offsets of a row.
  abbrev pub shifted_request : Fields → TableRow → Bytes
  shifted_request f r =
      request_text x.settings.domain x.settings.port f.serial f.md5
        (x.settings.print (x.doubles.sub (x.doubles.atof f.xbaidu) (x.doubles.atof r.offsetlng)))
        (x.settings.print (x.doubles.sub (x.doubles.atof f.ybaidu) (x.doubles.atof r.offsetlat)))

  -- The client once it is corrected by the offsets of a row.
  record Corrected (c : Client D) (r : TableRow) : Type 0 where
    client : Client D
    made : correctgps_worker x.doubles x.infomap x.gpsxy c ≡ ok client
    shifted : ShiftedBy x.doubles (entry x.doubles r) c client
    caller : SameCaller c client

  -- The client of the phone once its request has come, and the conditions on the request and the map.
  pub record IsServed (rows : List TableRow) (r : TableRow) (c : Client D) (f : Fields)
      (rest : Bytes) (now : Tm) : Type 0 where
    pub serves : Serves x.doubles rows x.infomap
    pub among : Among r rows
    pub sizes : IsPrintable x.settings
    pub proper : IsProper f
    pub whole : 11 ≤ length f.xbaidu + length f.ybaidu + length rest
    pub room : length rest ≤ 3900
    pub empty : c.offset ≡ 0
    pub blank : (k : ℕ) → c.iobuf k ≡ 0
    pub clean : IsClean rest
    pub time : IsTime now
    pub latitude : chang2uint f.ybaidu ≡ ok r.y
    pub longitude : chang2uint f.xbaidu ≡ ok r.x
