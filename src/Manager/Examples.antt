-- ===== src/Manager/Examples.antt =====
-- The theorems on the manager at concrete states. The doubles are numbers here.
use correct_gps.Base.{
  ℕ, ◌+◌, ◌-◌, ◌≡◌, refl, true, false, [], ◌∷◌, codes, none, some, ok, ◌==◌, arith, length,
  contains, Within,
}
use correct_gps.Client.{Client, ini, Received, arrived, get_send2_car_server, set_send2_car_server}
use correct_gps.Tools.Clock.{Tm, IsTime}
use correct_gps.Correct.{correctgps_worker, find_info}
use correct_gps.Tools.Coordinate.{chang2uint, chang_loop}
use correct_gps.Tools.Chars.{atoi_cells}
use correct_gps.Sender.{connect, refused}
use correct_gps.Exchange.{send2_car_server}
use correct_gps.Manager.{
  Manager, Context, find_client, put_client, do_kill, do_read, notificationthreads, take_fd, work,
}
use correct_gps.Manager.Steps.{waiting, accept, registered, accepts, Reachable, starts, then_step}
use correct_gps.Manager.Bounds.{AreBounded, HasBoundedRest}
use correct_gps.Manager.Safety.{IsShortRun, do_read-Reachable}
use correct_gps.Manager.Invariant.{IsManaged}
use correct_gps.Manager.Reachable.{Reachable-IsManaged}
use correct_gps.Manager.Connections.{accept-adds, accept_full-leaks}
use correct_gps.Manager.Schedule.{end_turn, woken, end_turn-leaves_second}

abbrev now : Tm
now = record { tm_year = 113; tm_mon = 3; tm_mday = 8; tm_hour = 17; tm_min = 5; tm_sec = 9 }

now-IsTime : IsTime now
now-IsTime = record {
  year = omega arith;
  mon = omega arith;
  mday = omega arith;
  hour = omega arith;
  min = omega arith;
  sec = omega arith;
}

abbrev raw : Client ℕ
raw = record {
  fd = 0;
  offset = 0;
  iobuf = λ k. 7;
  serial = [];
  md5 = [];
  xbaidu = [];
  ybaidu = [];
  xgps = 0;
  ygps = 0;
  status = 0;
  delay_time = 0;
}

-- The connection 5 has sent its request.
abbrev phone : Client ℕ
phone = record raw {
  fd = 5;
  serial = codes "35";
  xbaidu = codes "1.50";
  ybaidu = codes "0.30";
  status = 1;
}

abbrev busy : Manager ℕ
busy = record {
  clientqueue = (5, phone) ∷ [];
  msglist = [];
  test_cond = false;
  open_fds = 5 ∷ 3 ∷ [];
  talks = [];
}

abbrev empty : Manager ℕ
empty = record { clientqueue = []; msglist = []; test_cond = false; open_fds = 3 ∷ []; talks = [] }

busy-IsManaged : IsManaged busy
unfolding find_client
busy-IsManaged = (refl, refl, refl, tt)

accept-adds_example :
    let n = accept 10 raw 0 busy 6 in
    (find_client 6 n.clientqueue ≡ some (ini raw 6 0))
    × (contains n.open_fds 6 ≡ true)
    × ((k : ℕ) → (k == 6) ≡ false → find_client k n.clientqueue ≡ find_client k busy.clientqueue)
accept-adds_example = accept-adds 10 0 6 raw busy busy-IsManaged refl (omega arith)

accept_full-leaks_example :
    let n = accept 1 raw 0 busy 6 in
    (find_client 6 n.clientqueue ≡ none)
    × (contains n.open_fds 6 ≡ true)
    × (do_kill n 6 ≡ n)
    × ((r : Received) → do_read n 6 r ≡ ok n)
accept_full-leaks_example = accept_full-leaks 1 0 6 raw busy busy-IsManaged refl (omega arith)

-- The map holds no offsets, and there is no socket for the car server.
abbrev context : Context ℕ
context = record {
  doubles = record { atof = λ s. 1000 + length s; sub = ◌-◌ };
  infomap = [];
  settings = record { domain = []; port = []; outtime = 5; print = λ n. [] };
  gpsxy = record { dx = 7; dy = 9 };
  sender = record { sockfd = none; fb = λ k. 0 };
  answers = record { socket = none; result = refused; reports = []; turns = [] };
}

abbrev phone_sent : Manager ℕ
phone_sent = record busy {
  clientqueue = (5, record phone { xgps = 1004; ygps = 1004; status = 2 }) ∷ [];
  msglist = 6 ∷ [];
}

phone_works :
    let taken = woken (notificationthreads (notificationthreads busy 5) 6) none in
    work context taken.0 taken.1 ≡ ok (some (phone_sent, some 5))
unfolding work find_client put_client notificationthreads take_fd correctgps_worker chang2uint
    chang_loop atoi_cells find_info set_send2_car_server get_send2_car_server send2_car_server
    connect
phone_works = refl

end_turn-leaves_second_example :
    let taken = woken (notificationthreads (notificationthreads busy 5) 6) none in
    (taken.1 ≡ some 5)
    × ((end_turn phone_sent (some 5)).msglist ≡ 6 ∷ [])
    × ((end_turn phone_sent (some 5)).test_cond ≡ false)
end_turn-leaves_second_example =
    end_turn-leaves_second context busy phone_sent 5 6 none (some 5) refl phone_works

one_phone : Reachable (registered true 5 (accept 10 raw 0 empty 5)) (waiting none ∷ [])
one_phone =
    then_step empty (registered true 5 (accept 10 raw 0 empty 5)) (waiting none ∷ [])
      (waiting none ∷ []) (starts (3 ∷ []) 1)
      (accepts empty (waiting none ∷ []) 10 0 5 raw true refl)

Reachable-IsManaged_example : IsManaged (registered true 5 (accept 10 raw 0 empty 5))
Reachable-IsManaged_example =
    Reachable-IsManaged (registered true 5 (accept 10 raw 0 empty 5)) (waiting none ∷ []) one_phone
      (unfold one_phone in (tt, refl))

raw-HasBoundedRest : HasBoundedRest raw
raw-HasBoundedRest = record {
  md5_fits = omega arith;
  xbaidu_fits = omega arith;
  ybaidu_fits = omega arith;
}

one_phone-IsShortRun : IsShortRun one_phone
unfolding one_phone
one_phone-IsShortRun = (tt, raw-HasBoundedRest)

do_read-Reachable_example :
    AreBounded (registered true 5 (accept 10 raw 0 empty 5)).clientqueue
    × Within
        (λ n. AreBounded n.clientqueue)
        (do_read (registered true 5 (accept 10 raw 0 empty 5)) 5 (arrived now (codes "GET /")))
do_read-Reachable_example =
    do_read-Reachable (registered true 5 (accept 10 raw 0 empty 5)) (waiting none ∷ []) one_phone 5
      (arrived now (codes "GET /")) one_phone-IsShortRun (omega arith, omega arith, now-IsTime)
