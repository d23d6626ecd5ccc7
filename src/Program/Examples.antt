-- ===== src/Program/Examples.antt =====
-- A run of main: the daemon starts, accepts a phone, reads a part of its request, and gets a SIGTERM.
-- The doubles are numbers here.
use correct_gps.Base.{ℕ, true, false, [], ◌∷◌, codes, none, some}
use correct_gps.Client.{Client, arrived}
use correct_gps.Tools.Clock.{Tm}
use correct_gps.Poller.{events, interrupted}
use correct_gps.Process.{child}
use correct_gps.Daemon.{Reply, Round, sigterm}
use correct_gps.Program.{Startup}

abbrev now : Tm
now = record { tm_year = 113; tm_mon = 3; tm_mday = 8; tm_hour = 17; tm_min = 5; tm_sec = 9 }

abbrev phone : Client ℕ
phone = record {
  fd = 5;
  offset = 0;
  iobuf = λ k. 7;
  serial = [];
  md5 = [];
  xbaidu = [];
  ybaidu = [];
  xgps = 0;
  ygps = 0;
  status = 0;
  delay_time = 0;
}

abbrev granting : Reply ℕ
granting = record {
  accepted = some 6;
  options = record { linger_ok = true; timeout_ok = true };
  received = arrived now (codes "GET /navto?serial=12");
  now = 0;
  raw = phone;
}

abbrev startup : Startup
startup = record {
  calls = record {
    first_fork = child;
    first_log = some 6;
    last_log = some 4;
    setsid_ok = true;
    second_fork = child;
    open_max = some 8;
    null_fd = some 0;
    stdout_ok = true;
    stderr_ok = true;
  };
  process = record {
    open_fds = 0 ∷ 1 ∷ 2 ∷ 5 ∷ [];
    session_leader = true;
    at_root = false;
    masks = true;
  };
  servinfo =
      some (record { socket = some 3; reuse_ok = true; defer_ok = true; bind_ok = true } ∷ []);
  listen_ok = true;
  created = true;
  options = record { linger_ok = true; timeout_ok = true };
  failed = false;
}

-- A connection is accepted in the first round, and read in the second.
abbrev first_round : Round ℕ
first_round = record {
  waits = (false, interrupted) ∷ (false, events 1) ∷ [];
  events = (record { fd = 3; readable = true; hangup = false }, granting) ∷ [];
  signal = none;
  failure = false;
}

abbrev last_round : Round ℕ
last_round = record {
  waits = (false, events 1) ∷ [];
  events = (record { fd = 6; readable = true; hangup = false }, granting) ∷ [];
  signal = some sigterm;
  failure = false;
}
