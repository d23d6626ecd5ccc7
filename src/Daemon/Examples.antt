-- ===== src/Daemon/Examples.antt =====
-- The theorems on the main loop at concrete states. The doubles are numbers here.
use correct_gps.Base.{ℕ, ◌≡◌, refl, true, false, [], ◌∷◌, none, some, ok}
use correct_gps.Client.{Client, peer_closed}
use correct_gps.Poller.{events, get_events}
use correct_gps.Daemon.{
  Daemon, Event, Reply, Round, sighup, sig_term, end_round, handle_events, turn, restart,
}
use correct_gps.Daemon.Signals.{restart-stops}

abbrev phone : Client ℕ
phone = record {
  fd = 5;
  offset = 0;
  iobuf = λ k. 7;
  serial = [];
  md5 = [];
  xbaidu = [];
  ybaidu = [];
  xgps = 0;
  ygps = 0;
  status = 0;
  delay_time = 0;
}

-- Descriptor 3 listens, and 5 is a connection.
abbrev daemon : Daemon ℕ
daemon = record {
  poller = record {
    sockfd = 3;
    curfds = 3;
    interest = 5 ∷ 3 ∷ [];
    open_fds = 5 ∷ 3 ∷ [];
    exit_flag = false;
  };
  manager = record {
    clientqueue = (5, phone) ∷ [];
    msglist = [];
    test_cond = false;
    open_fds = 5 ∷ 3 ∷ [];
    talks = [];
  };
  term_received = false;
  hup_received = false;
  exit_flag = false;
}

abbrev granting : Reply ℕ
granting = record {
  accepted = some 6;
  options = record { linger_ok = true; timeout_ok = true };
  received = peer_closed;
  now = 0;
  raw = phone;
}

abbrev refusing : Reply ℕ
refusing = record granting { options = record { linger_ok = false; timeout_ok = true } }

abbrev hangs_up : Event
hangs_up = record { fd = 5; readable = true; hangup = true }

-- A turn with no event, in which a SIGHUP arrives.
abbrev hup_round : Round ℕ
hup_round = record {
  waits = (false, events 0) ∷ [];
  events = [];
  signal = some sighup;
  failure = false;
}

abbrev quiet_round : Round ℕ
quiet_round = record hup_round { signal = none }

abbrev hung_up : Daemon ℕ
hung_up = record daemon { hup_received = true; exit_flag = true }

hup_turn : turn 10 daemon hup_round ≡ ok (some hung_up)
unfolding turn get_events handle_events end_round sig_term
hup_turn = refl

restart-stops_example :
    (e : Daemon ℕ) × (restart 10 daemon (hup_round ∷ quiet_round ∷ []) ≡ ok (some e))
    × (e.exit_flag ≡ true)
    × (e.manager ≡ hung_up.manager)
restart-stops_example =
    restart-stops 10 daemon hung_up hup_round quiet_round [] sighup (false, events 0) [] hup_turn
      refl refl refl
