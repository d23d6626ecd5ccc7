-- ===== src/Process/Examples.antt =====
-- Runs of becomeDaemon, with the flags that main gives (src/gps.cpp).
use correct_gps.Base.{◌≡◌, refl, ◌<◌, true, false, [], ◌∷◌, some, none, All, if◌then◌else◌, arith}
use correct_gps.Process.{Process, child, Calls, no_chdir, maxfd, log_call, become_daemon}
use correct_gps.Process.Streams.{daemon, works, settled, become_daemon-daemon}

abbrev started : Process
started = record {
  open_fds = 0 ∷ 1 ∷ 2 ∷ 5 ∷ [];
  session_leader = true;
  at_root = false;
  masks = true;
}

abbrev good_calls : Calls
good_calls = record {
  first_fork = child;
  first_log = some 6;
  last_log = some 3;
  setsid_ok = true;
  second_fork = child;
  open_max = some 1024;
  null_fd = some 0;
  stdout_ok = true;
  stderr_ok = true;
}

started-below :
    All (λ fd. fd < maxfd good_calls.open_max) (log_call good_calls.first_log started).open_fds
unfolding log_call
started-below = (omega arith, (omega arith, (omega arith, (omega arith, (omega arith, tt)))))

become_daemon-daemon_example :
    daemon (become_daemon no_chdir good_calls started)
    ≡ (if works good_calls then some (settled no_chdir (some 3) started) else none)
become_daemon-daemon_example =
    become_daemon-daemon no_chdir good_calls started refl refl started-below
