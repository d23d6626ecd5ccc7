-- ===== src/Poller/Examples.antt =====
-- The theorems on the epoll set at concrete states.
use correct_gps.Base.{refl, true, false, [], ◌∷◌}
use correct_gps.Poller.{Poller, SocketOptions, register_for_event}
use correct_gps.Poller.Count.{Counts, register_for_event-Counts}

abbrev options : SocketOptions
options = record { linger_ok = true; timeout_ok = false }

-- Descriptor 3 listens, 4 and 5 are connections.
abbrev small : Poller
small = record {
  sockfd = 3;
  curfds = 3;
  interest = 4 ∷ 3 ∷ [];
  open_fds = 5 ∷ 4 ∷ 3 ∷ [];
  exit_flag = false;
}

small-Counts : Counts small
small-Counts = record { exact = refl; distinct = (refl, (refl, tt)) }

register_for_event-Counts_example : Counts (register_for_event small options 5).0
register_for_event-Counts_example = register_for_event-Counts small options 5 refl small-Counts
