-- ===== src/Daemon/Watching.antt =====
-- The descriptors that the poller watches, and the connections of the manager.
use correct_gps.Base.{ℕ, ◌≡◌, true, List, [], ◌∷◌, contains}
use correct_gps.Client.{Client}
use correct_gps.Manager.{Manager}
use correct_gps.Daemon.{Daemon}

-- Every descriptor of the list is open.
abbrev pub AreOpen : List ℕ → List ℕ → Type 0
AreOpen open_fds [] = Unit
AreOpen open_fds (fd ∷ fds) = (contains open_fds fd ≡ true) × AreOpen open_fds fds
