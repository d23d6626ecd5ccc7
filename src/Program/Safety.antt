-- ===== src/Program/Safety.antt =====
-- The whole run of main stays within its buffers.
use correct_gps.Base.{ℕ, ◌≡◌, List, none}
use correct_gps.Daemon.{Daemon, Round}
use correct_gps.Daemon.Safety.{IsKept}
use correct_gps.Program.{Startup, Exit, left, no_listener, stopped, running}

module _ {D : Type 0} (max_clients : ℕ) (s : Startup) (rounds : List (Round D)) where
  -- What is left at the end: every client within its sizes.
  abbrev pub IsSound : Exit D → Type 0
  IsSound left = Unit
  IsSound (no_listener l) = l.sockfd ≡ none
  IsSound (stopped d) = IsKept d
  IsSound running = Unit
