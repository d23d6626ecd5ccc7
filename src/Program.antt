-- ===== src/Program.antt =====
-- `main` (src/gps.cpp), from becomeDaemon to its end, without the configuration and the loading of
-- the offsets (Config, Loader): the descriptors of the daemon, the listening socket, the poller
-- and the main loop.
pub mod Safety
mod Examples
use correct_gps.Base.{
  ℕ, Bool, true, false, List, [], Option, none, some, Run, ok, ◌>>=◌, if◌then◌else◌, ◌||◌,
}
use correct_gps.Process.{Process, Calls, Ending, exited, returned, no_chdir, become_daemon}
use correct_gps.Server.{Address, Listener, create_listener}
use correct_gps.Poller.{SocketOptions, initialize}
use correct_gps.Daemon.{Daemon, Round, main_loop}

-- What the system gives before the loop starts. `failed` tells that a signal or a thread has set the
-- exit flag by then.
pub record Startup : Type 0 where
  pub calls : Calls
  pub process : Process
  pub servinfo : Option (List Address)
  pub listen_ok : Bool
  pub created : Bool
  pub options : SocketOptions
  pub failed : Bool

-- How main ends: as a process that is not the daemon, with no listening socket, or behind the loop,
-- with the state that it leaves. The last is for rounds that end before the loop does.
pub data Exit (D : Type 0) : Type 0 where
  left : Exit D
  no_listener : Listener → Exit D
  stopped : Daemon D → Exit D
  running : Exit D

module _ {D : Type 0} where
  -- The state in front of the loop: no client yet, and the listening socket registered.
  unfoldable pub watching : Startup → Listener → ℕ → Daemon D
  watching s l sockfd =
      let p = initialize l.open_fds s.options s.created sockfd in
      record {
        poller = p;
        manager = record {
          clientqueue = [];
          msglist = [];
          test_cond = false;
          open_fds = p.open_fds;
          talks = [];
        };
        term_received = false;
        hup_received = false;
        exit_flag = p.exit_flag || s.failed;
      }

  abbrev pub end_of : Option (Daemon D) → Exit D
  end_of none = running
  end_of (some d) = stopped d

  -- From createListener on.
  unfoldable pub serve : ℕ → Startup → List ℕ → List (Round D) → Run (Exit D)
  unfolding watching
  serve max_clients s open_fds rounds =
      let l = create_listener s.servinfo s.listen_ok open_fds in
      elim l.sockfd [
        | none ↦ ok (no_listener l)
        | some sockfd ↦ main_loop max_clients (watching s l sockfd) rounds >>= λ o. ok (end_of o)
      ]

  unfoldable pub main : ℕ → Startup → List (Round D) → Run (Exit D)
  unfolding serve
  main max_clients s rounds = elim (become_daemon no_chdir s.calls s.process) [
    | exited ↦ ok left
    | returned daemon p ↦ if daemon then serve max_clients s p.open_fds rounds else ok left
  ]
