-- ===== src/Daemon.antt =====
-- The loop of `main` (src/gps.cpp): the events of the poller go to the manager, until a signal or a
-- failure sets a flag. What accept, recv, setsockopt and epoll_wait give is an argument.
pub mod Watching
pub mod Signals
pub mod Safety
mod Examples
use correct_gps.Base.{
  ℕ, suc, ◌+◌, Bool, true, false, ◌&&◌, ◌||◌, List, [], ◌∷◌, map, Option, none, some, ltb, ◌==◌,
  if◌then◌else◌, Run, ok, fault, out_of_bounds, ◌>>=◌, length, take, contains,
}
use correct_gps.Client.{Client, Received}
use correct_gps.Poller.{
  Poller, SocketOptions, Wait, max_descriptors, register_for_event, unregister_for_event,
  get_events, get_descriptor, is_listening_descriptor,
}
use correct_gps.Manager.{Manager, do_kill, do_read}
use correct_gps.Manager.Steps.{accept}

-- The poller and the manager share the descriptors of the process: `open_fds` is the same in both.
pub record Daemon (D : Type 0) : Type 0 where
  pub poller : Poller
  pub manager : Manager D
  pub term_received : Bool
  pub hup_received : Bool
  pub exit_flag : Bool

-- An element of `events`: EPOLLIN, and EPOLLRDHUP or EPOLLERR.
pub record Event : Type 0 where
  pub fd : ℕ
  pub readable : Bool
  pub hangup : Bool

-- What the system gives while an event is handled; `accepted` is none for -1. `raw` is a new client
-- before its constructor has run.
pub record Reply (D : Type 0) : Type 0 where
  pub accepted : Option ℕ
  pub options : SocketOptions
  pub received : Received
  pub now : ℕ
  pub raw : Client D

-- The descriptors that are still open: the kernel stops to watch one that is closed.
abbrev pub still_open : List ℕ → List ℕ → List ℕ
still_open open_fds [] = []
still_open open_fds (fd ∷ fds) =
    let rest = still_open open_fds fds in if contains open_fds fd then fd ∷ rest else rest

-- setsockopt fails for a descriptor that is not open.
abbrev pub options_on : List ℕ → ℕ → SocketOptions → SocketOptions
options_on open_fds fd o = record {
  linger_ok = contains open_fds fd && o.linger_ok;
  timeout_ok = contains open_fds fd && o.timeout_ok;
}

module _ {D : Type 0} where
  -- The state after the manager has changed, and after the poller has.
  unfoldable pub with_manager : Daemon D → Manager D → Daemon D
  with_manager d m = record d {
    manager = m;
    poller = record d.poller {
      open_fds = m.open_fds;
      interest = still_open m.open_fds d.poller.interest;
    };
  }

  unfoldable pub with_poller : Daemon D → Poller → Daemon D
  with_poller d p = record d { poller = p; manager = record d.manager { open_fds = p.open_fds } }

  unfoldable pub register : Daemon D → SocketOptions → ℕ → Daemon D
  unfolding with_poller
  register d o fd =
      with_poller d (register_for_event d.poller (options_on d.poller.open_fds fd o) fd).0

  unfoldable pub unregister : Daemon D → ℕ → Daemon D
  unfolding with_poller
  unregister d fd = with_poller d (unregister_for_event d.poller fd).0

  unfoldable pub accept_connection : ℕ → Daemon D → Reply D → Daemon D
  unfolding register with_manager
  accept_connection max_clients d r = elim r.accepted [
    | none ↦ d
    | some fd ↦ register (with_manager d (accept max_clients r.raw r.now d.manager fd)) r.options fd
  ]

  -- The two tests of the events of a connection, which is not watched while they run.
  unfoldable pub read_event : Daemon D → Event → Reply D → Run (Daemon D)
  unfolding register with_manager
  read_event d e r =
      if e.readable
      then (do_read d.manager e.fd r.received >>= λ m.
          ok (register (with_manager d m) r.options e.fd))
      else ok d

  unfoldable pub hangup_event : Daemon D → Event → Daemon D
  unfolding unregister with_manager
  hangup_event d e =
      let d' = unregister d e.fd in
      if e.hangup then with_manager d' (do_kill d'.manager e.fd) else d

  unfoldable pub handle_event : ℕ → Daemon D → Event → Reply D → Run (Daemon D)
  unfolding accept_connection read_event hangup_event unregister
  handle_event max_clients d e r =
      if is_listening_descriptor d.poller e.fd
      then ok (accept_connection max_clients d r)
      else (read_event (unregister d e.fd) e r >>= λ d'. ok (hangup_event d' e))

  -- The loop over the events from index n on. Those behind the end of `events` have no descriptor.
  unfoldable pub handle_events : ℕ → ℕ → Daemon D → List (Event × Reply D) → Run (Daemon D)
  handle_events max_clients n d [] = ok d
  handle_events max_clients n d ((e, r) ∷ later) = elim (get_descriptor (λ k. e.fd) n) [
    | none ↦ handle_events max_clients (n + 1) d later
    | some fd ↦ handle_event max_clients d e r >>= λ d'. handle_events max_clients (n + 1) d' later
  ]

pub data Signal : Type 0 where
  sigterm sighup : Signal

-- One turn of the loop: the waits of getEvents, each with the exit flag that another thread has set
-- before it, the events, and the signal and the failure that come before the turn ends.
pub record Round (D : Type 0) : Type 0 where
  pub waits : List (Bool × Wait)
  pub events : List (Event × Reply D)
  pub signal : Option Signal
  pub failure : Bool

-- The exit flag was set before one of the waits.
abbrev flagged : List (Bool × Wait) → Bool
flagged [] = false
flagged ((b, w) ∷ waits) = b || flagged waits

module _ {D : Type 0} where
  -- sig_term
  unfoldable pub sig_term : Daemon D → Option Signal → Daemon D
  sig_term d none = d
  sig_term d (some sigterm) = record d { term_received = true; exit_flag = true }
  sig_term d (some sighup) = record d { hup_received = true; exit_flag = true }

  -- The flags at the end of the turn.
  unfoldable pub end_round : Daemon D → Round D → Daemon D
  unfolding sig_term
  end_round d r =
      sig_term (record d { exit_flag = d.exit_flag || r.failure || flagged r.waits }) r.signal

  -- From RESTART to the end of the turn. epoll_wait is told that `events` has room for curfds
  -- elements, so more events than it has overrun it. None: the wait does not end.
  unfoldable pub turn : ℕ → Daemon D → Round D → Run (Option (Daemon D))
  unfolding handle_events end_round
  turn max_clients d r = elim (get_events (map (λ w. (d.exit_flag || w.0, w.1)) r.waits)) [
    | none ↦ ok none
    | some none ↦ ok (some (end_round d r))
    | some (some nfds) ↦
        if ltb max_descriptors nfds
        then fault out_of_bounds
        else (handle_events max_clients 0 d (take nfds r.events) >>= λ d'.
            ok (some (end_round d' r)))
  ]

  -- The loop, from RESTART on. After a SIGHUP it goes back to RESTART with no test of the flags.
  -- None: it is still running when the rounds end.
  unfoldable pub restart : ℕ → Daemon D → List (Round D) → Run (Option (Daemon D))
  unfolding turn
  restart max_clients d [] = ok none
  restart max_clients d (r ∷ rounds) = turn max_clients d r >>= λ o. elim o [
    | none ↦ ok none
    | some d' ↦
        let again = restart max_clients (record d' { hup_received = false }) rounds in
        let next = restart max_clients d' rounds in
        if d'.hup_received
        then again
        else if d'.term_received || d'.exit_flag
        then ok (some d')
        else next
  ]

  unfoldable pub main_loop : ℕ → Daemon D → List (Round D) → Run (Option (Daemon D))
  unfolding restart
  main_loop max_clients d rounds =
      if d.term_received || d.exit_flag then ok (some d) else restart max_clients d rounds
