-- ===== src/Process.antt =====
-- becomeDaemon (src/become_daemon.h, src/become_daemon.cpp): the process that goes on in the
-- background, with the descriptors that syslog opens for the messages on the way. What the system
-- calls give is an argument; umask and chdir ("/"), which the code does not check, are taken to
-- work.
pub mod Streams
mod Examples
use correct_gps.Base.{
  ℕ, suc, zero, ◌+◌, ◌/◌, ◌%◌, Bool, true, false, List, [], ◌∷◌, Option, none, some, ◌==◌,
  if◌then◌else◌, without, contains,
}

-- BD_NO_CHDIR, BD_NO_CLOSE_FILES, BD_NO_REOPEN_STD_FDS, BD_NO_UMASK0 and BD_MAX_CLOSE
abbrev pub no_chdir : ℕ
no_chdir = 1

abbrev pub no_close_files : ℕ
no_close_files = 2

abbrev pub no_reopen_std_fds : ℕ
no_reopen_std_fds = 4

abbrev pub no_umask0 : ℕ
no_umask0 = 8

abbrev pub max_close : ℕ
max_close = 8192

-- The state of the process that the function changes; `masks` tells that the umask is not 0.
pub record Process : Type 0 where
  pub open_fds : List ℕ
  pub session_leader : Bool
  pub at_root : Bool
  pub masks : Bool

-- What fork gives.
pub data Fork : Type 0 where
  fork_failed parent child : Fork

-- `first_log` is the descriptor that syslog opens for the first message, if it opens one, and
-- `last_log` that for the last: each way through the function logs one message at its start and
-- one where it ends. `null_fd` is what open ("/dev/null") gives, and `open_max` what sysconf
-- gives, none for -1.
pub record Calls : Type 0 where
  pub first_fork : Fork
  pub first_log : Option ℕ
  pub last_log : Option ℕ
  pub setsid_ok : Bool
  pub second_fork : Fork
  pub open_max : Option ℕ
  pub null_fd : Option ℕ
  pub stdout_ok : Bool
  pub stderr_ok : Bool

-- The process exits, or the function returns: with 0 (true) or -1.
pub data Ending : Type 0 where
  exited : Ending
  returned : Bool → Process → Ending

-- flags & bit, for a bit that is a power of two
abbrev pub has_flag : ℕ → ℕ → Bool
has_flag flags bit = (flags / bit) % 2 == 1

-- for (fd = 0; fd < maxfd; fd++) close (fd)
abbrev pub close_below : ℕ → List ℕ → List ℕ
close_below zero open_fds = open_fds
close_below (suc n) open_fds = without n (close_below n open_fds)

abbrev pub maxfd : Option ℕ → ℕ
maxfd none = max_close
maxfd (some n) = n

-- A descriptor that is opened, or that dup2 puts another file under.
abbrev pub with_fd : ℕ → List ℕ → List ℕ
with_fd fd open_fds = if contains open_fds fd then open_fds else fd ∷ open_fds

-- FLOG_MSG and FLOG_ERR: the message goes to syslog, on a descriptor of its own.
unfoldable pub log_call : Option ℕ → Process → Process
log_call none p = p
log_call (some fd) p = record p { open_fds = with_fd fd p.open_fds }

-- The message, and the return.
abbrev pub returns : Bool → Calls → Process → Ending
returns success c p = returned success (log_call c.last_log p)

-- dup2 (STDIN_FILENO, fd) for the two other streams, once 0 is /dev/null.
unfoldable pub dup_streams : Calls → Process → Ending
dup_streams c p =
    if c.stdout_ok
    then (if c.stderr_ok
        then returns true c (record p { open_fds = with_fd 2 (with_fd 1 p.open_fds) })
        else returns false c (record p { open_fds = with_fd 1 p.open_fds }))
    else returns false c p

unfoldable pub reopen_streams : Calls → Process → Ending
unfolding dup_streams
reopen_streams c p = elim c.null_fd [
  | none ↦ returns false c (record p { open_fds = without 0 p.open_fds })
  | some fd ↦
      let q = record p { open_fds = with_fd fd (without 0 p.open_fds) } in
      if fd == 0 then dup_streams c q else returns false c q
]

-- Behind the second fork.
unfoldable pub settle : ℕ → Calls → Process → Process
settle flags c p = record p {
  masks = if has_flag flags no_umask0 then p.masks else false;
  at_root = if has_flag flags no_chdir then p.at_root else true;
  open_fds =
      if has_flag flags no_close_files
      then p.open_fds
      else close_below (maxfd c.open_max) p.open_fds;
}

unfoldable pub go_on : ℕ → Calls → Process → Ending
unfolding reopen_streams settle
go_on flags c p =
    let q = settle flags c p in
    if has_flag flags no_reopen_std_fds then returns true c q else reopen_streams c q

-- The child of the second fork is no session leader.
unfoldable pub second_child : ℕ → Calls → Process → Ending
unfolding go_on
second_child flags c p = elim c.second_fork [
  | fork_failed ↦ returns false c p
  | parent ↦ exited
  | child ↦ go_on flags c (record p { session_leader = false })
]

unfoldable pub become_daemon : ℕ → Calls → Process → Ending
unfolding second_child
become_daemon flags c p =
    let q = log_call c.first_log p in
    elim c.first_fork [
      | fork_failed ↦ returns false c q
      | parent ↦ exited
      | child ↦
          if c.setsid_ok
          then second_child flags c (record q { session_leader = true })
          else returns false c q
    ]
