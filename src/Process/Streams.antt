-- ===== src/Process/Streams.antt =====
-- What a daemon has open.
use correct_gps.Base.{
  ℕ, suc, zero, ◌+◌, ◌≤◌, ◌<◌, ◌≡◌, refl, Bool, true, false, List, [], ◌∷◌, Option, none, some,
  ◌==◌, if◌then◌else◌, without, ◌&&◌, subst, arith, All,
}
use correct_gps.Process.{
  Process, Fork, fork_failed, parent, child, Calls, Ending, exited, returned, no_chdir, no_umask0,
  no_close_files, no_reopen_std_fds, close_below, maxfd, has_flag, dup_streams, reopen_streams,
  log_call, with_fd, settle, go_on, second_child, become_daemon,
}

-- Descriptors from n up to below m.
Between : ℕ → ℕ → List ℕ → Type 0
Between n m = All (λ fd. (n ≤ fd) × (fd < m))

without-Between : (n m : ℕ) (l : List ℕ) → Between n m l → Between (n + 1) m (without n l)
unfolding Between
without-Between n m [] h = tt
without-Between n m (g ∷ l) h = ground (arith, without-Between n m l h.1, h.0)

Below-Between : (m : ℕ) (l : List ℕ) → All (λ fd. fd < m) l → Between 0 m l
unfolding Between
Below-Between m [] h = tt
Below-Between m (g ∷ l) (h, t) = ((omega arith, h), Below-Between m l t)

close_below-Between : (n m : ℕ) (l : List ℕ) → Between 0 m l → Between n m (close_below n l)
close_below-Between zero m l h = h
close_below-Between (suc n) m l h =
    let e : n + 1 ≡ suc n = omega arith in
    subst (λ k. Between k m (without n (close_below n l))) e
      (without-Between n m (close_below n l) (close_below-Between n m l h))

Between-empty : (m : ℕ) (l : List ℕ) → Between m m l → l ≡ []
unfolding Between
Between-empty m [] h = refl
Between-empty m (g ∷ l) h = ground (arith, h.0)

-- When every open descriptor is below maxfd, the loop leaves none open.
close_below-empty : (n : ℕ) (l : List ℕ) → All (λ fd. fd < n) l → close_below n l ≡ []
close_below-empty n l h =
    Between-empty n (close_below n l) (close_below-Between n n l (Below-Between n l h))

-- The process that became_daemon leaves, where the call succeeded.
abbrev pub daemon : Ending → Option Process
daemon exited = none
daemon (returned ok p) = if ok then some p else none

abbrev is_child : Fork → Bool
is_child fork_failed = false
is_child parent = false
is_child child = true

abbrev opens_stdin : Option ℕ → Bool
opens_stdin none = false
opens_stdin (some fd) = fd == 0

abbrev streams_work : Calls → Bool
streams_work c = opens_stdin c.null_fd && (c.stdout_ok && c.stderr_ok)

-- Every call that the function looks at works, and this process is the grandchild.
abbrev pub works : Calls → Bool
works c = (is_child c.first_fork && c.setsid_ok) && (is_child c.second_fork && streams_work c)

-- A daemon: no leader of its session, the three standard streams on /dev/null, the descriptor that
-- syslog has opened for its last message and no other; the umask and the directory as the flags say.
abbrev pub settled : ℕ → Option ℕ → Process → Process
settled flags log p = record {
  open_fds = elim log [ none ↦ 2 ∷ 1 ∷ 0 ∷ [] | some fd ↦ with_fd fd (2 ∷ 1 ∷ 0 ∷ []) ];
  session_leader = false;
  at_root = if has_flag flags no_chdir then p.at_root else true;
  masks = if has_flag flags no_umask0 then p.masks else false;
}

log_call-settled :
    (flags : ℕ) (o : Option ℕ) (p : Process) → log_call o (settled flags none p) ≡ settled flags o p
unfolding log_call
log_call-settled flags none p = refl
log_call-settled flags (some fd) p = refl

-- The part behind the second fork.
go_on-daemon :
    (flags : ℕ) (c : Calls) (p : Process)
    → has_flag flags no_close_files ≡ false
    → has_flag flags no_reopen_std_fds ≡ false
    → All (λ fd. fd < maxfd c.open_max) p.open_fds
    → p.session_leader ≡ false
    → daemon (go_on flags c p)
      ≡ (if streams_work c then some (settled flags c.last_log p) else none)
unfolding go_on reopen_streams settle dup_streams
go_on-daemon flags c p keep reopen h leads = ground (
  arith,
  keep,
  reopen,
  leads,
  close_below-empty (maxfd c.open_max) p.open_fds h,
  log_call-settled flags c.last_log p,
)

log_call-same :
    (o : Option ℕ) (p : Process)
    → ((log_call o p).at_root ≡ p.at_root) × ((log_call o p).masks ≡ p.masks)
unfolding log_call
log_call-same none p = (refl, refl)
log_call-same (some fd) p = (refl, refl)

-- With flags that neither keep the open files nor leave out the standard streams, and every open
-- descriptor, that of the first message included, below the limit that the loop of close runs to,
-- become_daemon succeeds exactly when both forks give the child and setsid, open (as descriptor 0)
-- and the two dup2 work; the process then leads no session, has open the descriptors 0, 1 and 2, the
-- one that syslog opens for the last message, if it opens one, and no other, and has the umask and
-- the directory that the flags ask for. In every other case it exits or returns -1.
pub become_daemon-daemon :
    (flags : ℕ) (c : Calls) (p : Process)
    → has_flag flags no_close_files ≡ false
    → has_flag flags no_reopen_std_fds ≡ false
    → All (λ fd. fd < maxfd c.open_max) (log_call c.first_log p).open_fds
    → daemon (become_daemon flags c p)
      ≡ (if works c then some (settled flags c.last_log p) else none)
unfolding become_daemon second_child
become_daemon-daemon flags c p keep reopen h =
    let q = record (log_call c.first_log p) { session_leader = false } in
    ground (arith, go_on-daemon flags c q keep reopen h refl, log_call-same c.first_log p)
