-- ===== src/Poller.antt =====
-- SelEpolKqEvPrt (src/SelEpolKqEvPrt.h, src/SelEpolKqEvPrt.cpp, the USE_EPOLL build): the epoll set
-- of the main loop. Whether a system call succeeds is an argument; the kernel's interest list and
-- the open descriptors are part of the state.
pub mod Count
mod Examples
use correct_gps.Base.{
  contains, without, ℕ, zero, suc, ◌+◌, ◌-◌, Bool, true, false, List, [], ◌∷◌, Option, none, some,
  ltb, ◌==◌, if◌then◌else◌, ℤ, pos, negsuc,
}

-- MAXDESCRIPTORS, the size of `events`
abbrev pub max_descriptors : ℕ
max_descriptors = 1024

-- `interest` is the kernel's list of the descriptors that the epoll instance watches.
pub record Poller : Type 0 where
  pub sockfd : ℕ
  pub curfds : ℕ
  pub interest : List ℕ
  pub open_fds : List ℕ
  pub exit_flag : Bool

-- The answers of the two setsockopt calls on a descriptor.
pub record SocketOptions : Type 0 where
  pub linger_ok : Bool
  pub timeout_ok : Bool

-- EPOLL_CTL_ADD fails for a descriptor that is not open, or is watched already.
abbrev pub can_add : Poller → ℕ → Bool
can_add p fd =
    if contains p.open_fds fd then (if contains p.interest fd then false else true) else false

-- close (fd), which also takes the descriptor out of the interest list
unfoldable pub close_fd : Poller → ℕ → Poller
close_fd p fd = record p { open_fds = without fd p.open_fds; interest = without fd p.interest }

unfoldable pub register_for_event : Poller → SocketOptions → ℕ → Poller × Bool
unfolding close_fd
register_for_event p o fd =
    if o.linger_ok
    then (if o.timeout_ok
        then (if can_add p fd
            then (record p { interest = fd ∷ p.interest; curfds = p.curfds + 1 }, true)
            else (p, false))
        else (close_fd p fd, false))
    else (close_fd p fd, false)

-- EPOLL_CTL_DEL succeeds for a watched descriptor. curfds is an int, and stays above 0 while it
-- counts the list.
unfoldable pub unregister_for_event : Poller → ℕ → Poller × Bool
unregister_for_event p fd =
    if fd == 0
    then (p, false)
    else if contains p.interest fd
    then (record p { interest = without fd p.interest; curfds = p.curfds - 1 }, true)
    else (p, true)

-- epoll_create's answer, and the registration of the listening socket. A failed epoll_create sets
-- the flag of setallthreadexitflag, and the code goes on.
unfoldable pub initialize : List ℕ → SocketOptions → Bool → ℕ → Poller
unfolding register_for_event
initialize open_fds o created sockfd =
    (register_for_event
      (record {
        sockfd = sockfd;
        curfds = 1;
        interest = [];
        open_fds = open_fds;
        exit_flag = if created then false else true;
      })
      o sockfd).0

pub is_listening_descriptor : Poller → ℕ → Bool
is_listening_descriptor p fd = fd == p.sockfd

-- What epoll_wait gives: a number of events, EINTR, or another error.
pub data Wait : Type 0 where
  events : ℕ → Wait
  interrupted failed : Wait

-- getEvents: the waits are tried in turn, each with the exit flag that holds before it. It is none
-- for -1; the outer none is for waits that end while it still waits.
unfoldable pub get_events : List (Bool × Wait) → Option (Option ℕ)
get_events [] = none
get_events ((true, w) ∷ later) = some none
get_events ((false, events n) ∷ later) = some (some n)
get_events ((false, interrupted) ∷ later) = get_events later
get_events ((false, failed) ∷ later) = some none

-- getDescriptor: the descriptor of an event, or none for -1.
unfoldable pub get_descriptor : (ℕ → ℕ) → ℕ → Option ℕ
get_descriptor event_fd index = if ltb index max_descriptors then some (event_fd index) else none
