-- ===== src/Server.antt =====
-- Cserver::createListener (src/Cserver.h, src/Cserver.cpp): the listening socket. What getaddrinfo,
-- socket, setsockopt, bind and listen give is an argument.
pub mod Descriptors
mod Examples
use correct_gps.Base.{
  ℕ, Bool, true, false, List, [], ◌∷◌, Option, none, some, if◌then◌else◌, without,
}

-- An address of getaddrinfo, with what the calls on it give: `socket` is none for -1.
pub record Address : Type 0 where
  pub socket : Option ℕ
  pub reuse_ok : Bool
  pub defer_ok : Bool
  pub bind_ok : Bool

-- The result, none for CKERROR, the open descriptors, and the code that setallthreadexitflag gets.
pub record Listener : Type 0 where
  pub sockfd : Option ℕ
  pub open_fds : List ℕ
  pub exit_code : Option ℕ

-- The loop over the addresses: the socket that is bound, or none where the loop ends without one.
-- The right is a return from inside of it.
pub data Bound : Type 0 where
  bound : ℕ → List ℕ → Bound
  exhausted : List ℕ → Bound
  gave_up : Listener → Bound

-- The calls on a socket that is open, up to the break.
unfoldable pub bind_socket : ℕ → List ℕ → Address → Bound → Bound
bind_socket fd open_fds a later =
    if a.reuse_ok
    then (if a.defer_ok
        then (if a.bind_ok then bound fd open_fds else later)
        else gave_up (record { sockfd = none; open_fds = open_fds; exit_code = some 203 }))
    else gave_up (record { sockfd = none; open_fds = open_fds; exit_code = some 202 })

-- A socket that cannot be bound is closed.
unfoldable pub bind_first : List ℕ → List Address → Bound
unfolding bind_socket
bind_first open_fds [] = exhausted open_fds
bind_first open_fds (a ∷ later) = elim a.socket [
  | none ↦ bind_first open_fds later
  | some fd ↦ bind_socket fd (fd ∷ open_fds) a (bind_first (without fd (fd ∷ open_fds)) later)
]

-- Behind the loop.
unfoldable pub listen_on : Bool → Bound → Listener
listen_on listen_ok (gave_up l) = l
listen_on listen_ok (exhausted open_fds) = record {
  sockfd = none;
  open_fds = open_fds;
  exit_code = some 204;
}
listen_on true (bound fd open_fds) = record {
  sockfd = some fd;
  open_fds = open_fds;
  exit_code = none;
}
listen_on false (bound fd open_fds) = record {
  sockfd = none;
  open_fds = without fd open_fds;
  exit_code = some 205;
}

-- `servinfo` is none where getaddrinfo fails.
unfoldable pub create_listener : Option (List Address) → Bool → List ℕ → Listener
unfolding bind_first listen_on
create_listener none listen_ok open_fds = record {
  sockfd = none;
  open_fds = open_fds;
  exit_code = some 201;
}
create_listener (some servinfo) listen_ok open_fds =
    listen_on listen_ok (bind_first open_fds servinfo)
