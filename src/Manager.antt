-- ===== src/Manager.antt =====
-- CclientManager (src/CclientManager.h, src/CclientManager.cpp): the connections of the phones, the
-- queue of whole requests, and the loop of the worker threads. The threads interleave at the points
-- where they take or leave a lock: a step of Manager.Steps is what one of them does in between.
pub mod Steps
pub mod Lookup
pub mod Invariant
pub mod Bounds
pub mod Timeout
pub mod Shutdown
pub mod Work
pub mod Reachable
pub mod Safety
pub mod Threads
pub mod Connections
pub mod Schedule
pub mod Fifo
pub mod Delivery
mod Examples
use correct_gps.Base.{
  ℕ, ◌+◌, Bool, true, false, ◌&&◌, ◌||◌, List, [], ◌∷◌, ◌++◌, Option, none, some, ltb, ◌==◌,
  if◌then◌else◌, Run, ok, ◌>>=◌, length, without,
}
use correct_gps.Client.{
  Client, ini, Received, Outcome, killed, alive, receive, get_send2_car_server,
}
use correct_gps.OffsetArray.{Poi}
use correct_gps.Correct.{InfoMap, Doubles, correctgps_worker}
use correct_gps.Sender.{Sender}
use correct_gps.Exchange.{Talk, Answers, Settings, send2_car_server}

-- CLIENT_MAP: the entries of the std::map. A client is deleted with its entry, so the entry is the
-- client.
abbrev pub ClientMap : Type 0 → Type 0
ClientMap D = List (ℕ × Client D)

-- `open_fds` are the descriptors that the process has open, `talks` what its exchanges have said
-- so far.
pub record Manager (D : Type 0) : Type 0 where
  pub clientqueue : ClientMap D
  pub msglist : List ℕ
  pub test_cond : Bool
  pub open_fds : List ℕ
  pub talks : List Talk

module _ {D : Type 0} where
  unfoldable pub find_client : ℕ → ClientMap D → Option (Client D)
  find_client fd [] = none
  find_client fd ((k, c) ∷ q) = if k == fd then some c else find_client fd q

  unfoldable pub erase_client : ℕ → ClientMap D → ClientMap D
  erase_client fd [] = []
  erase_client fd ((k, c) ∷ q) =
      let rest = erase_client fd q in if k == fd then rest else (k, c) ∷ rest

  -- it->second = c, or what is written through it->second
  unfoldable pub put_client : ℕ → Client D → ClientMap D → ClientMap D
  put_client fd c [] = []
  put_client fd c ((k, b) ∷ q) =
      let rest = put_client fd c q in if k == fd then (k, c) ∷ q else (k, b) ∷ rest

  -- `raw` is the new client before its constructor has run.
  unfoldable pub get_new_client : ℕ → Client D → ℕ → Manager D → ℕ → Option (Client D)
  get_new_client max_clients raw now m fd =
      if ltb (length m.clientqueue) max_clients then some (ini raw fd now) else none

  -- To delete a client closes its descriptor.
  unfoldable pub add_to_queue : ℕ → Client D → ℕ → Manager D → ℕ → Manager D
  add_to_queue max_clients raw now m fd = elim (get_new_client max_clients raw now m fd) [
    | none ↦ m
    | some c ↦ elim (find_client fd m.clientqueue) [
      | none ↦ record m { clientqueue = (fd, c) ∷ m.clientqueue }
      | some old ↦ record m {
        clientqueue = put_client fd c m.clientqueue;
        open_fds = without old.fd m.open_fds;
      }
    ]
  ]

  unfoldable pub do_kill : Manager D → ℕ → Manager D
  do_kill m fd = elim (find_client fd m.clientqueue) [
    | none ↦ m
    | some c ↦ record m {
      clientqueue = erase_client fd m.clientqueue;
      open_fds = without c.fd m.open_fds;
    }
  ]

  unfoldable pub notificationthreads : Manager D → ℕ → Manager D
  notificationthreads m fd = record m { msglist = m.msglist ++ fd ∷ []; test_cond = true }

  -- What the client has made of the bytes: it is killed, or changed, with its request whole or not.
  unfoldable pub after_receive : Manager D → ℕ → Client D → Outcome D → Manager D
  after_receive m fd c killed = do_kill m c.fd
  after_receive m fd c (alive c' told) =
      let kept = record m { clientqueue = put_client fd c' m.clientqueue } in
      if told then notificationthreads kept c'.fd else kept

  unfoldable pub do_read : Manager D → ℕ → Received → Run (Manager D)
  unfolding after_receive
  do_read m fd received = elim (find_client fd m.clientqueue) [
    | none ↦ ok m
    | some c ↦ receive c received >>= λ o. ok (after_receive m fd c o)
  ]

  -- What a worker takes from the queue. It keeps the descriptor it had where the queue is empty.
  unfoldable pub take_fd : Manager D → Option ℕ → Manager D × Option ℕ
  take_fd m fd = elim m.msglist [
    | [] ↦ (m, fd)
    | first ∷ rest ↦ (record m { msglist = rest }, some first)
  ]

-- The talk of an exchange that had one.
abbrev pub said : Option Talk → List Talk
said none = []
said (some talk) = talk ∷ []

-- What a worker reads besides the manager: the numbers, the map of the offsets, the settings, what
-- its stack holds, and what the system answers.
pub record Context (D : Type 0) : Type 0 where
  pub doubles : Doubles D
  pub infomap : InfoMap D
  pub settings : Settings D
  pub gpsxy : Poi D
  pub sender : Sender
  pub answers : Answers

module _ {D : Type 0} (x : Context D) where
  -- The exchange for a client that is corrected and has a serial, and the descriptor to kill.
  unfoldable pub send_corrected : Manager D → ℕ → Client D → Run (Option (Manager D × Option ℕ))
  send_corrected m fd c =
      let kept = record m { clientqueue = put_client fd c m.clientqueue } in
      if get_send2_car_server c && ltb 0 (length c.serial)
      then (send2_car_server x.settings c x.sender m.open_fds x.answers >>= λ o. elim o [
        | none ↦ ok none
        | some (fds, talk) ↦
            ok (some (record kept { open_fds = fds; talks = m.talks ++ said talk }, some c.fd))
      ])
      else ok (some (kept, none))

  -- The part of the loop under the lock of the map. None: the exchange still waits.
  unfoldable pub work : Manager D → Option ℕ → Run (Option (Manager D × Option ℕ))
  unfolding send_corrected
  work m none = ok (some (m, none))
  work m (some fd) = elim (find_client fd m.clientqueue) [
    | none ↦ ok (some (m, none))
    | some c ↦ correctgps_worker x.doubles x.infomap x.gpsxy c >>= λ c'. send_corrected m fd c'
  ]
