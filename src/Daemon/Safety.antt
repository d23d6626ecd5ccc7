-- ===== src/Daemon/Safety.antt =====
-- The main loop stays within the buffers of its clients and the array of the events.
use correct_gps.Base.{
  ℕ, zero, suc, ◌+◌, ◌≤◌, ◌≡◌, refl, Bool, false, ◌||◌, List, [], ◌∷◌, map, take, Option, none,
  some, ltb, arith, if◌then◌else◌, Run, ok, fault, out_of_bounds, ◌>>=◌, All, Within, Within-bind,
  Bool-cases, inl, inr,
}
use correct_gps.Poller.{
  Wait, events, interrupted, failed, max_descriptors, get_events, get_descriptor,
  is_listening_descriptor,
}
use correct_gps.Manager.{do_read}
use correct_gps.Manager.Steps.{accept}
use correct_gps.Manager.Bounds.{
  AreBounded, HasBoundedRest, IsShort, do_kill-AreBounded, accept-AreBounded, do_read-AreBounded,
}
use correct_gps.Daemon.{
  Daemon, Event, Reply, Round, Signal, sigterm, sighup, with_manager, with_poller, register,
  unregister, accept_connection, read_event, hangup_event, handle_event, handle_events, sig_term,
  end_round, turn, restart, main_loop,
}

-- No more events than the array has room for.
abbrev pub IsSized : Wait → Type 0
IsSized (events n) = n ≤ max_descriptors
IsSized interrupted = Unit
IsSized failed = Unit

get_events-size :
    (waits : List (Bool × Wait)) (on : Bool) (n : ℕ)
    → All (λ w. IsSized w.1) waits
    → get_events (map (λ w. (on || w.0, w.1)) waits) ≡ some (some n)
    → n ≤ max_descriptors
unfolding get_events
get_events-size [] on n h e = ground arith
get_events-size ((b, events k) ∷ waits) on n (s, h) e = ground arith
get_events-size ((b, interrupted) ∷ waits) on n (s, h) e =
    ground (arith, get_events-size waits on n h)
get_events-size ((b, failed) ∷ waits) on n (s, h) e = ground arith

module _ {D : Type 0} where
  -- What a read gives is short and has no %, in a year of four digits, and what a new client has
  -- in memory ends within its members.
  pub record IsModest (r : Reply D) : Type 0 where
    pub short : IsShort r.received
    pub raw_fits : HasBoundedRest r.raw

  pub record IsTame (r : Round D) : Type 0 where
    pub sized : All (λ w. IsSized w.1) r.waits
    pub modest : All (λ e. IsModest e.1) r.events

  -- Every client is within its sizes.
  abbrev pub IsKept : Daemon D → Type 0
  IsKept d = AreBounded d.manager.clientqueue

  abbrev pub IsKeptAtEnd : Option (Daemon D) → Type 0
  IsKeptAtEnd none = Unit
  IsKeptAtEnd (some d) = IsKept d

  accept_connection-IsKept :
      (max_clients : ℕ) (d : Daemon D) (r : Reply D)
      → IsKept d
      → IsModest r
      → IsKept (accept_connection max_clients d r)
  unfolding accept_connection register with_manager with_poller
  accept_connection-IsKept max_clients d r k h = by_answer r.accepted
    where
      by_answer :
          (o : Option ℕ)
          → let d' : Daemon D = elim o [
            | none ↦ d
            | some fd ↦
                register (with_manager d (accept max_clients r.raw r.now d.manager fd)) r.options fd
          ] in
            IsKept d'
      by_answer none = k
      by_answer (some fd) = accept-AreBounded max_clients r.now fd r.raw d.manager h.raw_fits k

  read_event-IsKept :
      (d : Daemon D) (e : Event) (r : Reply D)
      → IsKept d
      → IsModest r
      → Within IsKept (read_event d e r)
  unfolding read_event register with_manager with_poller
  read_event-IsKept d e r k h = elim (Bool-cases e.readable) [
    | inl on ↦ rw on (
        Within-bind (λ m. AreBounded m.clientqueue) IsKept (do_read d.manager e.fd r.received) _
          (do_read-AreBounded d.manager e.fd r.received k h.short) (λ m b. b))
    | inr off ↦ rw off k
  ]

  hangup_event-IsKept : (d : Daemon D) (e : Event) → IsKept d → IsKept (hangup_event d e)
  unfolding hangup_event unregister with_manager with_poller
  hangup_event-IsKept d e k = ground (arith, do_kill-AreBounded (unregister d e.fd).manager e.fd k)

  handle_event-IsKept :
      (max_clients : ℕ) (d : Daemon D) (e : Event) (r : Reply D)
      → IsKept d
      → IsModest r
      → Within IsKept (handle_event max_clients d e r)
  unfolding handle_event unregister with_poller
  handle_event-IsKept max_clients d e r k h =
      elim (Bool-cases (is_listening_descriptor d.poller e.fd)) [
        | inl listens ↦ rw listens (accept_connection-IsKept max_clients d r k h)
        | inr other ↦ rw other (
            Within-bind IsKept IsKept (read_event (unregister d e.fd) e r) _
              (read_event-IsKept (unregister d e.fd) e r k h) (λ d' b. hangup_event-IsKept d' e b))
      ]

  handle_events-IsKept :
      (max_clients n : ℕ) (d : Daemon D) (es : List (Event × Reply D))
      → IsKept d
      → All (λ e. IsModest e.1) es
      → Within IsKept (handle_events max_clients n d es)
  unfolding handle_events
  handle_events-IsKept max_clients n d [] k h = k
  handle_events-IsKept max_clients n d ((e, r) ∷ es) k (h, later) =
      by_index (get_descriptor (λ i. e.fd) n)
        (handle_events-IsKept max_clients (n + 1) d es k later)
        (Within-bind IsKept IsKept (handle_event max_clients d e r) _
          (handle_event-IsKept max_clients d e r k h)
          (λ d' b. handle_events-IsKept max_clients (n + 1) d' es b later))
    where
      by_index :
          (o : Option ℕ)
          → Within IsKept (handle_events max_clients (n + 1) d es)
          → Within IsKept
              (handle_event max_clients d e r >>= λ d'. handle_events max_clients (n + 1) d' es)
          → let q : Run (Daemon D) = elim o [
            | none ↦ handle_events max_clients (n + 1) d es
            | some fd ↦
                handle_event max_clients d e r >>= λ d'. handle_events max_clients (n + 1) d' es
          ] in
            Within IsKept q
      by_index none skipped handled = skipped
      by_index (some fd) skipped handled = handled

  sig_term-IsKept : (d : Daemon D) (s : Option Signal) → IsKept d → IsKept (sig_term d s)
  unfolding sig_term
  sig_term-IsKept d none k = k
  sig_term-IsKept d (some sigterm) k = k
  sig_term-IsKept d (some sighup) k = k

  end_round-IsKept : (d : Daemon D) (r : Round D) → IsKept d → IsKept (end_round d r)
  unfolding end_round
  end_round-IsKept d r k = sig_term-IsKept _ r.signal k

  All-take :
      (n : ℕ) (es : List (Event × Reply D))
      → All (λ e. IsModest e.1) es
      → All (λ e. IsModest e.1) (take n es)
  All-take zero es h = tt
  All-take (suc n) [] h = tt
  All-take (suc n) (e ∷ es) (h, t) = (h, All-take n es t)

  turn-IsKept :
      (max_clients : ℕ) (d : Daemon D) (r : Round D)
      → IsKept d
      → IsTame r
      → Within IsKeptAtEnd (turn max_clients d r)
  unfolding turn
  turn-IsKept max_clients d r k h =
      by_wait (get_events (map (λ w. (d.exit_flag || w.0, w.1)) r.waits))
        (λ n e. get_events-size r.waits d.exit_flag n h.sized e)
    where
      handled :
          (n : ℕ)
          → Within IsKeptAtEnd
              (handle_events max_clients 0 d (take n r.events) >>= λ d'. ok (some (end_round d' r)))
      handled n =
          Within-bind IsKept IsKeptAtEnd (handle_events max_clients 0 d (take n r.events)) _
            (handle_events-IsKept max_clients 0 d (take n r.events) k
              (All-take n r.events h.modest))
            (λ d' b. end_round-IsKept d' r b)

      by_wait :
          (o : Option (Option ℕ))
          → ((n : ℕ) → o ≡ some (some n) → n ≤ max_descriptors)
          → let q : Run (Option (Daemon D)) = elim o [
            | none ↦ ok none
            | some none ↦ ok (some (end_round d r))
            | some (some nfds) ↦
                if ltb max_descriptors nfds
                then fault out_of_bounds
                else (handle_events max_clients 0 d (take nfds r.events) >>= λ d'.
                    ok (some (end_round d' r)))
          ] in
            Within IsKeptAtEnd q
      by_wait none fits = tt
      by_wait (some none) fits = end_round-IsKept d r k
      by_wait (some (some n)) fits =
          let small : ltb max_descriptors n ≡ false = ground (arith, fits n refl) in
          rw small (handled n)

  restart-IsKept :
      (max_clients : ℕ) (d : Daemon D) (rounds : List (Round D))
      → IsKept d
      → All IsTame rounds
      → Within IsKeptAtEnd (restart max_clients d rounds)
  unfolding restart
  restart-IsKept max_clients d [] k h = tt
  restart-IsKept max_clients d (r ∷ rounds) k (h, later) =
      Within-bind IsKeptAtEnd IsKeptAtEnd (turn max_clients d r) _ (turn-IsKept max_clients d r k h)
        (by_turn (λ d' b. restart-IsKept max_clients d' rounds b later))
    where
      by_turn :
          ((d' : Daemon D) → IsKept d' → Within IsKeptAtEnd (restart max_clients d' rounds))
          → (o : Option (Daemon D)) → IsKeptAtEnd o
          → let q : Run (Option (Daemon D)) = elim o [
            | none ↦ ok none
            | some d' ↦
                let again = restart max_clients (record d' { hup_received = false }) rounds in
                let next = restart max_clients d' rounds in
                if d'.hup_received
                then again
                else if d'.term_received || d'.exit_flag
                then ok (some d')
                else next
          ] in
            Within IsKeptAtEnd q
      by_turn on none b = tt
      by_turn on (some d') b = ground (arith, b, on d' b, on (record d' { hup_received = false }) b)

  -- Where every read gives at most 3971 bytes and no '%', in a year of four digits, epoll_wait
  -- never reports more events than their array holds, and what a new client has in memory ends
  -- within its members: whatever connections, requests, signals and failures come, in any order,
  -- the main loop reads and writes inside the buffers of its clients and the array of the events,
  -- and no message of parse reads an argument that nobody passed. It stops at a failed assert or
  -- at a copy of overlapping regions, or ends with every client within its sizes, or is still
  -- running when the rounds end.
  pub main_loop-Within :
      (max_clients : ℕ) (d : Daemon D) (rounds : List (Round D))
      → IsKept d
      → All IsTame rounds
      → Within IsKeptAtEnd (main_loop max_clients d rounds)
  unfolding main_loop
  main_loop-Within max_clients d rounds k h = elim (Bool-cases (d.term_received || d.exit_flag)) [
    | inl ended ↦ rw ended k
    | inr goes_on ↦ rw goes_on (restart-IsKept max_clients d rounds k h)
  ]
