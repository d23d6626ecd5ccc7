-- ===== src/Daemon/Signals.antt =====
-- The end of the main loop.
use correct_gps.Base.{
  ℕ, ◌≡◌, refl, subst, ap, ◌∙◌, Bool, true, false, ◌||◌, List, ◌∷◌, map, take, Option, none, some,
  ltb, if◌then◌else◌, Run, ok, fault, out_of_bounds, ◌>>=◌, arith, Yields, Yields-after, Bool-cases,
  ◌⊎◌, inl, inr,
}
use correct_gps.Poller.{Wait, max_descriptors, get_events}
use correct_gps.Daemon.{
  Daemon, Round, Signal, sigterm, sighup, sig_term, end_round, handle_events, turn, restart,
}

module _ {D : Type 0} where
  end_round-signal :
      (d : Daemon D) (r : Round D) (s : Signal)
      → r.signal ≡ some s
      → (end_round d r).exit_flag ≡ true
  unfolding end_round sig_term
  end_round-signal d r sigterm h = ground arith
  end_round-signal d r sighup h = ground arith

  end_round-quiet :
      (d : Daemon D) (r : Round D) → r.signal ≡ none → d.exit_flag ≡ true → (end_round d r ≡ d)
  unfolding end_round sig_term
  end_round-quiet d r h on = ground arith

  abbrev Exits : Option (Daemon D) → Type 0
  Exits none = Unit
  Exits (some d) = d.exit_flag ≡ true

  turn-Exits :
      (max_clients : ℕ) (d : Daemon D) (r : Round D) (s : Signal)
      → r.signal ≡ some s
      → Yields Exits (turn max_clients d r)
  unfolding turn
  turn-Exits max_clients d r s h =
      by_wait (get_events (map (λ w. (d.exit_flag || w.0, w.1)) r.waits))
    where
      by_size :
          (n : ℕ) (b : Bool)
          → Yields Exits (
              if b
              then fault out_of_bounds
              else (handle_events max_clients 0 d (take n r.events) >>= λ d'.
                  ok (some (end_round d' r))))
      by_size n true = tt
      by_size n false =
          Yields-after Exits (handle_events max_clients 0 d (take n r.events)) _
            (λ d'. end_round-signal d' r s h)

      by_wait :
          (o : Option (Option ℕ))
          → let q : Run (Option (Daemon D)) = elim o [
            | none ↦ ok none
            | some none ↦ ok (some (end_round d r))
            | some (some nfds) ↦
                if ltb max_descriptors nfds
                then fault out_of_bounds
                else (handle_events max_clients 0 d (take nfds r.events) >>= λ d'.
                    ok (some (end_round d' r)))
          ] in
            Yields Exits q
      by_wait none = tt
      by_wait (some none) = end_round-signal d r s h
      by_wait (some (some n)) = by_size n (ltb max_descriptors n)

  -- With the exit flag set, getEvents gives up at once and no event is handled.
  turn-flagged :
      (max_clients : ℕ) (d : Daemon D) (r : Round D) (w : Bool × Wait) (ws : List (Bool × Wait))
      → d.exit_flag ≡ true
      → r.waits ≡ w ∷ ws
      → turn max_clients d r ≡ ok (some (end_round d r))
  unfolding turn get_events
  turn-flagged max_clients d r w ws on e = ground arith

  restart-step :
      (max_clients : ℕ) (d d' : Daemon D) (r : Round D) (rounds : List (Round D))
      → turn max_clients d r ≡ ok (some d')
      → restart max_clients d (r ∷ rounds) ≡ (
          if d'.hup_received
          then restart max_clients (record d' { hup_received = false }) rounds
          else if d'.term_received || d'.exit_flag
          then ok (some d')
          else restart max_clients d' rounds)
  unfolding restart
  restart-step max_clients d d' r rounds e = rw e refl

  restart-ends :
      (max_clients : ℕ) (d d' : Daemon D) (r : Round D) (rounds : List (Round D))
      → turn max_clients d r ≡ ok (some d')
      → d'.hup_received ≡ false
      → d'.exit_flag ≡ true
      → restart max_clients d (r ∷ rounds) ≡ ok (some d')
  restart-ends max_clients d d' r rounds e quiet on =
      restart-step max_clients d d' r rounds e ∙ rw (quiet, on) (ground arith)

  restart-again :
      (max_clients : ℕ) (d d' : Daemon D) (r : Round D) (rounds : List (Round D))
      → turn max_clients d r ≡ ok (some d')
      → d'.hup_received ≡ true
      → restart max_clients d (r ∷ rounds)
        ≡ restart max_clients (record d' { hup_received = false }) rounds
  restart-again max_clients d d' r rounds e hup =
      restart-step max_clients d d' r rounds e ∙ rw hup refl

  -- A turn in which a signal arrives, be it SIGTERM or SIGHUP, and which ends with no fault, is the
  -- last one that handles events: after one more call of getEvents at most, if no signal arrives
  -- there, the loop ends with the exit flag set, and the clients are those that the turn has left.
  pub restart-stops :
      (max_clients : ℕ) (d d' : Daemon D) (r later : Round D) (rounds : List (Round D)) (s : Signal)
      (w : Bool × Wait) (ws : List (Bool × Wait))
      → turn max_clients d r ≡ ok (some d')
      → r.signal ≡ some s
      → later.signal ≡ none
      → later.waits ≡ w ∷ ws
      → (e : Daemon D) × (restart max_clients d (r ∷ later ∷ rounds) ≡ ok (some e))
        × (e.exit_flag ≡ true)
        × (e.manager ≡ d'.manager)
  restart-stops max_clients d d' r later rounds s w ws t h quiet waits =
      by_hup (Bool-cases d'.hup_received)
    where
      on : d'.exit_flag ≡ true
      on = subst (Yields Exits) t (turn-Exits max_clients d r s h)

      cleared : Daemon D
      cleared = record d' { hup_received = false }

      by_hup :
          (d'.hup_received ≡ true) ⊎ (d'.hup_received ≡ false)
          → (e : Daemon D) × (restart max_clients d (r ∷ later ∷ rounds) ≡ ok (some e))
            × (e.exit_flag ≡ true)
            × (e.manager ≡ d'.manager)
      by_hup (inl hup) = (
        cleared,
        restart-again max_clients d d' r (later ∷ rounds) t hup
            ∙ restart-ends max_clients cleared cleared later rounds
                (turn-flagged max_clients cleared later w ws on waits
                  ∙ ap (λ e. ok (some e)) (end_round-quiet cleared later quiet on))
                refl on,
        on,
        refl,
      )
      by_hup (inr no_hup) =
          (d', restart-ends max_clients d d' r (later ∷ rounds) t no_hup on, on, refl)
