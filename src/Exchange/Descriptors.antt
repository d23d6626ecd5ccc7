-- ===== src/Exchange/Descriptors.antt =====
-- Which descriptors an exchange with the car server leaves open.
use correct_gps.Base.{
  ℕ, ◌≡◌, refl, ◌∙◌, Bool, true, false, List, ◌∷◌, Bytes, Option, none, some, ok, ◌>>=◌, contains,
  without, without-absent, arith, Yields, Yields-bind, Yields-after,
}
use correct_gps.Client.{Client}
use correct_gps.Sender.{
  Sender, OpenFds, close, ConnectResult, connect, send_request, connected, in_progress, refused,
  wait_connect,
}
use correct_gps.Sender.Feedback.{Turn, Reading, start_reading, recv_loop, end_reading, recv}
use correct_gps.Exchange.{Answers, Settings, Talk, feedback, after_connect, ask, send2_car_server}

-- Recv closes the socket of its sender, if it ends.
abbrev Closes : ℕ → OpenFds → Option (Sender × OpenFds × ℕ) → Type 0
Closes fd open_fds none = Unit
Closes fd open_fds (some (s, fds, ret)) = fds ≡ without fd open_fds

abbrev on_socket : ℕ → Sender → Sender
on_socket fd s = record s { sockfd = some fd }

end_reading-Closes :
    (s : Sender) (open_fds : OpenFds) (fd : ℕ) (r : Reading) (ret : ℕ)
    → Yields (λ q. q.1 ≡ without fd open_fds) (end_reading (on_socket fd s) open_fds r ret)
unfolding end_reading close
end_reading-Closes s open_fds fd r ret = ground arith

recv-Closes :
    (outtime : ℕ) (s : Sender) (open_fds : OpenFds) (fd : ℕ) (turns : List Turn)
    → Yields (Closes fd open_fds) (recv outtime (on_socket fd s) open_fds turns)
unfolding recv
recv-Closes outtime s open_fds fd turns =
    Yields-after _ (recv_loop outtime (start_reading s.fb) turns) _ closing
  where
    closing :
        (o : Option (Reading × ℕ))
        → Yields (Closes fd open_fds) (elim o [
          | none ↦ ok none
          | some (r, ret) ↦ end_reading (on_socket fd s) open_fds r ret >>= λ q. ok (some q)
        ])
    closing none = tt
    closing (some (r, ret)) =
        Yields-bind (λ q. q.1 ≡ without fd open_fds) _ (end_reading (on_socket fd s) open_fds r ret)
          _ (end_reading-Closes s open_fds fd r ret) (λ q e. e)

-- Answered, with no descriptor left open, or not, with its socket left open.
pub data Ends (open_fds : OpenFds) (fd : ℕ) : Option (OpenFds × Option Talk) → Type 0 where
  waits : Ends open_fds fd none
  answered :
      (fds : OpenFds) (talk : Talk) → fds ≡ open_fds → Ends open_fds fd (some (fds, some talk))
  leaks : (fds : OpenFds) → fds ≡ fd ∷ open_fds → Ends open_fds fd (some (fds, none))

module _ {D : Type 0} (g : Settings D) (c : Client D) (s : Sender) (open_fds : OpenFds) (fd : ℕ)
    (new : contains open_fds fd ≡ false) where
  closed_again : without fd (fd ∷ open_fds) ≡ open_fds
  closed_again = ground (arith, without-absent fd open_fds new)

  ask-Ends :
      (turns : List Turn)
      → Yields (Ends open_fds fd) (ask g c (on_socket fd s) (fd ∷ open_fds) turns)
  unfolding ask
  ask-Ends turns =
      Yields-after _ (send_request g.domain g.port c.serial c.md5 (g.print c.xgps) (g.print c.ygps))
        _
        (λ request.
          Yields-bind (Closes fd (fd ∷ open_fds)) _
            (recv g.outtime (on_socket fd s) (fd ∷ open_fds) turns) _
            (recv-Closes g.outtime s (fd ∷ open_fds) fd turns) (ending request))
    where
      ending :
          (request : Bytes) (o : Option (Sender × OpenFds × ℕ))
          → Closes fd (fd ∷ open_fds) o
          → Yields (Ends open_fds fd) (elim o [
            | none ↦ ok none
            | some (s', fds', ret) ↦ ok (
                some (fds', some (record { phone = c.fd; request = request; reply = feedback s' })))
          ])
      ending request none h = waits
      ending request (some (s', fds', ret)) h =
          answered fds' (record { phone = c.fd; request = request; reply = feedback s' })
            (h ∙ closed_again)

  -- An exchange on a new socket that ends with no fault either has an answer for the phone and
  -- leaves the open descriptors as they were, or has none and leaves its socket open.
  pub send2_car_server-Ends :
      (a : Answers)
      → a.socket ≡ some fd
      → Yields (Ends open_fds fd) (send2_car_server g c s open_fds a)
  unfolding send2_car_server after_connect connect
  send2_car_server-Ends a h = rw h (by_result a.result)
    where
      by_wait :
          (o : Option Bool)
          → let r : Option (Sender × OpenFds × Bool) = elim o [
            | none ↦ none
            | some answer ↦ some (on_socket fd s, fd ∷ open_fds, answer)
          ] in
            Yields (Ends open_fds fd) (after_connect g c a.turns r)
      by_wait none = waits
      by_wait (some true) = ask-Ends a.turns
      by_wait (some false) = leaks (fd ∷ open_fds) refl

      by_result :
          (result : ConnectResult)
          → Yields
              (Ends open_fds fd)
              (after_connect g c a.turns (connect s open_fds (some fd) result a.reports))
      by_result connected = ask-Ends a.turns
      by_result refused = leaks (fd ∷ open_fds) refl
      by_result in_progress = by_wait (wait_connect a.reports)
