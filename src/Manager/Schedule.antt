-- ===== src/Manager/Schedule.antt =====
-- Requests in the queue, and the flag that wakes the workers.
use correct_gps.Base.{
  ℕ, ◌≡◌, ◌∙◌, ap, subst, refl, false, List, [], ◌∷◌, ◌++◌, Option, none, some, arith, ok, Yields,
  Yields-map, Yields-any,
}
use correct_gps.Client.{Client}
use correct_gps.Sender.{OpenFds}
use correct_gps.Correct.{correctgps_worker}
use correct_gps.Exchange.{Talk, send2_car_server}
use correct_gps.Manager.Work.{after_exchange, send_corrected-Yields, work-Yields}
use correct_gps.Manager.{Manager, Context, do_kill, notificationthreads, take_fd, work}

module _ {D : Type 0} where
  -- The queue and the flag are as before.
  abbrev pub SameQueue : Manager D → Manager D → Type 0
  SameQueue m n = (n.msglist ≡ m.msglist) × (n.test_cond ≡ m.test_cond)

  abbrev pub WorkedQueue : Manager D → Option (Manager D × Option ℕ) → Type 0
  WorkedQueue m none = Unit
  WorkedQueue m (some (n, pc)) = SameQueue m n

  pub do_kill-SameQueue : (m : Manager D) (fd : ℕ) → SameQueue m (do_kill m fd)
  unfolding do_kill
  do_kill-SameQueue m fd = ground arith

  pub work-SameQueue :
      (x : Context D) (m : Manager D) (fd : Option ℕ) → Yields (WorkedQueue m) (work x m fd)
  work-SameQueue x m fd =
      work-Yields (WorkedQueue m) (λ c b. Unit) x m fd
        (λ c. Yields-any (correctgps_worker x.doubles x.infomap x.gpsxy c)) (refl, refl)
        (λ k c b e t.
          send_corrected-Yields (WorkedQueue m) x m k b
            (Yields-map (λ o. Unit) (λ o. WorkedQueue m (after_exchange m k b o))
              (send2_car_server x.settings b x.sender m.open_fds x.answers) (sent k b)
              (Yields-any (send2_car_server x.settings b x.sender m.open_fds x.answers)))
            (refl, refl))
    where
      sent :
          (k : ℕ) (b : Client D) (o : Option (OpenFds × Option Talk))
          → Unit {0}
          → WorkedQueue m (after_exchange m k b o)
      sent k b none t = tt
      sent k b (some (fds, text)) t = (refl, refl)

  -- The rest of a turn of the worker's loop: DoKill, if there is a client to kill.
  unfoldable pub end_turn : Manager D → Option ℕ → Manager D
  end_turn m none = m
  end_turn m (some pc) = do_kill m pc

  end_turn-SameQueue : (m : Manager D) (pc : Option ℕ) → SameQueue m (end_turn m pc)
  unfolding end_turn
  end_turn-SameQueue m none = (refl, refl)
  end_turn-SameQueue m (some pc) = do_kill-SameQueue m pc

  -- What a worker holds between its wait and its work, once it has taken from the queue.
  abbrev pub woken : Manager D → Option ℕ → Manager D × Option ℕ
  woken m fd = take_fd (record m { test_cond = false }) fd

  pub take_fd-first :
      (m : Manager D) (old : Option ℕ) (fd : ℕ) (rest : List ℕ)
      → m.msglist ≡ fd ∷ rest
      → take_fd m old ≡ (record m { msglist = rest }, some fd)
  unfolding take_fd
  take_fd-first m old fd rest e = ground arith

  -- If two requests are notified while a worker is busy and the queue is empty, its next turn takes
  -- the first one, and however the turn ends, it leaves the second in the queue with the flag down.
  pub end_turn-leaves_second :
      (x : Context D) (m n : Manager D) (a b : ℕ) (old pc : Option ℕ)
      → m.msglist ≡ []
      → let taken = woken (notificationthreads (notificationthreads m a) b) old in
        work x taken.0 taken.1 ≡ ok (some (n, pc))
        → (taken.1 ≡ some a)
          × ((end_turn n pc).msglist ≡ b ∷ [])
          × ((end_turn n pc).test_cond ≡ false)
  end_turn-leaves_second x m n a b old pc empty worked =
      let m2 : Manager D = record (notificationthreads (notificationthreads m a) b) {
        test_cond = false;
      } in
      let queue : m2.msglist ≡ a ∷ b ∷ [] =
        unfold notificationthreads in ap (λ l. (l ++ a ∷ []) ++ b ∷ []) empty in
      let taken : take_fd m2 old ≡ (record m2 { msglist = b ∷ [] }, some a) =
        take_fd-first m2 old a (b ∷ []) queue in
      let same : SameQueue (take_fd m2 old).0 n =
        subst (Yields (WorkedQueue (take_fd m2 old).0)) worked
          (work-SameQueue x (take_fd m2 old).0 (take_fd m2 old).1) in
      let ended : SameQueue n (end_turn n pc) = end_turn-SameQueue n pc in
      (
        ap (λ (t : Manager D × Option ℕ). t.1) taken,
        ended.0 ∙ same.0 ∙ ap (λ (t : Manager D × Option ℕ). t.0.msglist) taken,
        ended.1 ∙ same.1 ∙ ap (λ (t : Manager D × Option ℕ). t.0.test_cond) taken,
      )
