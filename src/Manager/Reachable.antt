-- ===== src/Manager/Reachable.antt =====
-- In each state that the threads can reach, clients and descriptors belong together.
use correct_gps.Base.{
  ℕ, Bool, ◌≡◌, subst, refl, ap, ◌∙◌, true, false, List, Option, none, some, arith, Run, ok, fault,
  contains, Yields, Yields-map, Yields-after, Option-cases, inl, inr,
}
use correct_gps.Client.{Client, set_send2_car_server}
use correct_gps.Sender.{connect, OpenFds}
use correct_gps.Correct.{corrected, correctgps_worker}
use correct_gps.Exchange.{Talk, send2_car_server, after_connect}
use correct_gps.Exchange.Descriptors.{Ends, waits, answered, leaks, send2_car_server-Ends}
use correct_gps.Manager.{Manager, Context, put_client, take_fd, send_corrected, work}
use correct_gps.Manager.Steps.{
  Worker, WorkerStep, wakes, takes, works, kills, skips, Step, accept, registered, accepts, reads,
  drops, worker, Reachable, starts, then_step,
}
use correct_gps.Manager.Work.{after_exchange, send_corrected-Yields, work-Yields}
use correct_gps.Manager.Invariant.{
  IsManaged, do_kill-IsManaged, accept-IsManaged, do_read-IsManaged,
}
use correct_gps.Manager.Lookup.{Managed, Managed-find, Managed-put, Managed-more}

-- An exchange closes no descriptor that was open.
abbrev Opens : OpenFds → Option (OpenFds × Option Talk) → Type 0
Opens open_fds none = Unit
Opens open_fds (some (fds, text)) = (k : ℕ) → contains open_fds k ≡ true → contains fds k ≡ true

Ends→Opens :
    (open_fds : OpenFds) (fd : ℕ) (o : Option (OpenFds × Option Talk))
    → Ends open_fds fd o
    → Opens open_fds o
Ends→Opens open_fds fd _ waits = tt
Ends→Opens open_fds fd _ (answered fds text e) = λ k h. ap (λ l. contains l k) e ∙ h
Ends→Opens open_fds fd _ (leaks fds e) = λ k h. ap (λ l. contains l k) e ∙ ground arith

module _ {D : Type 0} where
  -- The worker leaves the descriptor as it is.
  correctgps_worker-SameFd :
      (x : Context D) (c : Client D)
      → Yields (λ b. b.fd ≡ c.fd) (correctgps_worker x.doubles x.infomap x.gpsxy c)
  unfolding correctgps_worker set_send2_car_server
  correctgps_worker-SameFd x c =
      Yields-after _ (corrected x.doubles x.infomap x.gpsxy c) _ (λ gps. refl)

  exchange-Opens :
      (x : Context D) (c : Client D) (open_fds : OpenFds)
      → ((s : ℕ) → x.answers.socket ≡ some s → contains open_fds s ≡ false)
      → Yields (Opens open_fds) (send2_car_server x.settings c x.sender open_fds x.answers)
  exchange-Opens x c open_fds new = elim (Option-cases x.answers.socket) [
    | inl e ↦ no_socket e
    | inr (s, e) ↦
        weaken s (send2_car_server x.settings c x.sender open_fds x.answers)
          (send2_car_server-Ends x.settings c x.sender open_fds s (new s e) x.answers e)
  ]
    where
      weaken :
          (s : ℕ) (r : Run (Option (OpenFds × Option Talk)))
          → Yields (Ends open_fds s) r
          → Yields (Opens open_fds) r
      weaken s (ok o) h = Ends→Opens open_fds s o h
      weaken s (fault e) h = tt

      no_socket :
          x.answers.socket ≡ none
          → Yields (Opens open_fds) (send2_car_server x.settings c x.sender open_fds x.answers)
      no_socket e = unfold send2_car_server after_connect connect in rw e (λ k h. h)

  -- Where the work is done, the clients are still managed.
  abbrev Worked : Option (Manager D × Option ℕ) → Type 0
  Worked none = Unit
  Worked (some (n, pc)) = IsManaged n

  send_corrected-Worked :
      (x : Context D) (m : Manager D) (fd : ℕ) (c : Client D)
      → ((s : ℕ) → x.answers.socket ≡ some s → contains m.open_fds s ≡ false)
      → c.fd ≡ fd
      → IsManaged m
      → Yields Worked (send_corrected x m fd c)
  send_corrected-Worked x m fd c new same h =
      let kept : Managed m.open_fds (put_client fd c m.clientqueue) =
        Managed-put m.open_fds fd c m.clientqueue same h in
      send_corrected-Yields Worked x m fd c
        (Yields-map (Opens m.open_fds) (λ o. Worked (after_exchange m fd c o))
          (send2_car_server x.settings c x.sender m.open_fds x.answers) (sent kept)
          (exchange-Opens x c m.open_fds new))
        kept
    where
      sent :
          Managed m.open_fds (put_client fd c m.clientqueue)
          → (o : Option (OpenFds × Option Talk)) → Opens m.open_fds o
          → Worked (after_exchange m fd c o)
      sent kept none opens = tt
      sent kept (some (fds, text)) opens =
          Managed-more m.open_fds fds (put_client fd c m.clientqueue) opens kept

  work-Worked :
      (x : Context D) (m : Manager D) (fd : Option ℕ)
      → ((s : ℕ) → x.answers.socket ≡ some s → contains m.open_fds s ≡ false)
      → IsManaged m
      → Yields Worked (work x m fd)
  work-Worked x m fd new h =
      work-Yields Worked (λ c b. b.fd ≡ c.fd) x m fd (correctgps_worker-SameFd x) h
        (λ k c b e same.
          send_corrected-Worked x m k b new
            (same ∙ (Managed-find m.open_fds k c m.clientqueue h e).0) h)

  take_fd-IsManaged : (m : Manager D) (fd : Option ℕ) → IsManaged m → IsManaged (take_fd m fd).0
  unfolding take_fd
  take_fd-IsManaged m fd h = ground arith

  WorkerStep-IsManaged :
      (m n : Manager D) (w v : Worker) → WorkerStep m w n v → IsManaged m → IsManaged n
  WorkerStep-IsManaged _ _ _ _ (wakes m fd signalled set) h = h
  WorkerStep-IsManaged _ _ _ _ (takes m fd) h = take_fd-IsManaged m fd h
  WorkerStep-IsManaged _ _ _ _ (works m n x fd pc new e) h =
      subst (Yields Worked) e (work-Worked x m fd new h)
  WorkerStep-IsManaged _ _ _ _ (kills m fd pc k) h = do_kill-IsManaged m k h
  WorkerStep-IsManaged _ _ _ _ (skips m fd) h = h

  -- The options of each connection are granted.
  abbrev pub IsGrantedStep : {m n : Manager D} {ws vs : List Worker} → Step m ws n vs → Type 0
  IsGrantedStep (accepts m ws max_clients now fd raw granted new) = granted ≡ true
  IsGrantedStep (reads m n ws fd received granted e) = granted ≡ true
  IsGrantedStep (drops m ws fd) = Unit
  IsGrantedStep (worker m n before behind w v s) = Unit

  abbrev pub IsGrantedRun : {m : Manager D} {ws : List Worker} → Reachable m ws → Type 0
  IsGrantedRun (starts fds max_worker) = Unit
  IsGrantedRun (then_step m n ws vs r s) = IsGrantedRun r × IsGrantedStep s

  registered-IsManaged :
      (granted : Bool) (fd : ℕ) (m : Manager D)
      → granted ≡ true
      → IsManaged m
      → IsManaged (registered granted fd m)
  registered-IsManaged granted fd m on h = rw on h

  Step-IsManaged :
      (m n : Manager D) (ws vs : List Worker) (s : Step m ws n vs)
      → IsGrantedStep s
      → IsManaged m
      → IsManaged n
  Step-IsManaged _ _ _ _ (accepts m ws max_clients now fd raw granted new) on h =
      registered-IsManaged granted fd (accept max_clients raw now m fd) on
        (accept-IsManaged max_clients now fd raw m new h)
  Step-IsManaged _ _ _ _ (reads m n ws fd received granted e) on h =
      registered-IsManaged granted fd n on
        (subst (Yields IsManaged) e (do_read-IsManaged m fd received h))
  Step-IsManaged _ _ _ _ (drops m ws fd) on h = do_kill-IsManaged m fd h
  Step-IsManaged _ _ _ _ (worker m n before behind w v s) on h = WorkerStep-IsManaged m n w v s h

  -- While the system grants the options of each connection, in each state that the main loop and the
  -- workers can reach, in any order of their steps, and whatever a worker reads of a client that is
  -- deleted, each
  -- client has its key as its descriptor, which is open, and no two have the same.
  pub Reachable-IsManaged :
      (m : Manager D) (ws : List Worker) (r : Reachable m ws) → IsGrantedRun r → IsManaged m
  Reachable-IsManaged _ _ (starts fds max_worker) on = tt
  Reachable-IsManaged _ _ (then_step m n ws vs r s) on =
      Step-IsManaged m n ws vs s on.1 (Reachable-IsManaged m ws r on.0)
