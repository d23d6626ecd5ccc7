-- ===== src/Manager/Safety.antt =====
-- The main loop reads within its buffers in each state that the threads can reach.
use correct_gps.Base.{
  ℕ, arith, subst, List, Option, none, some, Yields, Yields-map, Yields-any, Yields-after, Within,
}
use correct_gps.Client.{Client, Received, set_send2_car_server}
use correct_gps.Client.Parse.{IsBounded}
use correct_gps.Sender.{OpenFds}
use correct_gps.Correct.{corrected, correctgps_worker}
use correct_gps.Exchange.{Talk, send2_car_server}
use correct_gps.Manager.{Manager, Context, put_client, take_fd, send_corrected, work, do_read}
use correct_gps.Manager.Bounds.{
  IsShort, AreBounded, AreBounded-find, AreBounded-put, HasBoundedRest, do_kill-AreBounded,
  accept-AreBounded, do_read-AreBounded,
}
use correct_gps.Manager.Steps.{
  Worker, WorkerStep, wakes, takes, works, kills, skips, Step, accepts, reads, drops, worker,
  Reachable, starts, then_step,
}
use correct_gps.Manager.Work.{after_exchange, send_corrected-Yields, work-Yields}

module _ {D : Type 0} where
  -- Each read gives so many bytes that they are `IsShort`, and the members that the constructor of a
  -- client leaves as they are hold texts of their sizes.
  abbrev pub IsShortStep : {m n : Manager D} {ws vs : List Worker} → Step m ws n vs → Type 0
  IsShortStep (accepts m ws max_clients now fd raw granted new) = HasBoundedRest raw
  IsShortStep (reads m n ws fd received granted e) = IsShort received
  IsShortStep (drops m ws fd) = Unit
  IsShortStep (worker m n before behind w v s) = Unit

  abbrev pub IsShortRun : {m : Manager D} {ws : List Worker} → Reachable m ws → Type 0
  IsShortRun (starts fds max_worker) = Unit
  IsShortRun (then_step m n ws vs r s) = IsShortRun r × IsShortStep s

  -- The worker leaves the texts of the client and the number of bytes that wait.
  abbrev SameSizes : Client D → Client D → Type 0
  SameSizes c b = IsBounded c → IsBounded b

  correctgps_worker-SameSizes :
      (x : Context D) (c : Client D)
      → Yields (SameSizes c) (correctgps_worker x.doubles x.infomap x.gpsxy c)
  unfolding correctgps_worker set_send2_car_server
  correctgps_worker-SameSizes x c =
      Yields-after (SameSizes c) (corrected x.doubles x.infomap x.gpsxy c) _ (λ gps b. record {
        waiting = b.waiting;
        serial_fits = b.serial_fits;
        md5_fits = b.md5_fits;
        xbaidu_fits = b.xbaidu_fits;
        ybaidu_fits = b.ybaidu_fits;
        plain = b.plain;
        blank_end = b.blank_end;
      })

  abbrev StayBounded : Option (Manager D × Option ℕ) → Type 0
  StayBounded none = Unit
  StayBounded (some (n, pc)) = AreBounded n.clientqueue

  send_corrected-StayBounded :
      (x : Context D) (m : Manager D) (fd : ℕ) (c : Client D)
      → IsBounded c
      → AreBounded m.clientqueue
      → Yields StayBounded (send_corrected x m fd c)
  send_corrected-StayBounded x m fd c small h =
      send_corrected-Yields StayBounded x m fd c
        (Yields-map (λ o. Unit) (λ o. StayBounded (after_exchange m fd c o))
          (send2_car_server x.settings c x.sender m.open_fds x.answers)
          (sent (AreBounded-put fd c m.clientqueue small h))
          (Yields-any (send2_car_server x.settings c x.sender m.open_fds x.answers)))
        (AreBounded-put fd c m.clientqueue small h)
    where
      sent :
          AreBounded (put_client fd c m.clientqueue)
          → (o : Option (OpenFds × Option Talk)) → Unit {0}
          → StayBounded (after_exchange m fd c o)
      sent kept none t = tt
      sent kept (some (fds, text)) t = kept

  work-StayBounded :
      (x : Context D) (m : Manager D) (fd : Option ℕ)
      → AreBounded m.clientqueue
      → Yields StayBounded (work x m fd)
  work-StayBounded x m fd h =
      work-Yields StayBounded SameSizes x m fd (correctgps_worker-SameSizes x) h (λ k c b e same.
        send_corrected-StayBounded x m k b (same (AreBounded-find k c m.clientqueue h e)) h)

  take_fd-AreBounded :
      (m : Manager D) (fd : Option ℕ)
      → AreBounded m.clientqueue
      → AreBounded (take_fd m fd).0.clientqueue
  unfolding take_fd
  take_fd-AreBounded m fd h = ground arith

  WorkerStep-AreBounded :
      (m n : Manager D) (w v : Worker)
      → WorkerStep m w n v
      → AreBounded m.clientqueue
      → AreBounded n.clientqueue
  WorkerStep-AreBounded _ _ _ _ (wakes m fd signalled set) h = h
  WorkerStep-AreBounded _ _ _ _ (takes m fd) h = take_fd-AreBounded m fd h
  WorkerStep-AreBounded _ _ _ _ (works m n x fd pc new e) h =
      subst (Yields StayBounded) e (work-StayBounded x m fd h)
  WorkerStep-AreBounded _ _ _ _ (kills m fd pc k) h = do_kill-AreBounded m k h
  WorkerStep-AreBounded _ _ _ _ (skips m fd) h = h

  Step-AreBounded :
      (m n : Manager D) (ws vs : List Worker) (s : Step m ws n vs)
      → IsShortStep s
      → AreBounded m.clientqueue
      → AreBounded n.clientqueue
  Step-AreBounded _ _ _ _ (accepts m ws max_clients now fd raw granted new) k h =
      accept-AreBounded max_clients now fd raw m k h
  Step-AreBounded _ _ _ _ (reads m n ws fd received granted e) k h =
      subst (Within (λ n. AreBounded n.clientqueue)) e (do_read-AreBounded m fd received h k)
  Step-AreBounded _ _ _ _ (drops m ws fd) k h = do_kill-AreBounded m fd h
  Step-AreBounded _ _ _ _ (worker m n before behind w v s) k h = WorkerStep-AreBounded m n w v s h

  Reachable-AreBounded :
      (m : Manager D) (ws : List Worker) (r : Reachable m ws)
      → IsShortRun r
      → AreBounded m.clientqueue
  Reachable-AreBounded _ _ (starts fds max_worker) k = tt
  Reachable-AreBounded _ _ (then_step m n ws vs r s) k =
      Step-AreBounded m n ws vs s k.1 (Reachable-AreBounded m ws r k.0)

  -- Whatever the workers do in between, and in any order, while each read gives at most 3971 bytes,
  -- none of them '%', in a year of four digits, and the members that a client starts with fit: every
  -- client's texts have their sizes, and the next such read, on any connection, with the message that
  -- it logs, stays within its buffers, or ends at an assert or at a copy of regions that overlap.
  pub do_read-Reachable :
      (m : Manager D) (ws : List Worker) (r : Reachable m ws) (fd : ℕ) (received : Received)
      → IsShortRun r
      → IsShort received
      → AreBounded m.clientqueue × Within (λ n. AreBounded n.clientqueue) (do_read m fd received)
  do_read-Reachable m ws r fd received k short =
      let b : AreBounded m.clientqueue = Reachable-AreBounded m ws r k in
      (b, do_read-AreBounded m fd received b short)
