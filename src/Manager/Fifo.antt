-- ===== src/Manager/Fifo.antt =====
-- The queue of whole requests over a run of the threads: what was notified, and what was taken.
use correct_gps.Base.{
  ℕ, ◌≡◌, refl, ap, sym, subst, ◌∙◌, true, false, List, [], ◌∷◌, ◌++◌, Option, none, some, Run, ok,
  fault, ◌>>=◌, arith, Yields,
}
use mathlib.Core.List.{append_assoc, append-nil}
use correct_gps.Client.{Client, Received, Outcome, killed, alive, receive}
use correct_gps.Manager.{
  Manager, find_client, add_to_queue, get_new_client, notificationthreads, after_receive, take_fd,
  do_read,
}
use correct_gps.Manager.Schedule.{WorkedQueue, do_kill-SameQueue, work-SameQueue}
use correct_gps.Manager.Steps.{
  Worker, WorkerStep, wakes, takes, works, kills, skips, accept, Step, accepts, reads, drops,
  worker, Reachable, starts, then_step,
}

abbrev pub held : Option ℕ → List ℕ
held none = []
held (some fd) = fd ∷ []

module _ {D : Type 0} where
  -- The connection whose request a read makes whole.
  abbrev told_by : Run (Outcome D) → List ℕ
  told_by (ok killed) = []
  told_by (ok (alive c told)) = elim told [ true ↦ c.fd ∷ [] | false ↦ [] ]
  told_by (fault e) = []

  unfoldable pub told : Manager D → ℕ → Received → List ℕ
  told m fd received = elim (find_client fd m.clientqueue) [
    | none ↦ []
    | some c ↦ told_by (receive c received)
  ]

  -- The connection that a worker holds once it has taken from a queue that was not empty.
  unfoldable pub taken_by : Manager D → Option ℕ → List ℕ
  taken_by m fd = elim m.msglist [ [] ↦ [] | first ∷ rest ↦ held (take_fd m fd).1 ]

  abbrev step_told : {m n : Manager D} {ws vs : List Worker} → Step m ws n vs → List ℕ
  step_told (accepts m ws max_clients now fd raw granted new) = []
  step_told (reads m n ws fd received granted e) = told m fd received
  step_told (drops m ws fd) = []
  step_told (worker m n before behind w v s) = []

  abbrev worker_taken : {m n : Manager D} {w v : Worker} → WorkerStep m w n v → List ℕ
  worker_taken (wakes m fd signalled set) = []
  worker_taken (takes m fd) = taken_by m fd
  worker_taken (works m n x fd pc new e) = []
  worker_taken (kills m fd pc k) = []
  worker_taken (skips m fd) = []

  abbrev step_taken : {m n : Manager D} {ws vs : List Worker} → Step m ws n vs → List ℕ
  step_taken (accepts m ws max_clients now fd raw granted new) = []
  step_taken (reads m n ws fd received granted e) = []
  step_taken (drops m ws fd) = []
  step_taken (worker m n before behind w v s) = worker_taken s

  -- The connections that were notified, and those that a worker took from the queue, in order.
  abbrev pub all_told : {m : Manager D} {ws : List Worker} → Reachable m ws → List ℕ
  all_told (starts fds max_worker) = []
  all_told (then_step m n ws vs r s) = all_told r ++ step_told s

  abbrev pub all_taken : {m : Manager D} {ws : List Worker} → Reachable m ws → List ℕ
  all_taken (starts fds max_worker) = []
  all_taken (then_step m n ws vs r s) = all_taken r ++ step_taken s

  accept-queue :
      (max_clients now fd : ℕ) (raw : Client D) (m : Manager D)
      → (accept max_clients raw now m fd).msglist ≡ m.msglist
  unfolding add_to_queue get_new_client
  accept-queue max_clients now fd raw m = ground arith

  after_receive-queue :
      (m : Manager D) (fd : ℕ) (c : Client D) (o : Outcome D)
      → (after_receive m fd c o).msglist ≡ m.msglist ++ told_by (ok o)
  unfolding after_receive notificationthreads
  after_receive-queue m fd c killed = (do_kill-SameQueue m c.fd).0 ∙ sym (append-nil m.msglist)
  after_receive-queue m fd c (alive b true) = refl
  after_receive-queue m fd c (alive b false) = sym (append-nil m.msglist)

  do_read-queue :
      (m : Manager D) (fd : ℕ) (received : Received)
      → Yields (λ n. n.msglist ≡ m.msglist ++ told m fd received) (do_read m fd received)
  unfolding do_read told
  do_read-queue m fd received = by_client (find_client fd m.clientqueue)
    where
      by_run :
          (c : Client D) (r : Run (Outcome D))
          → Yields
              (λ n. n.msglist ≡ m.msglist ++ told_by r)
              (r >>= λ o. ok (after_receive m fd c o))
      by_run c (ok o) = after_receive-queue m fd c o
      by_run c (fault e) = tt

      by_client :
          (o : Option (Client D))
          → let t : List ℕ = elim o [ none ↦ [] | some c ↦ told_by (receive c received) ] in
            let q : Run (Manager D) = elim o [
              | none ↦ ok m
              | some c ↦ receive c received >>= λ k. ok (after_receive m fd c k)
            ] in
            Yields (λ n. n.msglist ≡ m.msglist ++ t) q
      by_client none = sym (append-nil m.msglist)
      by_client (some c) = by_run c (receive c received)

  take_fd-queue :
      (m : Manager D) (fd : Option ℕ) → taken_by m fd ++ (take_fd m fd).0.msglist ≡ m.msglist
  unfolding taken_by take_fd
  take_fd-queue m fd = ground arith

  worker-queue :
      (m n : Manager D) (w v : Worker) (s : WorkerStep m w n v)
      → worker_taken s ++ n.msglist ≡ m.msglist
  worker-queue _ _ _ _ (wakes m fd signalled set) = refl
  worker-queue _ _ _ _ (takes m fd) = take_fd-queue m fd
  worker-queue _ _ _ _ (works m n x fd pc new e) =
      (subst (Yields (WorkedQueue m)) e (work-SameQueue x m fd)).0
  worker-queue _ _ _ _ (kills m fd pc k) = (do_kill-SameQueue m k).0
  worker-queue _ _ _ _ (skips m fd) = refl

  Step-queue :
      (m n : Manager D) (ws vs : List Worker) (s : Step m ws n vs)
      → m.msglist ++ step_told s ≡ step_taken s ++ n.msglist
  Step-queue _ _ _ _ (accepts m ws max_clients now fd raw granted new) =
      append-nil m.msglist ∙ sym (accept-queue max_clients now fd raw m)
  Step-queue _ _ _ _ (reads m n ws fd received granted e) = sym (
      subst (Yields (λ k. k.msglist ≡ m.msglist ++ told m fd received)) e
        (do_read-queue m fd received))
  Step-queue _ _ _ _ (drops m ws fd) = append-nil m.msglist ∙ sym (do_kill-SameQueue m fd).0
  Step-queue _ _ _ _ (worker m n before behind w v s) =
      append-nil m.msglist ∙ sym (worker-queue m n w v s)

  -- However the threads interleave, no request is lost in the queue, taken twice, or overtaken: the
  -- connections that were notified are those that workers held once they had taken them, in the same
  -- order, and then those that wait in the queue.
  pub all_told-queue :
      (m : Manager D) (ws : List Worker) (r : Reachable m ws)
      → all_told r ≡ all_taken r ++ m.msglist
  all_told-queue _ _ (starts fds max_worker) = refl
  all_told-queue _ _ (then_step m n ws vs r s) =
      ap (λ l. l ++ step_told s) (all_told-queue m ws r)
      ∙ append_assoc (all_taken r) m.msglist (step_told s)
      ∙ ap (λ l. all_taken r ++ l) (Step-queue m n ws vs s)
      ∙ sym (append_assoc (all_taken r) (step_taken s) n.msglist)
