-- ===== src/Manager/Steps.antt =====
-- The threads as a step relation: the main loop accepts, reads and drops connections, and each
-- worker goes round its loop.
use correct_gps.Base.{
  if◌then◌else◌, without, ℕ, ◌≡◌, Bool, true, false, ◌||◌, List, [], ◌∷◌, ◌++◌, Option, none, some,
  ok, contains, replicate,
}
use correct_gps.Client.{Client, Received}
use correct_gps.Manager.{Manager, Context, add_to_queue, do_kill, do_read, take_fd, work}

-- Where a worker is in its loop, with its variable `fd`, and the descriptor of `pc` behind the lock.
pub data Worker : Type 0 where
  waiting awake chosen : Option ℕ → Worker
  unlocked : (fd pc : Option ℕ) → Worker

module _ {D : Type 0} where
  -- A wait ends when test_cond is set or pthread_cond_timedwait returns other than for its time. A
  -- socket that the system makes has a descriptor that was not open. `kills` reads pc->fd behind the
  -- lock: where the main loop has deleted that client in between, the memory is freed and any k may
  -- come of it, so every k is allowed.
  pub data WorkerStep : Manager D → Worker → Manager D → Worker → Type 1 where
    wakes :
        (m : Manager D) (fd : Option ℕ) (signalled : Bool)
        → (m.test_cond || signalled) ≡ true
        → WorkerStep m (waiting fd) (record m { test_cond = false }) (awake fd)
    takes :
        (m : Manager D) (fd : Option ℕ)
        → WorkerStep m (awake fd) (take_fd m fd).0 (chosen (take_fd m fd).1)
    works :
        (m n : Manager D) (x : Context D) (fd pc : Option ℕ)
        → ((s : ℕ) → x.answers.socket ≡ some s → contains m.open_fds s ≡ false)
        → work x m fd ≡ ok (some (n, pc))
        → WorkerStep m (chosen fd) n (unlocked fd pc)
    kills :
        (m : Manager D) (fd : Option ℕ) (pc k : ℕ)
        → WorkerStep m (unlocked fd (some pc)) (do_kill m k) (waiting fd)
    skips : (m : Manager D) (fd : Option ℕ) → WorkerStep m (unlocked fd none) m (waiting fd)

  -- accept, which gives a descriptor that was not open, and AddToQueue
  abbrev pub accept : ℕ → Client D → ℕ → Manager D → ℕ → Manager D
  accept max_clients raw now m fd =
      add_to_queue max_clients raw now (record m { open_fds = fd ∷ m.open_fds }) fd

  -- registerForEvent on a connection, which closes it where an option is refused. After a read that
  -- has closed the connection it makes no difference.
  abbrev pub registered : Bool → ℕ → Manager D → Manager D
  registered granted fd m = record m {
    open_fds = if granted then m.open_fds else without fd m.open_fds;
  }

  -- The main loop takes any event for any descriptor: which ones it gets is up to the system.
  pub data Step : Manager D → List Worker → Manager D → List Worker → Type 1 where
    accepts :
        (m : Manager D) (ws : List Worker) (max_clients now fd : ℕ) (raw : Client D)
        (granted : Bool)
        → contains m.open_fds fd ≡ false
        → Step m ws (registered granted fd (accept max_clients raw now m fd)) ws
    reads :
        (m n : Manager D) (ws : List Worker) (fd : ℕ) (received : Received) (granted : Bool)
        → do_read m fd received ≡ ok n
        → Step m ws (registered granted fd n) ws
    drops : (m : Manager D) (ws : List Worker) (fd : ℕ) → Step m ws (do_kill m fd) ws
    worker :
        (m n : Manager D) (before behind : List Worker) (w v : Worker)
        → WorkerStep m w n v
        → Step m (before ++ w ∷ behind) n (before ++ v ∷ behind)

  pub data Reachable : Manager D → List Worker → Type 1 where
    starts :
        (fds : List ℕ) (max_worker : ℕ)
        → Reachable
            (record {
              clientqueue = [];
              msglist = [];
              test_cond = false;
              open_fds = fds;
              talks = [];
            })
            (replicate max_worker (waiting none))
    then_step :
        (m n : Manager D) (ws vs : List Worker) → Reachable m ws → Step m ws n vs → Reachable n vs
