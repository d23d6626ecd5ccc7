-- ===== src/Manager/Threads.antt =====
-- The worker threads (start, stop of src/CclientManager.cpp). A Thread object stands for itself by
-- its number, and what pthread_create answers is an argument.
use correct_gps.Base.{
  ℕ, zero, suc, ◌+◌, ◌≡◌, refl, sym, subst, ◌∙◌, Bool, true, false, List, [], ◌∷◌, ◌++◌, none, Run,
  ok, fault, aborted, replicate, length, length-append, arith, Ensures, Ensures-map, Ensures-ok,
  if◌then◌else◌,
}
use mathlib.Core.List.{append_assoc, append-nil}
use correct_gps.Manager.Steps.{Worker, waiting, Reachable, starts}

-- `running` are the threads of the system, which do not end with the objects.
pub record Threads : Type 0 where
  pub threadlist : List ℕ
  pub running : List Worker

abbrev pub no_threads : Threads
no_threads = record { threadlist = []; running = [] }

-- The loop of start with n threads to go, from the thread number i on. `created` is true where
-- pthread_create succeeds; execute throws else, and nothing catches it.
unfoldable pub start : (n i : ℕ) → (created : ℕ → Bool) → Threads → Run Threads
start zero i created t = ok t
start (suc n) i created t =
    let rest =
      start n (i + 1) created (record {
        threadlist = t.threadlist ++ i ∷ [];
        running = t.running ++ waiting none ∷ [];
      }) in
    if created i then rest else fault aborted

-- stop deletes the objects, first to last.
unfoldable pub stop_loop : List ℕ → Threads → Threads
stop_loop [] t = record t { threadlist = [] }
stop_loop (first ∷ rest) t = stop_loop rest (record t { threadlist = rest })

unfoldable pub stop : Threads → Threads
unfolding stop_loop
stop t = stop_loop t.threadlist t

stop_loop-running :
    (l : List ℕ) (t : Threads)
    → ((stop_loop l t).threadlist ≡ []) × ((stop_loop l t).running ≡ t.running)
unfolding stop_loop
stop_loop-running [] t = (refl, refl)
stop_loop-running (first ∷ rest) t = stop_loop-running rest (record t { threadlist = rest })

stop-running : (t : Threads) → ((stop t).threadlist ≡ []) × ((stop t).running ≡ t.running)
unfolding stop
stop-running t = stop_loop-running t.threadlist t

-- With `n` more threads than those of `t`.
abbrev Started : ℕ → Threads → Threads → Type 0
Started n t u =
    (u.running ≡ t.running ++ replicate n (waiting none))
    × (length u.threadlist ≡ length t.threadlist + n)

start-Started :
    (n i : ℕ) (created : ℕ → Bool) (t : Threads)
    → ((k : ℕ) → created k ≡ true)
    → Ensures (start n i created t) (Started n t)
unfolding start
start-Started zero i created t h = (sym (append-nil t.running), omega arith)
start-Started (suc n) i created t h = rw (h i) (
    Ensures-map
      (Started n
        (record { threadlist = t.threadlist ++ i ∷ []; running = t.running ++ waiting none ∷ [] }))
      (Started (suc n) t) (start n (i + 1) created _)
      (λ u k. (
        k.0 ∙ append_assoc t.running (waiting none ∷ []) (replicate n (waiting none)),
        k.1 ∙ omega (arith, length-append t.threadlist (i ∷ [])),
      ))
      (start-Started n (i + 1) created _ h))

-- Where every thread can be created, start ends in a state from which the interleaved threads run:
-- `max_worker` workers that wait, and as many objects. To stop deletes the objects, and leaves the
-- threads running.
start-Reachable :
    {D : Type 0} (max_worker : ℕ) (created : ℕ → Bool) (fds : List ℕ)
    → ((k : ℕ) → created k ≡ true)
    → (t : Threads) × (start max_worker 0 created no_threads ≡ ok t)
      × Reachable {D = D}
          (record { clientqueue = []; msglist = []; test_cond = false; open_fds = fds; talks = [] })
          t.running
      × (length t.threadlist ≡ max_worker)
      × ((stop t).threadlist ≡ [])
      × ((stop t).running ≡ t.running)
start-Reachable {D} max_worker created fds h =
    let (t, e, k) =
      Ensures-ok (Started max_worker no_threads) (start max_worker 0 created no_threads)
        (start-Started max_worker 0 created no_threads h) in
    let (gone, running) = stop-running t in
    (
      t,
      e,
      subst
          (Reachable (record {
            clientqueue = [];
            msglist = [];
            test_cond = false;
            open_fds = fds;
            talks = [];
          }))
          (sym k.0) (starts fds max_worker),
      k.1 ∙ omega arith,
      gone,
      running,
    )
