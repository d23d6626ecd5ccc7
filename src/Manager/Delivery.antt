-- ===== src/Manager/Delivery.antt =====
-- A request on its way through the threads: from the main loop over the queue to a worker, and to the
-- end of its connection.
use correct_gps.Base.{
  ℕ, ◌<◌, ◌≡◌, refl, ap, subst, ◌∙◌, true, false, List, [], ◌∷◌, ◌++◌, Option, some, ltb, length,
  arith, ok, ◌>>=◌, contains, without,
}
use correct_gps.Client.{Client, Received, alive, receive, get_send2_car_server}
use correct_gps.Correct.{correctgps_worker}
use correct_gps.Sender.{OpenFds}
use correct_gps.Exchange.{Talk, send2_car_server}
use correct_gps.Manager.{
  said, Manager, ClientMap, Context, find_client, put_client, erase_client, do_kill,
  notificationthreads, after_receive, do_read, take_fd, send_corrected, work,
}
use correct_gps.Manager.Steps.{
  Worker, waiting, awake, chosen, unlocked, wakes, takes, works, kills, Step, reads, worker,
}
use correct_gps.Manager.Invariant.{do_kill-found, do_read-found}
use correct_gps.Manager.Work.{work-found}
use correct_gps.Manager.Schedule.{take_fd-first}

module _ {D : Type 0} where
  -- A sequence of steps of the main loop and the workers.
  pub data Leads (m : Manager D) (ws : List Worker) : Manager D → List Worker → Type 1 where
    stays : Leads m ws m ws
    then_step :
        (n o : Manager D) (vs us : List Worker) → Leads m ws n vs → Step n vs o us → Leads m ws o us

  find-put_same :
      (fd : ℕ) (c b : Client D) (q : ClientMap D)
      → find_client fd q ≡ some b
      → find_client fd (put_client fd c q) ≡ some c
  unfolding find_client put_client
  find-put_same fd c b [] e = cc
  find-put_same fd c b ((k, a) ∷ q) e = ground (arith, find-put_same fd c b q)

  erase-put :
      (fd : ℕ) (c : Client D) (q : ClientMap D)
      → erase_client fd (put_client fd c q) ≡ erase_client fd q
  unfolding erase_client put_client
  erase-put fd c [] = refl
  erase-put fd c ((k, a) ∷ q) = ground (arith, erase-put fd c q)

  send_corrected-sent :
      (x : Context D) (m : Manager D) (fd : ℕ) (c : Client D) (fds : OpenFds) (talk : Option Talk)
      → get_send2_car_server c ≡ true
      → 0 < length c.serial
      → send2_car_server x.settings c x.sender m.open_fds x.answers ≡ ok (some (fds, talk))
      → send_corrected x m fd c
        ≡ ok (
            some (
              record m {
                clientqueue = put_client fd c m.clientqueue;
                open_fds = fds;
                talks = m.talks ++ said talk;
              },
              some c.fd,
            ))
  unfolding send_corrected
  send_corrected-sent x m fd c fds talk ready named sent =
      let test : ltb 0 (length c.serial) ≡ true = ground (arith, named) in
      rw (ready, test, sent) refl

  -- What one request takes: its bytes, the client after each step, and what is said to the car
  -- server.
  pub record Served (x : Context D) (m : Manager D) (fd : ℕ) (received : Received)
      (c1 c2 : Client D) (talk : Talk) : Type 0 where
    pub client : Client D
    pub there : find_client fd m.clientqueue ≡ some client
    pub whole : receive client received ≡ ok (alive c1 true)
    pub read_fd : c1.fd ≡ fd
    pub corrected : correctgps_worker x.doubles x.infomap x.gpsxy c1 ≡ ok c2
    pub corrected_fd : c2.fd ≡ fd
    pub ready : get_send2_car_server c2 ≡ true
    pub named : 0 < length c2.serial
    pub fresh : (s : ℕ) → x.answers.socket ≡ some s → contains m.open_fds s ≡ false
    pub exchanged :
        send2_car_server x.settings c2 x.sender m.open_fds x.answers
        ≡ ok (some (m.open_fds, some talk))

  -- The manager once the exchange is over: without the client, and with nothing left to do.
  pub done : Manager D → ℕ → Talk → Manager D
  done m fd talk = record m {
    clientqueue = erase_client fd m.clientqueue;
    msglist = [];
    test_cond = false;
    open_fds = without fd m.open_fds;
    talks = m.talks ++ talk ∷ [];
  }

  module _ (x : Context D) (m : Manager D) (fd : ℕ) (received : Received) (c1 c2 : Client D)
      (talk : Talk) (s : Served x m fd received c1 c2 talk) (idle : m.msglist ≡ []) where
    -- The states in between.
    abbrev queued : Manager D
    queued = record m {
      clientqueue = put_client fd c1 m.clientqueue;
      msglist = fd ∷ [];
      test_cond = true;
    }

    abbrev taken : Manager D
    taken = record queued { msglist = []; test_cond = false }

    abbrev sent : Manager D
    sent = record taken {
      clientqueue = put_client fd c2 taken.clientqueue;
      talks = m.talks ++ talk ∷ [];
    }

    do_read-queued : do_read m fd received ≡ ok queued
    do_read-queued =
        do_read-found m fd received s.client s.there
        ∙ ap (λ r. r >>= λ o. ok (after_receive m fd s.client o)) s.whole
        ∙ unfold after_receive notificationthreads in rw (s.read_fd, idle) refl

    take_fd-taken :
        (old : Option ℕ) → take_fd (record queued { test_cond = false }) old ≡ (taken, some fd)
    take_fd-taken old = take_fd-first (record queued { test_cond = false }) old fd [] refl

    find-taken : find_client fd taken.clientqueue ≡ some c1
    find-taken = find-put_same fd c1 s.client m.clientqueue s.there

    work-sent : work x taken (some fd) ≡ ok (some (sent, some fd))
    work-sent =
        work-found x taken fd c1 find-taken
        ∙ ap (λ r. r >>= λ c. send_corrected x taken fd c) s.corrected
        ∙ send_corrected-sent x taken fd c2 m.open_fds (some talk) s.ready s.named s.exchanged
        ∙ ap (λ k. ok (some (sent, some k))) s.corrected_fd

    do_kill-done : do_kill sent fd ≡ done m fd talk
    unfolding done
    do_kill-done =
        do_kill-found sent fd c2 s.corrected_fd
          (find-put_same fd c2 c1 taken.clientqueue find-taken)
        ∙ ap (λ q. record sent { clientqueue = q; open_fds = without fd m.open_fds })
            (erase-put fd c2 taken.clientqueue ∙ erase-put fd c1 m.clientqueue)

    -- A client that waits for its worker: the request is read, taken, sent and answered, and the
    -- client is gone with its descriptor.
    pub deliver :
        (before behind : List Worker) (old : Option ℕ)
        → Leads m
            (before ++ waiting old ∷ behind)
            (done m fd talk)
            (before ++ waiting (some fd) ∷ behind)
    deliver before behind old =
        let woken : Manager D = record queued { test_cond = false } in
        let s1 : Step m (before ++ waiting old ∷ behind) queued (before ++ waiting old ∷ behind) =
          reads m queued (before ++ waiting old ∷ behind) fd received true do_read-queued in
        let s2 : Step queued (before ++ waiting old ∷ behind) woken (before ++ awake old ∷ behind) =
          worker queued woken before behind (waiting old) (awake old)
            (wakes queued old false refl) in
        let s3 : Step woken (before ++ awake old ∷ behind) taken
            (before ++ chosen (some fd) ∷ behind) =
          subst
            (λ (t : Manager D × Option ℕ).
              Step woken (before ++ awake old ∷ behind) t.0 (before ++ chosen t.1 ∷ behind))
            (take_fd-taken old)
            (worker woken (take_fd woken old).0 before behind (awake old)
              (chosen (take_fd woken old).1) (takes woken old)) in
        let s4 : Step taken (before ++ chosen (some fd) ∷ behind) sent
            (before ++ unlocked (some fd) (some fd) ∷ behind) =
          worker taken sent before behind (chosen (some fd)) (unlocked (some fd) (some fd))
            (works taken sent x (some fd) (some fd) s.fresh work-sent) in
        let s5 : Step sent (before ++ unlocked (some fd) (some fd) ∷ behind) (done m fd talk)
            (before ++ waiting (some fd) ∷ behind) =
          subst
            (λ n.
              Step sent (before ++ unlocked (some fd) (some fd) ∷ behind) n
                (before ++ waiting (some fd) ∷ behind))
            do_kill-done
            (worker sent (do_kill sent fd) before behind (unlocked (some fd) (some fd))
              (waiting (some fd)) (kills sent (some fd) fd fd)) in
        then_step sent (done m fd talk) _ _
          (then_step taken sent _ _
            (then_step woken taken _ _
              (then_step queued woken _ _ (then_step m queued _ _ stays s1) s2) s3)
            s4)
          s5
