-- ===== src/Service/Delivery/Examples.antt =====
-- A request from end to end: the theorems on its way through the threads, at a concrete one.
use correct_gps.Base.{
  ℕ, ◌≡◌, refl, some, none, true, false, List, ap, ◌∙◌, ◌++◌, [], ◌∷◌, codes, ok, ◌>>=◌, arith,
}
use correct_gps.Client.{Client, ini, alive, arrived}
use correct_gps.Client.Request.{request, served}
use correct_gps.Client.Messages.{receive-request}
use correct_gps.Tools.Clock.{Tm, IsTime}
use correct_gps.Sender.{in_progress, timed_out, ready}
use correct_gps.Exchange.Reply.{Reply, reply_text}
use correct_gps.Sender.Feedback.{chunk}
use correct_gps.Manager.{
  Manager, Context, take_fd, do_read, notificationthreads, after_receive, find_client, add_to_queue,
  get_new_client,
}
use correct_gps.Manager.Steps.{
  awake, chosen, reads, worker, wakes, takes, Worker, waiting, accept, registered, Reachable,
  starts, then_step, accepts,
}
use correct_gps.Manager.Invariant.{do_read-found}
use correct_gps.Manager.Fifo.{all_told, all_taken, all_told-queue}
use correct_gps.Service.Examples.{numbers, settings, city, stack, phone, fields, fields-IsProper}

abbrev now : Tm
now = record { tm_year = 113; tm_mon = 3; tm_mday = 8; tm_hour = 17; tm_min = 5; tm_sec = 9 }

now-IsTime : IsTime now
now-IsTime = record {
  year = omega arith;
  mon = omega arith;
  mday = omega arith;
  hour = omega arith;
  min = omega arith;
  sec = omega arith;
}

-- Two workers wait, and the phone has connected on 5.
abbrev idle_manager : Manager ℕ
idle_manager = record {
  clientqueue = [];
  msglist = [];
  test_cond = false;
  open_fds = 3 ∷ [];
  talks = [];
}

abbrev workers : List Worker
workers = waiting none ∷ waiting none ∷ []

abbrev held : Manager ℕ
held = registered true 5 (accept 10 phone 0 idle_manager 5)

held-Reachable : Reachable held workers
held-Reachable =
    then_step idle_manager held workers workers (starts (3 ∷ []) 2)
      (accepts idle_manager workers 10 0 5 phone true refl)

held_phone : find_client 5 held.clientqueue ≡ some (ini phone 5 0)
unfolding find_client add_to_queue get_new_client
held_phone = refl

phone_empty : (ini phone 5 0).offset ≡ 0
unfolding ini
phone_empty = refl

phone_blank : (k : ℕ) → (ini phone 5 0).iobuf k ≡ 0
unfolding ini
phone_blank k = refl

abbrev answer : Reply
answer = record { head = []; body = codes "1\""; tail = [] }

abbrev context : Context ℕ
context = record {
  doubles = numbers;
  infomap = city;
  settings = settings;
  gpsxy = stack;
  sender = record { sockfd = none; fb = λ k. 0 };
  answers = record {
    socket = some 9;
    result = in_progress;
    reports = timed_out ∷ ready true false false ∷ [];
    turns = record { got = chunk (reply_text answer); elapsed = 0 } ∷ [];
  };
}

-- The request is read, a worker wakes, and takes it.
abbrev notified : Manager ℕ
notified =
    after_receive held 5 (ini phone 5 0)
      (alive (served (ini phone 5 0) fields (codes "HTTP/1.1")) true)

held_read : do_read held 5 (arrived now (request fields (codes "HTTP/1.1"))) ≡ ok notified
held_read =
    do_read-found held 5 (arrived now (request fields (codes "HTTP/1.1"))) (ini phone 5 0)
      held_phone
    ∙ ap (λ r. r >>= λ o. ok (after_receive held 5 (ini phone 5 0) o))
        (receive-request now (ini phone 5 0) phone_blank phone_empty fields (codes "HTTP/1.1")
          fields-IsProper (omega arith) (omega arith) (omega arith) now-IsTime)

abbrev woken_up : Manager ℕ
woken_up = record notified { test_cond = false }

taken-Reachable :
    Reachable (take_fd woken_up none).0 (chosen (take_fd woken_up none).1 ∷ waiting none ∷ [])
taken-Reachable =
    then_step woken_up (take_fd woken_up none).0 (awake none ∷ waiting none ∷ [])
      (chosen (take_fd woken_up none).1 ∷ waiting none ∷ [])
      (then_step notified woken_up workers (awake none ∷ waiting none ∷ [])
        (then_step held notified workers workers held-Reachable (
          reads held notified workers 5 (arrived now (request fields (codes "HTTP/1.1"))) true
            held_read))
        (worker notified woken_up [] (waiting none ∷ []) (waiting none) (awake none)
          (wakes notified none false (unfold after_receive notificationthreads in refl))))
      (worker woken_up (take_fd woken_up none).0 [] (waiting none ∷ []) (awake none)
        (chosen (take_fd woken_up none).1) (takes woken_up none))

all_told-queue_example :
    all_told taken-Reachable ≡ all_taken taken-Reachable ++ (take_fd woken_up none).0.msglist
all_told-queue_example =
    all_told-queue (take_fd woken_up none).0 (chosen (take_fd woken_up none).1 ∷ waiting none ∷ [])
      taken-Reachable
