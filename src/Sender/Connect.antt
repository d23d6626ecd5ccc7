-- ===== src/Sender/Connect.antt =====
-- When Connect succeeds, and what it leaves open.
use correct_gps.Base.{
  ℕ, ◌≡◌, refl, Bool, true, false, List, [], ◌∷◌, ◌++◌, some, arith, ap, ◌↔◌, All, ◌∙◌, ◌⊎◌, inl,
  inr, Option,
}
use correct_gps.Sender.{
  Sender, OpenFds, Select, timed_out, select_failed, ready, ConnectResult, connected, in_progress,
  refused, wait_connect, connect,
}

-- A report on which the loop goes on waiting.
abbrev pub IsIdle : Select → Type 0
IsIdle timed_out = Unit
IsIdle select_failed = ⊥
IsIdle (ready writable exception so_error) = (writable ≡ false) × (exception ≡ false)

-- The reports decide for a connection: after idle ones the socket can be written, with no error.
pub record Connects (reports : List Select) : Type 0 where
  pub idle : List Select
  pub exception : Bool
  pub later : List Select
  pub splits : reports ≡ idle ++ ready true exception false ∷ later
  pub all_idle : All IsIdle idle

Connects-cons :
    (r : Select) (reports : List Select) → IsIdle r → Connects reports → Connects (r ∷ reports)
Connects-cons r reports i c = record {
  idle = r ∷ c.idle;
  exception = c.exception;
  later = c.later;
  splits = ap (◌∷◌ r) c.splits;
  all_idle = (i, c.all_idle);
}

wait_connect→Connects :
    (reports : List Select) → wait_connect reports ≡ some true → Connects reports
unfolding wait_connect
wait_connect→Connects [] h = cc
wait_connect→Connects (timed_out ∷ later) h =
    Connects-cons timed_out later tt (wait_connect→Connects later h)
wait_connect→Connects (select_failed ∷ later) h = cc
wait_connect→Connects (ready true exception true ∷ later) h = cc
wait_connect→Connects (ready true exception false ∷ later) h = record {
  idle = [];
  exception = exception;
  later = later;
  splits = refl;
  all_idle = tt;
}
wait_connect→Connects (ready false true so_error ∷ later) h = cc
wait_connect→Connects (ready false false so_error ∷ later) h =
    Connects-cons (ready false false so_error) later (refl, refl) (wait_connect→Connects later h)

wait_connect-idle :
    (idle rest : List Select) → All IsIdle idle → wait_connect (idle ++ rest) ≡ wait_connect rest
unfolding wait_connect
wait_connect-idle [] rest h = refl
wait_connect-idle (timed_out ∷ idle) rest h = wait_connect-idle idle rest h.1
wait_connect-idle (select_failed ∷ idle) rest h = absurd h.0
wait_connect-idle (ready writable exception so_error ∷ idle) rest h =
    ground (arith, wait_connect-idle idle rest h.1)

pub wait_connect_iff :
    (reports : List Select) → (wait_connect reports ≡ some true) ↔ Connects reports
wait_connect_iff reports = (wait_connect→Connects reports, from)
  where
    from : Connects reports → wait_connect reports ≡ some true
    from c =
        ap wait_connect c.splits
        ∙ wait_connect-idle c.idle (ready true c.exception false ∷ c.later) c.all_idle
        ∙ unfold wait_connect in refl

-- Whatever Connect answers once it has a socket, it leaves the socket open and closes no other: the
-- caller has it to close, also where the answer is that there is no connection.
connect-keeps_open :
    (s t : Sender) (open_fds fds : OpenFds) (fd : ℕ) (result : ConnectResult)
    (reports : List Select) (answer : Bool)
    → connect s open_fds (some fd) result reports ≡ some (t, fds, answer)
    → (fds ≡ fd ∷ open_fds) × (t.sockfd ≡ some fd)
unfolding connect
connect-keeps_open s t open_fds fds fd connected reports answer h = ground arith
connect-keeps_open s t open_fds fds fd refused reports answer h = ground arith
connect-keeps_open s t open_fds fds fd in_progress reports answer h = ground arith

-- A connection is made at once, or while the loop waits.
abbrev pub IsMade : ConnectResult → List Select → Type 0
IsMade result reports = (result ≡ connected) ⊎ ((result ≡ in_progress) × Connects reports)

pub connect-IsMade :
    (s : Sender) (open_fds : OpenFds) (socket : Option ℕ) (fd : ℕ) (result : ConnectResult)
    (reports : List Select)
    → socket ≡ some fd
    → IsMade result reports
    → connect s open_fds socket result reports
      ≡ some (record s { sockfd = some fd }, fd ∷ open_fds, true)
unfolding connect
connect-IsMade s open_fds socket fd result reports made (inl at_once) = ground arith
connect-IsMade s open_fds socket fd result reports made (inr (waits, c)) =
    ground (arith, (wait_connect_iff reports).1 c)
