-- ===== src/Exchange/Ends.antt =====
-- An exchange ends: Recv stops at the first turn behind its time.
use correct_gps.Base.{
  ℕ, ◌<◌, ◌≡◌, Bool, true, false, List, [], ◌∷◌, ◌++◌, Bytes, Option, none, some, Run, ok, ◌>>=◌,
  ltb, arith, Yields, Yields-after, Yields-bind, Bool-cases, inl, inr,
}
use correct_gps.Client.{Client}
use correct_gps.Sender.{Sender, OpenFds, send_request}
use correct_gps.Sender.Connect.{IsMade, connect-IsMade}
use correct_gps.Sender.Feedback.{
  Reading, Turn, start_reading, after_recv, last_ret, is_complete, recv_loop, end_reading, recv,
}
use correct_gps.Exchange.{Talk, Settings, Answers, feedback, ask, after_connect, send2_car_server}

-- The run ends, or faults: it does not wait for more.
abbrev pub IsOver {ℓ} : {A : Type ℓ} → Option A → Type 0
IsOver none = ⊥
IsOver (some a) = Unit

recv_loop-IsOver :
    (outtime : ℕ) (s : Reading) (before later : List Turn) (t : Turn)
    → outtime < t.elapsed
    → Yields IsOver (recv_loop outtime s (before ++ t ∷ later))
unfolding recv_loop
recv_loop-IsOver outtime s [] later t late =
    Yields-after IsOver (after_recv s t.got) _
      (λ s'. let on : ltb outtime t.elapsed ≡ true = ground arith in rw on tt)
recv_loop-IsOver outtime s (u ∷ before) later t late =
    Yields-after IsOver (after_recv s u.got) _ (λ s'. elim (Bool-cases (ltb outtime u.elapsed)) [
      | inl on ↦ rw on tt
      | inr early ↦ rw early (
          Yields-after IsOver (is_complete s'.fb) _
            (by_answer s' (recv_loop-IsOver outtime s' before later t late)))
    ])
  where
    by_answer :
        (s' : Reading)
        → Yields IsOver (recv_loop outtime s' (before ++ t ∷ later))
        → (whole : Bool)
        → Yields IsOver (elim whole [
          | true ↦ ok (some (s', last_ret u.got))
          | false ↦ recv_loop outtime s' (before ++ t ∷ later)
        ])
    by_answer s' rest true = tt
    by_answer s' rest false = rest

recv-IsOver :
    (outtime : ℕ) (s : Sender) (open_fds : OpenFds) (before later : List Turn) (t : Turn)
    → outtime < t.elapsed
    → Yields IsOver (recv outtime s open_fds (before ++ t ∷ later))
unfolding recv
recv-IsOver outtime s open_fds before later t late = by_socket s.sockfd
  where
    turns : List Turn
    turns = before ++ t ∷ later

    by_result :
        (o : Option (Reading × ℕ))
        → IsOver o
        → let q : Run (Option (Sender × OpenFds × ℕ)) = elim o [
          | none ↦ ok none
          | some (r, ret) ↦ end_reading s open_fds r ret >>= λ q. ok (some q)
        ] in
          Yields IsOver q
    by_result none h = absurd h
    by_result (some (r, ret)) h =
        Yields-after IsOver (end_reading s open_fds r ret) (λ q. ok (some q)) (λ q. tt)

    by_socket :
        (o : Option ℕ)
        → let q : Run (Option (Sender × OpenFds × ℕ)) = elim o [
          | none ↦ end_reading s open_fds (start_reading s.fb) 0 >>= λ r. ok (some r)
          | some fd ↦ recv_loop outtime (start_reading s.fb) (before ++ t ∷ later) >>= λ o. elim o [
            | none ↦ ok none
            | some (r, ret) ↦ end_reading s open_fds r ret >>= λ q. ok (some q)
          ]
        ] in
          Yields IsOver q
    by_socket none =
        Yields-after IsOver (end_reading s open_fds (start_reading s.fb) 0) (λ q. ok (some q))
          (λ q. tt)
    by_socket (some fd) =
        Yields-bind IsOver IsOver (recv_loop outtime (start_reading s.fb) (before ++ t ∷ later)) _
          (recv_loop-IsOver outtime (start_reading s.fb) before later t late) by_result

-- Once the connection is made on a socket, an exchange does not wait for ever: if one turn of Recv is
-- behind `outtime`, whatever the car server has sent before, the exchange is over, or at a fault,
-- there at the latest.
pub send2_car_server-IsOver :
    {D : Type 0} (g : Settings D) (c : Client D) (s : Sender) (open_fds : OpenFds) (a : Answers)
    (fd : ℕ) (before later : List Turn) (t : Turn)
    → a.socket ≡ some fd
    → IsMade a.result a.reports
    → a.turns ≡ before ++ t ∷ later
    → g.outtime < t.elapsed
    → Yields IsOver (send2_car_server g c s open_fds a)
unfolding send2_car_server
send2_car_server-IsOver g c s open_fds a fd before later t socket made turns late =
    rw (connect-IsMade s open_fds a.socket fd a.result a.reports socket made, turns)
      (asked (record s { sockfd = some fd }) (fd ∷ open_fds))
  where
    by_result :
        (request : Bytes) (o : Option (Sender × OpenFds × ℕ))
        → IsOver o
        → let q : Run (Option (OpenFds × Option Talk)) = elim o [
          | none ↦ ok none
          | some (s', fds', ret) ↦
              ok (
                some (fds', some (record { phone = c.fd; request = request; reply = feedback s' })))
        ] in
          Yields IsOver q
    by_result request none h = absurd h
    by_result request (some (s', fds', ret)) h = tt

    asked :
        (on : Sender) (fds : OpenFds)
        → Yields IsOver (after_connect g c (before ++ t ∷ later) (some (on, fds, true)))
    asked on fds =
        unfold after_connect ask in
        Yields-after IsOver
          (send_request g.domain g.port c.serial c.md5 (g.print c.xgps) (g.print c.ygps)) _
          (λ request.
            Yields-bind IsOver IsOver (recv g.outtime on fds (before ++ t ∷ later)) _
              (recv-IsOver g.outtime on fds before later t late) (by_result request))
