-- ===== src/Manager/Bounds.antt =====
-- The clients stay within their sizes, and reading a connection within its buffers.
use correct_gps.Base.{
  zero, suc, ◌-◌, ◌≢◌, get_or, Bytes, Cells, ℕ, ◌≤◌, ◌<◌, ◌≡◌, refl, [], ◌∷◌, none, some, arith, ok,
  Option, Run, store, ◌>>=◌, length, All, Within, Within-bind,
}
use correct_gps.Client.{
  Client, ini, Received, recv_error, peer_closed, arrived, Outcome, killed, alive, parse, receive,
  md5_len, gps_len,
}
use correct_gps.Client.Parse.{IsBounded, ParsedFrom}
use correct_gps.Client.Within.{parse-Within}
use correct_gps.Tools.Clock.{IsTime}
use correct_gps.Manager.{
  Manager, ClientMap, find_client, erase_client, put_client, get_new_client, add_to_queue, do_kill,
  notificationthreads, after_receive, do_read,
}
use correct_gps.Manager.Steps.{accept}

-- The number of bytes that one read may give, which are no '%', in a year of four digits.
abbrev pub IsShort : Received → Type 0
IsShort recv_error = Unit
IsShort peer_closed = Unit
IsShort (arrived now bytes) = (length bytes ≤ 3971) × All (λ c. c ≢ b'%') bytes × IsTime now

get_or-plain : (s : Bytes) (i d : ℕ) → All (λ c. c ≢ b'%') s → d ≢ b'%' → get_or s i d ≢ b'%'
get_or-plain [] i d h k = k
get_or-plain (c ∷ s) zero d h k = h.0
get_or-plain (c ∷ s) (suc i) d h k = get_or-plain s i d h.1 k

store-plain :
    (p : Cells ℕ) (o : ℕ) (s : Bytes)
    → ((k : ℕ) → p k ≢ b'%')
    → All (λ c. c ≢ b'%') s
    → (k : ℕ) → store p o s k ≢ b'%'
store-plain p o s h clean k = ground (arith, h k, get_or-plain s (k - o) (p k) clean (h k))

module _ {D : Type 0} where
  abbrev pub AreBounded : ClientMap D → Type 0
  AreBounded = All (λ e. IsBounded e.1)

  -- The members that the constructor does not set.
  pub record HasBoundedRest (raw : Client D) : Type 0 where
    pub md5_fits : length raw.md5 ≤ md5_len
    pub xbaidu_fits : length raw.xbaidu < gps_len
    pub ybaidu_fits : length raw.ybaidu < gps_len

  ini-IsBounded : (raw : Client D) (fd now : ℕ) → HasBoundedRest raw → IsBounded (ini raw fd now)
  unfolding ini
  ini-IsBounded raw fd now h = record {
    waiting = omega arith;
    serial_fits = omega arith;
    md5_fits = h.md5_fits;
    xbaidu_fits = h.xbaidu_fits;
    ybaidu_fits = h.ybaidu_fits;
    plain = λ k. omega arith;
    blank_end = λ k far. refl;
  }

  pub AreBounded-find :
      (fd : ℕ) (c : Client D) (q : ClientMap D)
      → AreBounded q
      → find_client fd q ≡ some c
      → IsBounded c
  unfolding find_client
  AreBounded-find fd c [] b e = ground arith
  AreBounded-find fd c ((k, a) ∷ q) (h, b) e = ground (arith, AreBounded-find fd c q b, h)

  pub AreBounded-put :
      (fd : ℕ) (c : Client D) (q : ClientMap D)
      → IsBounded c
      → AreBounded q
      → AreBounded (put_client fd c q)
  unfolding put_client
  AreBounded-put fd c [] h b = tt
  AreBounded-put fd c ((k, a) ∷ q) h (g, b) = ground (arith, AreBounded-put fd c q h b, g, h)

  AreBounded-erase : (fd : ℕ) (q : ClientMap D) → AreBounded q → AreBounded (erase_client fd q)
  unfolding erase_client
  AreBounded-erase fd [] b = tt
  AreBounded-erase fd ((k, a) ∷ q) (g, b) = ground (arith, AreBounded-erase fd q b, g)

  pub do_kill-AreBounded :
      (m : Manager D) (fd : ℕ) → AreBounded m.clientqueue → AreBounded (do_kill m fd).clientqueue
  unfolding do_kill
  do_kill-AreBounded m fd b = ground (arith, AreBounded-erase fd m.clientqueue b)

  pub accept-AreBounded :
      (max_clients now fd : ℕ) (raw : Client D) (m : Manager D)
      → HasBoundedRest raw
      → AreBounded m.clientqueue
      → AreBounded (accept max_clients raw now m fd).clientqueue
  unfolding add_to_queue get_new_client
  accept-AreBounded max_clients now fd raw m h b =
      let new : IsBounded (ini raw fd now) = ini-IsBounded raw fd now h in
      ground (arith, new, AreBounded-put fd (ini raw fd now) m.clientqueue new b)

  abbrev OutcomeBounded : Outcome D → Type 0
  OutcomeBounded killed = Unit
  OutcomeBounded (alive c told) = IsBounded c

  receive-Within :
      (c : Client D) (r : Received) → IsBounded c → IsShort r → Within OutcomeBounded (receive c r)
  unfolding receive
  receive-Within c recv_error b s = tt
  receive-Within c peer_closed b s = tt
  receive-Within c (arrived now bytes) b (s, clean, time) =
      let written : Client D = record c { iobuf = store c.iobuf c.offset bytes } in
      let w : IsBounded written = record {
        waiting = b.waiting;
        serial_fits = b.serial_fits;
        md5_fits = b.md5_fits;
        xbaidu_fits = b.xbaidu_fits;
        ybaidu_fits = b.ybaidu_fits;
        plain = λ k. store-plain c.iobuf c.offset bytes b.plain clean k;
        blank_end = λ k far. ground (arith, b.blank_end k far, b.waiting);
      } in
      let early = b.waiting in
      Within-bind (ParsedFrom c.fd c.status) OutcomeBounded (parse now written (length bytes)) _
        (parse-Within now written (length bytes) time w (omega arith)) (λ p h. h.bounded)

  after_receive-AreBounded :
      (m : Manager D) (fd : ℕ) (c : Client D) (o : Outcome D)
      → AreBounded m.clientqueue
      → OutcomeBounded o
      → AreBounded (after_receive m fd c o).clientqueue
  unfolding after_receive notificationthreads
  after_receive-AreBounded m fd c killed b h = do_kill-AreBounded m c.fd b
  after_receive-AreBounded m fd c (alive a told) b h =
      ground (arith, AreBounded-put fd a m.clientqueue h b)

  -- What main does with a connection that can be read.
  pub do_read-AreBounded :
      (m : Manager D) (fd : ℕ) (r : Received)
      → AreBounded m.clientqueue
      → IsShort r
      → Within (λ n. AreBounded n.clientqueue) (do_read m fd r)
  unfolding do_read
  do_read-AreBounded m fd r b s =
      by_client (find_client fd m.clientqueue) (λ c e. AreBounded-find fd c m.clientqueue b e)
    where
      by_client :
          (o : Option (Client D))
          → ((c : Client D) → o ≡ some c → IsBounded c)
          → let q : Run (Manager D) = elim o [
            | none ↦ ok m
            | some c ↦ receive c r >>= λ k. ok (after_receive m fd c k)
          ] in
            Within (λ n. AreBounded n.clientqueue) q
      by_client none found = b
      by_client (some c) found =
          Within-bind OutcomeBounded (λ n. AreBounded n.clientqueue) (receive c r) _
            (receive-Within c r (found c refl) s) (λ k h. after_receive-AreBounded m fd c k b h)
