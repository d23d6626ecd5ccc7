-- ===== src/Exchange/Reply.antt =====
-- An answer of the car server that comes whole goes back to the phone.
use correct_gps.Base.{
  ℕ, zero, suc, ◌+◌, ◌≤◌, ◌<◌, ◌≡◌, ◌≢◌, refl, ap, subst, sym, ◌∙◌, Bool, true, false, List, [],
  ◌∷◌, ◌++◌, Bytes, Cells, write, store, without, without-absent, contains, slice, codes, length,
  length-append, ltb, ◌==◌, none, some, ok, All-append, arith, Bool-cases, inl, inr,
}
use mathlib.Core.List.{append_assoc}
use correct_gps.Tools.Chars.{c_str}
use correct_gps.Tools.Items.Lines.{Lacks}
use correct_gps.Client.Query.{TextAt, TextAt-front}
use correct_gps.Client.Request.{TextAt-store, TextAt-stored}
use correct_gps.Sender.{Sender, OpenFds, close, connect, send_request, feedback_msg_len}
use correct_gps.Sender.Feedback.{
  start_reading, Turn, chunk, take_chunk, after_recv, text_at, has_text, is_complete, recv_loop,
  end_reading, recv,
}
use correct_gps.Client.{Client}
use correct_gps.Exchange.{Settings, Answers, feedback, after_connect, ask, send2_car_server}

module _ (fb : Cells ℕ) where
  text_at-hit : (s : Bytes) (i n : ℕ) → TextAt fb i s → length s ≤ n → text_at s fb i n ≡ ok true
  unfolding text_at
  text_at-hit [] i n t h = refl
  text_at-hit (c ∷ s) i zero t h = absurd (omega arith)
  text_at-hit (c ∷ s) i (suc n) t h = ground (arith, t.0, text_at-hit s (i + 1) n t.1)

  -- Within the cells that are left the comparison ends.
  text_at-ends : (s : Bytes) (i n : ℕ) → length s ≤ n → (b : Bool) × (text_at s fb i n ≡ ok b)
  unfolding text_at
  text_at-ends [] i n h = (true, refl)
  text_at-ends (c ∷ s) i zero h = absurd (omega arith)
  text_at-ends (c ∷ s) i (suc n) h = elim (Bool-cases (fb i == c)) [
    | inl same ↦ let (b, e) = text_at-ends s (i + 1) n (omega arith) in (b, rw (same, text_at) e)
    | inr other ↦ (false, rw (other, text_at) refl)
  ]

  -- A text that stands behind another one with no NUL is found.
  has_text-found :
      (before s : Bytes) (i n : ℕ)
      → TextAt fb i (before ++ s)
      → Lacks 0 before
      → length before + length s ≤ n
      → 0 < length s
      → has_text s fb i n ≡ ok true
  unfolding has_text
  has_text-found before s i zero t h room some_left = absurd (omega arith)
  has_text-found [] s i (suc n) t h room some_left =
      rw (text_at-hit s i (suc n) t (omega arith)) refl
  has_text-found (c ∷ before) s i (suc n) t h room some_left =
      let (b, e) = text_at-ends s i (suc n) (omega arith) in
      let later = has_text-found before s (i + 1) n t.1 h.1 (omega arith) some_left in
      let text : (fb i == 0) ≡ false = ground (arith, t.0, h.0) in by_hit b e (rw (text) later)
    where
      by_hit :
          (b : Bool)
          → text_at s fb i (suc n) ≡ ok b
          → elim (fb i == 0) [ true ↦ ok false | false ↦ has_text s fb (i + 1) n ] ≡ ok true
          → has_text s fb i (suc n) ≡ ok true
      by_hit true e later = rw e refl
      by_hit false e later = rw e later

  -- The string of a buffer that holds a text with its NUL.
  c_str-slice :
      (s : Bytes) (i n : ℕ)
      → TextAt fb i (s ++ 0 ∷ [])
      → Lacks 0 s
      → length s < n
      → c_str (slice fb i n) ≡ s
  unfolding c_str
  c_str-slice s i zero t h room = absurd (omega arith)
  c_str-slice [] i (suc n) t h room = ground (arith, t.0)
  c_str-slice (c ∷ s) i (suc n) t h room = ground (arith, t.0, h.0, c_str-slice s (i + 1) n t.1 h.1)

TextAt-nul :
    (fb : Cells ℕ) (i : ℕ) (s : Bytes)
    → TextAt fb i s
    → fb (i + length s) ≡ 0
    → TextAt fb i (s ++ 0 ∷ [])
TextAt-nul fb i [] t e = let k : i ≡ i + 0 = omega arith in (ap fb k ∙ e, tt)
TextAt-nul fb i (c ∷ s) t e =
    let k : i + 1 + length s ≡ i + suc (length s) = omega arith in
    (t.0, TextAt-nul fb (i + 1) s t.1 (ap fb k ∙ e))

-- Recv on a chunk that makes the answer whole, whatever the time.
recv-chunk :
    (outtime elapsed fd : ℕ) (s : Sender) (open_fds : OpenFds) (later : List Turn) (text : Bytes)
    → s.sockfd ≡ some fd
    → length text < feedback_msg_len
    → is_complete (store s.fb 0 text) ≡ ok true
    → recv outtime s open_fds (record { got = chunk text; elapsed = elapsed } ∷ later)
      ≡ ok (
          some (
            record s { sockfd = none; fb = write (store s.fb 0 text) (length text) 0 },
            without fd open_fds,
            length text,
          ))
unfolding recv recv_loop end_reading start_reading after_recv take_chunk close
recv-chunk outtime elapsed fd s open_fds later text on size whole =
    let z : 0 + length text ≡ length text = omega arith in
    let fits : ltb feedback_msg_len (length text) ≡ false = ground arith in
    let ends : ltb (length text) feedback_msg_len ≡ true = ground arith in
    elim (Bool-cases (ltb outtime elapsed)) [
      | inl late ↦ rw (on, z, fits, late, ends) refl
      | inr early ↦ rw (on, z, fits, early, whole, ends) refl
    ]

send2_car_server-ends :
    {D : Type 0} (g : Settings D) (c : Client D) (s on s' : Sender) (open_fds fds fds' : OpenFds)
    (a : Answers) (request : Bytes) (ret : ℕ)
    → connect s open_fds a.socket a.result a.reports ≡ some (on, fds, true)
    → send_request g.domain g.port c.serial c.md5 (g.print c.xgps) (g.print c.ygps) ≡ ok request
    → recv g.outtime on fds a.turns ≡ ok (some (s', fds', ret))
    → send2_car_server g c s open_fds a
      ≡ ok (some (fds', some (record { phone = c.fd; request = request; reply = feedback s' })))
unfolding send2_car_server after_connect ask
send2_car_server-ends g c s on s' open_fds fds fds' a request ret connects sent ended =
    rw (connects, sent, ended) refl

-- The parts of an answer that `is_complete` looks for.
pub record Reply : Type 0 where
  pub head : Bytes
  pub body : Bytes
  pub tail : Bytes

abbrev pub opening : Bytes
opening = codes "{\"succ\":\""

abbrev pub reply_text : Reply → Bytes
reply_text r = r.head ++ (opening ++ (r.body ++ b'}' ∷ r.tail))

-- The answer has no NUL, and room in `fb` with one behind it.
pub record IsShortReply (r : Reply) : Type 0 where
  pub head_text : Lacks 0 r.head
  pub body_text : Lacks 0 r.body
  pub tail_text : Lacks 0 r.tail
  pub size : length (reply_text r) < feedback_msg_len

module _ (r : Reply) (h : IsShortReply r) where
  answer-Lacks : Lacks 0 (reply_text r)
  answer-Lacks =
      All-append (λ d. d ≢ 0) r.head (opening ++ (r.body ++ b'}' ∷ r.tail)) h.head_text
        (All-append (λ d. d ≢ 0) opening (r.body ++ b'}' ∷ r.tail) (omega arith)
          (All-append (λ d. d ≢ 0) r.body (b'}' ∷ r.tail) h.body_text (omega arith, h.tail_text)))

  sizes : length (reply_text r) ≡ length r.head + (9 + (length r.body + (1 + length r.tail)))
  sizes = omega (
    arith,
    length-append r.head (opening ++ (r.body ++ b'}' ∷ r.tail)),
    length-append opening (r.body ++ b'}' ∷ r.tail),
    length-append r.body (b'}' ∷ r.tail),
  )

  up_to_opening : reply_text r ≡ (r.head ++ opening) ++ (r.body ++ b'}' ∷ r.tail)
  up_to_opening = sym (append_assoc r.head opening (r.body ++ b'}' ∷ r.tail))

  up_to_closing : reply_text r ≡ ((r.head ++ (opening ++ r.body)) ++ b'}' ∷ []) ++ r.tail
  up_to_closing = simp append_assoc

  -- A buffer that starts with the answer is complete.
  is_complete-reply : (fb : Cells ℕ) → TextAt fb 0 (reply_text r) → is_complete fb ≡ ok true
  unfolding is_complete
  is_complete-reply fb t =
      let k = sizes in
      let size = h.size in
      let opened : has_text opening fb 0 feedback_msg_len ≡ ok true =
        has_text-found fb r.head opening 0 feedback_msg_len
          (TextAt-front fb 0 (r.head ++ opening) (r.body ++ b'}' ∷ r.tail)
            (subst (TextAt fb 0) up_to_opening t))
          h.head_text (omega arith) (omega arith) in
      let closed : has_text (codes "}") fb 0 feedback_msg_len ≡ ok true =
        has_text-found fb (r.head ++ (opening ++ r.body)) (codes "}") 0 feedback_msg_len
          (TextAt-front fb 0 ((r.head ++ (opening ++ r.body)) ++ b'}' ∷ []) r.tail
            (subst (TextAt fb 0) up_to_closing t))
          (All-append (λ d. d ≢ 0) r.head (opening ++ r.body) h.head_text
            (All-append (λ d. d ≢ 0) opening r.body (omega arith) h.body_text))
          (omega (arith, length-append r.head (opening ++ r.body), length-append opening r.body))
          (omega arith) in
      rw opened closed

  -- `fb` once the answer is read, and the sender behind Close.
  abbrev answered_fb : Cells ℕ → Cells ℕ
  answered_fb fb = write (store fb 0 (reply_text r)) (length (reply_text r)) 0

  abbrev closed : Sender → Sender
  closed s = record s { sockfd = none; fb = answered_fb s.fb }

  -- Recv, on an answer that comes in one chunk, ends with it in `fb` and the socket closed, whatever
  -- the time.
  recv-reply :
      (outtime elapsed fd : ℕ) (s : Sender) (open_fds : OpenFds) (later : List Turn)
      → s.sockfd ≡ some fd
      → recv outtime s open_fds (record { got = chunk (reply_text r); elapsed = elapsed } ∷ later)
        ≡ ok (some (closed s, without fd open_fds, length (reply_text r)))
  recv-reply outtime elapsed fd s open_fds later on =
      recv-chunk outtime elapsed fd s open_fds later (reply_text r) on h.size
        (is_complete-reply (store s.fb 0 (reply_text r)) (TextAt-stored s.fb (reply_text r)))

  feedback-reply : (s : Sender) → feedback (closed s) ≡ reply_text r
  feedback-reply s =
      c_str-slice (answered_fb s.fb) (reply_text r) 0 feedback_msg_len
        (TextAt-nul (answered_fb s.fb) 0 (reply_text r) (TextAt-store s.fb (reply_text r))
          (ground arith))
        answer-Lacks h.size

  -- An exchange that connects to a socket that was not open, and whose answer comes in one chunk:
  -- the request goes out, the answer is what the phone gets, and the open descriptors are as before.
  pub send2_car_server-reply :
      {D : Type 0} (g : Settings D) (c : Client D) (s : Sender) (open_fds : OpenFds)
      (fd elapsed : ℕ) (a : Answers) (later : List Turn) (request : Bytes)
      → connect s open_fds a.socket a.result a.reports
        ≡ some (record s { sockfd = some fd }, fd ∷ open_fds, true)
      → a.turns ≡ record { got = chunk (reply_text r); elapsed = elapsed } ∷ later
      → contains open_fds fd ≡ false
      → send_request g.domain g.port c.serial c.md5 (g.print c.xgps) (g.print c.ygps) ≡ ok request
      → send2_car_server g c s open_fds a
        ≡ ok (
            some
              (open_fds, some (record { phone = c.fd; request = request; reply = reply_text r })))
  send2_car_server-reply g c s open_fds fd elapsed a later request connects turns new sent =
      let on : Sender = record s { sockfd = some fd } in
      let again : without fd (fd ∷ open_fds) ≡ open_fds =
        ground (arith, without-absent fd open_fds new) in
      send2_car_server-ends g c s on (closed on) open_fds (fd ∷ open_fds)
        (without fd (fd ∷ open_fds)) a request (length (reply_text r)) connects sent
        (ap (recv g.outtime on (fd ∷ open_fds)) turns
          ∙ recv-reply g.outtime elapsed fd on (fd ∷ open_fds) later refl)
      ∙ ap
          (λ fds. ok (
            some (
              fds,
              some (record { phone = c.fd; request = request; reply = feedback (closed on) }),
            )))
          again
      ∙ ap (λ t. ok (some (open_fds, some (record { phone = c.fd; request = request; reply = t }))))
          (feedback-reply on)
