-- ===== src/Client/Messages.antt =====
-- What the messages of `parse` do to the first bytes of a phone.
use correct_gps.Base.{
  ℕ, ◌+◌, ◌≤◌, ◌≡◌, refl, ap, ◌∙◌, Bool, true, [], ◌∷◌, ◌++◌, Bytes, codes, slice, store, ltb,
  if◌then◌else◌, Run, ok, fault, out_of_bounds, bad_format, ◌>>=◌, length, length-append,
  All-append, leb, arith, Ensures,
}
use mathlib.Core.List.{append_assoc}
use correct_gps.Tools.Items.Lines.{Lacks}
use correct_gps.Tools.Clock.{Tm, IsTime, IsDate, getnowdate, getnowdate-IsDate}
use correct_gps.Log.{takes_argument, Entry, log_info, syslog, log_msg, buff_size}
use correct_gps.Log.Plain.{IsPlain, log_msg-plain, log_msg-conversion}
use correct_gps.Client.{
  Client, arrived, alive, receive, string_of, log_text, parse_log, parse, parse_bytes, sendback_log,
  iobuf_size, maxbuf, serial_len,
}
use correct_gps.Tools.Chars.{IsDigits}
use correct_gps.Client.Fields.{Fields, IsProper}
use correct_gps.Client.Request.{request, served, parse_bytes-query, length-query, TextAt-stored}
use correct_gps.Client.Clean.{
  IsClean, IsClean-Lacks, IsClean-IsPlain, request-IsClean, date-IsPlain, string_of-slice,
  length-log_text, log_text-IsPlain, digits-IsClean,
}

module _ {D : Type 0} (now : Tm) (c : Client D) (blank : (k : ℕ) → c.iobuf k ≡ 0)
    (empty : c.offset ≡ 0) where
  -- The client with what it gets first.
  abbrev pub holding : Bytes → Client D
  holding s = record c { iobuf = store c.iobuf c.offset s }

  string_of-first :
      (s : Bytes)
      → Lacks 0 s
      → length s ≤ maxbuf
      → string_of (slice (store c.iobuf c.offset s) 0 iobuf_size) ≡ ok s
  string_of-first s h room =
      ap (λ o. string_of (slice (store c.iobuf o s) 0 iobuf_size)) empty
      ∙ string_of-slice (store c.iobuf 0 s) s 0 iobuf_size (TextAt-stored c.iobuf s)
          (behind (blank (length s))) h (omega arith)
    where
      behind : c.iobuf (length s) ≡ 0 → store c.iobuf 0 s (0 + length s) ≡ 0
      behind e = ground arith

  parse_log-first :
      (s : Bytes)
      → Lacks 0 s
      → length s ≤ maxbuf
      → parse_log now (holding s) ≡ (getnowdate now >>= λ d. log_msg (log_text d s) [])
  unfolding parse_log
  parse_log-first s h room =
      ap (λ r. getnowdate now >>= λ d. r >>= λ recvbuf. log_msg (log_text d recvbuf) [])
        (string_of-first s h room)

  -- What is logged, where the date is that of `now`.
  abbrev pub Logs : Bytes → Bytes → Type 0
  Logs s d =
      IsDate now d
      × (parse_log now (holding s) ≡ (
          if leb (length s) 4065
          then syslog log_info (log_text d s ++ b'\n' ∷ [])
          else fault out_of_bounds))

  -- If the buffer of a client is blank, nothing waits in it, and the year has four digits, then on
  -- bytes with no NUL and no '%' that fit `iobuf` the message is the date and those bytes, where they
  -- are at most 4065; more overrun the buffer of the message.
  pub parse_log-plain :
      (s : Bytes) → IsClean s → length s ≤ maxbuf → IsTime now → (d : Bytes) × Logs s d
  parse_log-plain s clean room time = by_date (getnowdate now) refl (getnowdate-IsDate now time)
    where
      same_test : (n k : ℕ) → n ≡ k + 29 → ltb (n + 1) buff_size ≡ leb k 4065
      same_test n k e = ground arith

      logged :
          (d : Bytes)
          → IsDate now d
          → length d ≡ 19
          → log_msg (log_text d s) [] ≡ (
              if leb (length s) 4065
              then syslog log_info (log_text d s ++ b'\n' ∷ [])
              else fault out_of_bounds)
      logged d date size =
          log_msg-plain (log_text d s)
            (log_text-IsPlain d s (date-IsPlain now d date) (IsClean-IsPlain s clean))
          ∙ ap
              (λ (b : Bool).
                if b then syslog log_info (log_text d s ++ b'\n' ∷ []) else fault out_of_bounds)
              (same_test (length (log_text d s)) (length s) (length-log_text d s size))

      by_date :
          (r : Run Bytes)
          → getnowdate now ≡ r
          → Ensures r (λ d. IsDate now d × (length d ≡ 19))
          → (d : Bytes) × Logs s d
      by_date (ok d) e (date, size) = (
        d,
        (
          date,
          parse_log-first s (IsClean-Lacks s clean) room
              ∙ ap (λ r. r >>= λ b. log_msg (log_text b s) []) e
              ∙ logged d date size,
        ),
      )
      by_date (fault f) e h = absurd h

  -- A request line with fields of the right form and length, with 11 characters or more in its
  -- coordinates and the rest of its header, and at most 3900 in that rest, which has no NUL and no
  -- '%', that arrives whole in a blank buffer in a year of four digits, is read back by the code
  -- with its message too: the client has just the fields of the request, and the workers are
  -- notified.
  pub receive-request :
      (f : Fields) (rest : Bytes)
      → IsProper f
      → 11 ≤ length f.xbaidu + length f.ybaidu + length rest
      → length rest ≤ 3900
      → IsClean rest
      → IsTime now
      → receive c (arrived now (request f rest)) ≡ ok (alive (served c f rest) true)
  unfolding receive parse
  receive-request f rest h whole room clean time =
      let size : length (request f rest) ≤ 4065 =
        let k = length-query f rest h in
        let kx = h.xbaidu_size in let ky = h.ybaidu_size in omega arith in
      let (d, (date, logs)) =
        parse_log-plain (request f rest) (request-IsClean f rest h clean) (omega arith) time in
      let fits : leb (length (request f rest)) 4065 ≡ true =
        by_size (length (request f rest)) size in
      ap
        (λ (r : Run Entry).
          (r >>= λ e. parse_bytes (holding (request f rest)) (length (request f rest))) >>= λ q.
          ok (alive q.0 q.1))
        (logs
          ∙ ap
              (λ (b : Bool).
                if b
                then syslog log_info (log_text d (request f rest) ++ b'\n' ∷ [])
                else fault out_of_bounds)
              fits)
      ∙ ap (λ (q : Run (Client D × Bool)). q >>= λ r. ok (alive r.0 r.1))
          (ap
              (λ o.
                parse_bytes (record c { iobuf = store c.iobuf o (request f rest) })
                  (length (request f rest)))
              empty
            ∙ parse_bytes-query c f rest h whole room empty)
    where
      by_size : (n : ℕ) → n ≤ 4065 → leb n 4065 ≡ true
      by_size n k = ground arith

  -- If the bytes that arrive in a blank buffer, in a year of four digits, have no NUL and fit, and
  -- their first '%' stands before the letter of a conversion that reads an argument, then vsprintf
  -- reads one that nobody passed.
  pub receive-conversion :
      (front rest : Bytes) (ch : ℕ)
      → IsClean front
      → takes_argument ch ≡ true
      → Lacks 0 (front ++ b'%' ∷ ch ∷ rest)
      → length (front ++ b'%' ∷ ch ∷ rest) ≤ maxbuf
      → IsTime now
      → receive c (arrived now (front ++ b'%' ∷ ch ∷ rest)) ≡ fault bad_format
  unfolding receive parse
  receive-conversion front rest ch clean other texts room time =
      ap
        (λ (r : Run Entry).
          (r >>= λ e.
          parse_bytes (holding (front ++ b'%' ∷ ch ∷ rest)) (length (front ++ b'%' ∷ ch ∷ rest)))
          >>= λ q. ok (alive q.0 q.1))
        (parse_log-first (front ++ b'%' ∷ ch ∷ rest) texts room
          ∙ by_date (getnowdate now) (getnowdate-IsDate now time))
    where
      moved :
          (d : Bytes)
          → log_text d (front ++ b'%' ∷ ch ∷ rest)
            ≡ (codes "[get][" ++ (d ++ (codes "][" ++ front))) ++ b'%' ∷ ch ∷ (rest ++ codes "].")
      moved d = simp append_assoc

      by_date :
          (r : Run Bytes)
          → Ensures r (λ d. IsDate now d × (length d ≡ 19))
          → (r >>= λ d. log_msg (log_text d (front ++ b'%' ∷ ch ∷ rest)) []) ≡ fault bad_format
      by_date (ok d) (date, size) =
          ap (λ t. log_msg t []) (moved d)
          ∙ log_msg-conversion (codes "[get][" ++ (d ++ (codes "][" ++ front))) (rest ++ codes "].")
              ch
              (
                omega arith,
                (
                  omega arith,
                  (
                    omega arith,
                    (
                      omega arith,
                      (
                        omega arith,
                        (
                          omega arith,
                          All-append _ d (codes "][" ++ front) (date-IsPlain now d date)
                              (omega arith, (omega arith, IsClean-IsPlain front clean)),
                        ),
                      ),
                    ),
                  ),
                ),
              )
              other
      by_date (fault e) h = absurd h

-- With a serial of digits the answer to the phone is logged.
sendback_log-digits :
    {D : Type 0} (c : Client D)
    → IsDigits c.serial
    → length c.serial ≡ serial_len
    → sendback_log c
      ≡ syslog log_info ((codes "[log]to[" ++ (c.serial ++ codes "].")) ++ b'\n' ∷ [])
unfolding sendback_log
sendback_log-digits c digits size =
    let serial : IsPlain c.serial = IsClean-IsPlain c.serial (digits-IsClean c.serial digits) in
    let plain : IsPlain (codes "[log]to[" ++ (c.serial ++ codes "].")) =
      All-append _ (codes "[log]to[") (c.serial ++ codes "].") (omega arith)
        (All-append _ c.serial (codes "].") serial (omega arith)) in
    let length_is : length (codes "[log]to[" ++ (c.serial ++ codes "].")) + 1 ≡ 26 =
      omega (arith, length-append c.serial (codes "].")) in
    let fits : ltb (length (codes "[log]to[" ++ (c.serial ++ codes "].")) + 1) buff_size ≡ true =
      ap (λ k. ltb k buff_size) length_is in
    log_msg-plain (codes "[log]to[" ++ (c.serial ++ codes "].")) plain
    ∙ ap
        (λ (b : Bool).
          if b
          then syslog log_info ((codes "[log]to[" ++ (c.serial ++ codes "].")) ++ b'\n' ∷ [])
          else fault out_of_bounds)
        fits
