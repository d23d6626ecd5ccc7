-- ===== src/Client/Within.antt =====
-- `parse`, with its message, stays inside the buffers.
use correct_gps.Base.{
  ℕ, ◌+◌, ◌≤◌, ◌<◌, ◌≡◌, true, Bytes, [], slice, ltb, length, arith, Ensures, Ensures-bind, Within,
  Within-bind, Ensures-Within,
}
use correct_gps.Tools.Clock.{Tm, IsTime, IsDate, getnowdate, getnowdate-IsDate}
use correct_gps.Log.{log_msg, buff_size}
use correct_gps.Log.Plain.{IsPlain, log_msg-plain}
use correct_gps.Client.{Client, iobuf_size, string_of, log_text, parse_log, parse}
use correct_gps.Client.Clean.{date-IsPlain, string_of-ends, length-log_text, log_text-IsPlain}
use correct_gps.Client.Parse.{IsBounded, ParsedFrom, parse_bytes-Within}

log_msg-fits :
    (s : Bytes) → IsPlain s → length s + 1 < buff_size → Ensures (log_msg s []) (λ e. Unit)
log_msg-fits s plain few =
    let fits : ltb (length s + 1) buff_size ≡ true = ground arith in
    rw (log_msg-plain s plain, fits) tt

-- The message of a buffer that is blank at its end and has no '%'.
parse_log-Ensures :
    {D : Type 0} (now : Tm) (c : Client D)
    → IsTime now
    → IsBounded c
    → Ensures (parse_log now c) (λ e. Unit)
unfolding parse_log
parse_log-Ensures now c time b =
    Ensures-bind (λ d. IsDate now d × (length d ≡ 19)) _ (getnowdate now) _
      (getnowdate-IsDate now time)
      (λ d hd.
        Ensures-bind (λ s. IsPlain s × (length s ≤ 4064)) _ (string_of (slice c.iobuf 0 iobuf_size))
          _
          (string_of-ends c.iobuf 0 4064 iobuf_size b.plain (b.blank_end 4064 (omega arith))
            (omega arith))
          (λ s hs.
            log_msg-fits (log_text d s) (log_text-IsPlain d s (date-IsPlain now d hd.0) hs.0)
              (omega (arith, length-log_text d s hd.1, hs.1))))

-- For a client within its sizes, whose buffer has no '%' and is blank behind its first 4064 cells, a
-- total of bytes that leaves 33 bytes of the buffer free, and a year of four digits, `parse` with its
-- message reads and writes inside its buffers. It stops at a failed assert or at a copy of regions
-- that overlap, or leaves the client as it asks for it, short of a request again, and notifies only
-- for a complete request.
pub parse-Within :
    {D : Type 0} (now : Tm) (c : Client D) (ulen : ℕ)
    → IsTime now
    → IsBounded c
    → ulen + c.offset + 33 ≤ iobuf_size
    → Within (ParsedFrom c.fd c.status) (parse now c ulen)
unfolding parse
parse-Within now c ulen time b room =
    Within-bind (λ e. Unit) (ParsedFrom c.fd c.status) (parse_log now c) _
      (Ensures-Within _ (parse_log now c) (parse_log-Ensures now c time b))
      (λ e h. parse_bytes-Within c ulen b room)
