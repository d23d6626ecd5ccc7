-- ===== src/Client/Examples.antt =====
-- A request that is read, and the theorems at concrete buffers. The doubles are numbers here.
use correct_gps.Base.{
  ◌≢◌, bad_format, codes, ℕ, ◌+◌, ◌-◌, ◌<◌, ◌≤◌, ◌≡◌, refl, [], ◌∷◌, ◌++◌, Bytes, Cells, arith, ok,
  fault, aborted, overlapping, get_or, slice, store, Ensures, Within, if◌then◌else◌, ◌==◌, ◌||◌,
  true, false, ltb, Run, ◌>>=◌,
}
use correct_gps.Client.{
  Client, Outcome, alive, arrived, receive, parse, parse_bytes, parse_log, string_of, parse_len,
  at_navto, read_fields, scan, scan_dot, at_word, serial_word,
}
use correct_gps.Tools.Chars.{c_str}
use correct_gps.Client.Scan.{Scans, scan-Scans}
use correct_gps.Client.Parse.{ParsedFrom}
use correct_gps.Client.Within.{parse-Within}
use correct_gps.Client.Messages.{Logs, parse_log-plain, receive-request, receive-conversion}
use correct_gps.Tools.Clock.{Tm, IsTime, getnowdate, date_of}
use correct_gps.Tools.Decimal.{digits_of}
use correct_gps.Log.{log_msg, log_doit, format}
use correct_gps.Client.Fields.{Fields, IsProper}
use correct_gps.Client.Request
use correct_gps.Client.Request.{served}
use correct_gps.Client.Receive.{moved_rest, parse_len-waits, parse_len-overlaps, parse_len-aborted}

abbrev now : Tm
now = record { tm_year = 113; tm_mon = 3; tm_mday = 8; tm_hour = 17; tm_min = 5; tm_sec = 9 }

now-IsTime : IsTime now
now-IsTime = record {
  year = omega arith;
  mon = omega arith;
  mday = omega arith;
  hour = omega arith;
  min = omega arith;
  sec = omega arith;
}

-- A client of descriptor 5 with the given buffer.
abbrev with_buffer : Cells ℕ → Client ℕ
with_buffer p = record {
  fd = 5;
  offset = 0;
  iobuf = p;
  serial = [];
  md5 = [];
  xbaidu = [];
  ybaidu = [];
  xgps = 0;
  ygps = 0;
  status = 0;
  delay_time = 0;
}

abbrev request : Bytes
request =
    codes
      "GET /index.php/api/car/navto?serial=356823032255122&md5=2eb399b9588b1ac2ccc35dce6f266033&xbaidu=114.73427&ybaidu=10.640487 HTTP/1.1"

-- The fields of what is left of a client.
fields_of : Run (Outcome ℕ) → Run (Bytes × Bytes × ℕ)
fields_of r = r >>= λ o. elim o [
  | Outcome.killed ↦ fault aborted
  | alive c told ↦ ok (c.serial, c.xbaidu ++ b'/' ∷ [] ++ c.ybaidu, c.status)
]

request_is_read :
    fields_of (receive (with_buffer (λ k. 0)) (arrived now request))
    ≡ ok (codes "356823032255122", codes "114.73427/10.640487", 1)
unfolding fields_of receive parse parse_bytes parse_log string_of getnowdate date_of digits_of
    log_msg log_doit format parse_len at_navto read_fields scan scan_dot at_word c_str
request_is_read = refl

-- A keyword and then nothing but 'x'.
abbrev no_serial : Cells ℕ
no_serial k = if ltb k 6 then get_or (codes "navto?") k 0 else if ltb k 200 then b'x' else 0

scan-Scans_example :
    Ensures (scan serial_word no_serial 200 0) (Scans no_serial 200 serial_word 0 200)
scan-Scans_example =
    scan-Scans no_serial 200 refl (omega arith) serial_word 200 0 (omega arith) (omega arith)

parse-Within_example : Within (ParsedFrom 5 0) (parse now (with_buffer no_serial) 200)
parse-Within_example =
    parse-Within now (with_buffer no_serial) 200 now-IsTime
      (record {
        waiting = omega arith;
        serial_fits = omega arith;
        md5_fits = omega arith;
        xbaidu_fits = omega arith;
        ybaidu_fits = omega arith;
        plain = λ k. ground (arith, word_plain k);
        blank_end = λ k far. ground arith;
      })
      (omega arith)
  where
    word_plain : (k : ℕ) → get_or (codes "navto?") k 0 ≢ b'%'
    word_plain k = ground arith

-- The keyword stands at position 9.
abbrev piece : Cells ℕ
piece k = get_or (codes "GET /api/navto?se") k 0

parse_len-waits_example :
    (parse_len (with_buffer piece) 17
      ≡ ok (moved_rest (with_buffer piece) 17 refl (omega arith) 9, false))
    × (slice
          (store
            (moved_rest (with_buffer piece) 17 refl (omega arith) 9).iobuf
            (moved_rest (with_buffer piece) 17 refl (omega arith) 9).offset
            (codes "rial"))
          0
          (17 - 9 + 4)
        ≡ codes "navto?se" ++ codes "rial")
parse_len-waits_example =
    parse_len-waits (with_buffer piece) 17 refl (omega arith) 9 (codes "rial")
      (omega arith, (refl, (refl, (refl, (refl, (refl, tt))))), λ k h m. before k h m.0)
      (omega arith) (omega arith)
  where
    before : (k : ℕ) → k < 9 → (piece k == b'N' || piece k == b'n') ≡ true → ⊥
    before k h e = ground arith

-- The keyword stands at position 5.
abbrev early_piece : Cells ℕ
early_piece k = get_or (codes "GET /navto?serial=12") k 0

parse_len-overlaps_example : parse_len (with_buffer early_piece) 20 ≡ fault overlapping
parse_len-overlaps_example =
    parse_len-overlaps (with_buffer early_piece) 20 refl (omega arith) 5
      (omega arith, (refl, (refl, (refl, (refl, (refl, tt))))), λ k h m. before k h m.0)
      (omega arith) (omega arith)
  where
    before : (k : ℕ) → k < 5 → (early_piece k == b'N' || early_piece k == b'n') ≡ true → ⊥
    before k h e = ground arith

parse_len-aborted_example : parse_len (with_buffer no_serial) 200 ≡ fault aborted
parse_len-aborted_example =
    parse_len-aborted (with_buffer no_serial) 200 refl (omega arith) 0
      (omega arith, (refl, (refl, (refl, (refl, (refl, tt))))), λ k h. absurd (omega arith))
      (omega arith) (λ k lo hi m. lacks_serial k lo hi m.0)
  where
    lacks_serial :
        (k : ℕ) → 6 ≤ k → k < 200 → (no_serial k == b'S' || no_serial k == b's') ≡ true → ⊥
    lacks_serial k lo hi e = ground arith

abbrev fields : Fields
fields = record {
  serial = codes "356823032255122";
  md5 = codes "2eb399b9588b1ac2ccc35dce6f266033";
  xbaidu = codes "114.73427";
  ybaidu = codes "10.640487";
}

fields-IsProper : IsProper fields
fields-IsProper = record {
  serial_digits = ground arith;
  serial_size = refl;
  md5_hex = ground arith;
  md5_size = refl;
  xbaidu_decimal = ground arith;
  xbaidu_size = omega arith;
  ybaidu_decimal = ground arith;
  ybaidu_size = omega arith;
}

request_is_printed : Request.request fields (codes "HTTP/1.1") ≡ request
request_is_printed = refl

parse_log-plain_example :
    (d : Bytes) × Logs now (with_buffer (λ k. 0)) (λ k. refl) refl (codes "hello") d
parse_log-plain_example =
    parse_log-plain now (with_buffer (λ k. 0)) (λ k. refl) refl (codes "hello") (omega arith)
      (omega arith) now-IsTime

receive-request_example :
    receive (with_buffer (λ k. 0)) (arrived now (Request.request fields (codes "HTTP/1.1")))
    ≡ ok (alive (served (with_buffer (λ k. 0)) fields (codes "HTTP/1.1")) true)
receive-request_example =
    receive-request now (with_buffer (λ k. 0)) (λ k. refl) refl fields (codes "HTTP/1.1")
      fields-IsProper (omega arith) (omega arith) (omega arith) now-IsTime

receive-conversion_example :
    receive (with_buffer (λ k. 0)) (arrived now (codes "GET /a" ++ b'%' ∷ b's' ∷ codes " HTTP/1.1"))
    ≡ fault bad_format
receive-conversion_example =
    receive-conversion now (with_buffer (λ k. 0)) (λ k. refl) refl (codes "GET /a")
      (codes " HTTP/1.1") b's' (omega arith) refl (omega arith) (omega arith) now-IsTime
