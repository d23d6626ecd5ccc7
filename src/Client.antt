-- ===== src/Client.antt =====
-- CClient (src/CClient.h, src/CClient.cpp): one connection of a phone, its receive buffer, and the
-- request read from it. `D` is the type of doubles. Sizes that a memcpy or an index can leave are
-- tested against the declared sizes, and leaving them is a fault; so is a failed assert.
pub mod Scan
pub mod Parse
pub mod Receive
pub mod Query
pub mod Fields
pub mod Reads
pub mod Request
pub mod Clean
pub mod Messages
pub mod Within
pub mod Descriptor
mod Examples
use correct_gps.Tools.Chars.{c_str}
use correct_gps.Tools.Clock.{Tm, getnowdate}
use correct_gps.Log.{Entry, log_msg}
use correct_gps.Base.{
  ℕ, zero, suc, ◌+◌, ◌-◌, Bool, true, false, ◌&&◌, ◌||◌, List, [], ◌∷◌, Bytes, Cells, write, copy,
  codes, ◌++◌, slice, store, ltb, leb, ◌==◌, if◌then◌else◌, Run, ok, fault, out_of_bounds, aborted,
  ◌>>=◌, ◌>>◌, length, Option, none, some,
}

-- MAXBUF, IN_DATA_LEN, SERIAL_LEN, MD5_LEN, GPS_LEN, and the size of `iobuf`
abbrev pub maxbuf : ℕ
maxbuf = 4096

abbrev pub in_data_len : ℕ
in_data_len = 87

abbrev pub serial_len : ℕ
serial_len = 15

abbrev pub md5_len : ℕ
md5_len = 32

abbrev pub gps_len : ℕ
gps_len = 11

abbrev pub iobuf_size : ℕ
iobuf_size = maxbuf + 1

-- The members, without the address of the peer. A text member is its bytes before the NUL that the
-- code writes behind them.
pub record Client (D : Type 0) : Type 0 where
  pub fd : ℕ
  pub offset : ℕ
  pub iobuf : Cells ℕ
  pub serial : Bytes
  pub md5 : Bytes
  pub xbaidu : Bytes
  pub ybaidu : Bytes
  pub xgps : D
  pub ygps : D
  pub status : ℕ
  pub delay_time : ℕ

module _ {D : Type 0} where
  -- `ini`, which leaves md5, the coordinates and the results as they are.
  unfoldable pub ini : Client D → ℕ → ℕ → Client D
  ini c fd now = record c {
    status = 0;
    delay_time = now;
    serial = [];
    iobuf = λ k. 0;
    offset = 0;
    fd = fd;
  }

  unfoldable pub set_send2_car_server : Client D → Client D
  set_send2_car_server c = record c { status = 2 }

  unfoldable pub get_send2_car_server : Client D → Bool
  get_send2_car_server c = 2 == c.status

-- A keyword, as the two forms of each letter.
abbrev pub Keyword : Type 0
Keyword = List (ℕ × ℕ)

abbrev pub navto : Keyword
navto = (b'N', b'n') ∷ (b'a', b'A') ∷ (b'V', b'v') ∷ (b'T', b't') ∷ (b'O', b'o') ∷ []

abbrev pub serial_word : Keyword
serial_word =
    (b'S', b's') ∷ (b'e', b'E') ∷ (b'R', b'r') ∷ (b'I', b'i') ∷ (b'A', b'a') ∷ (b'L', b'l') ∷ []

abbrev pub md5_word : Keyword
md5_word = (b'M', b'm') ∷ (b'd', b'D') ∷ (b'5', b'5') ∷ []

abbrev pub xbaidu_word : Keyword
xbaidu_word =
    (b'X', b'x') ∷ (b'B', b'b') ∷ (b'a', b'A') ∷ (b'I', b'i') ∷ (b'D', b'd') ∷ (b'U', b'u') ∷ []

abbrev pub ybaidu_word : Keyword
ybaidu_word =
    (b'Y', b'y') ∷ (b'B', b'b') ∷ (b'a', b'A') ∷ (b'I', b'i') ∷ (b'D', b'd') ∷ (b'U', b'u') ∷ []

-- p[i], inside `iobuf`
abbrev pub peek : Cells ℕ → ℕ → Run ℕ
peek p i = if ltb i iobuf_size then ok (p i) else fault out_of_bounds

-- The test for a keyword at p[i], which stops at the first letter that differs.
unfoldable pub at_word : Keyword → Cells ℕ → ℕ → Run Bool
at_word [] p i = ok true
at_word ((a, b) ∷ w) p i =
    peek p i >>= λ c. elim (c == a || c == b) [ true ↦ at_word w p (i + 1) | false ↦ ok false ]

-- The loop that looks for a keyword from x on, with n positions left before the end. It gives the
-- end where there is none.
unfoldable pub scan : Keyword → Cells ℕ → ℕ → ℕ → Run ℕ
scan w p zero x = ok x
scan w p (suc n) x = at_word w p x >>= λ hit. elim hit [ true ↦ ok x | false ↦ scan w p n (x + 1) ]

-- memcpy out of `iobuf`
pub copy_out : Cells ℕ → ℕ → ℕ → Run Bytes
copy_out p i n = if leb (i + n) iobuf_size then ok (slice p i n) else fault out_of_bounds

-- The loop over a coordinate, with n characters left before its limit. The character at the limit
-- is read before the limit is tested.
unfoldable pub scan_dot : Cells ℕ → ℕ → ℕ → Run ℕ
scan_dot p zero dot = peek p dot >>= λ c. ok dot
scan_dot p (suc n) dot = peek p dot >>= λ c. elim (c == b' ' || c == b'&') [
  | true ↦ ok dot
  | false ↦ scan_dot p n (dot + 1)
]

-- A field of fixed length that stands `skip` behind the start of its keyword. The search is from j
-- on, and an assert demands that it succeeds.
pub read_text : Keyword → ℕ → ℕ → Cells ℕ → ℕ → ℕ → Run Bytes
read_text w skip n p len j = scan w p (len - j) j >>= λ x.
    if ltb x len then (copy_out p (x + skip) n >>= λ t. ok (c_str t)) else fault aborted

-- The coordinate behind the keyword at x, up to a space or '&'. One that is too long leaves the
-- member as it is.
pub read_coordinate : Cells ℕ → ℕ → Bytes → Run Bytes
read_coordinate p x old = scan_dot p gps_len (x + 7) >>= λ dot.
    if ltb dot (x + 7 + gps_len)
    then (copy_out p (x + 7) (dot - (x + 7)) >>= λ t. ok (c_str t))
    else ok old

module _ {D : Type 0} where
  -- Less than a whole request: what there is from its keyword on moves to the front.
  unfoldable pub keep_rest : Client D → ℕ → ℕ → Run (Client D)
  keep_rest c len i = copy c.iobuf 0 i (len - i) >>= λ p.
      ok (record c { offset = len - i; iobuf = write p (len - i) 0 })

  -- The fields of a whole request. The flag tells that the workers are notified. A missing ybaidu
  -- is only reported.
  unfoldable pub read_fields : Client D → ℕ → ℕ → Run (Client D × Bool)
  unfolding read_text read_coordinate copy_out
  read_fields c len j = read_text serial_word 7 serial_len c.iobuf len j >>= λ serial.
      read_text md5_word 4 md5_len c.iobuf len j >>= λ md5.
      scan xbaidu_word c.iobuf (len - j) j >>= λ x.
      (if ltb x len then read_coordinate c.iobuf x c.xbaidu else fault aborted) >>= λ xbaidu.
      scan ybaidu_word c.iobuf (len - j) j >>= λ y.
      (if ltb y len then read_coordinate c.iobuf y c.ybaidu else ok c.ybaidu) >>= λ ybaidu.
      ok (
        record c { serial = serial; md5 = md5; xbaidu = xbaidu; ybaidu = ybaidu; status = 1 },
        true,
      )

  -- At a keyword in front of the end.
  unfoldable pub at_navto : Client D → ℕ → ℕ → Run (Client D × Bool)
  unfolding keep_rest
  at_navto c len i =
      if ltb len (i + 6 + in_data_len)
      then (keep_rest c len i >>= λ r. ok (r, false))
      else read_fields c len (i + 6)

  unfoldable pub parse_len : Client D → ℕ → Run (Client D × Bool)
  parse_len c len =
      scan navto c.iobuf len 0 >>= λ i. if ltb i len then at_navto c len i else ok (c, false)

  -- What parse does behind its message.
  unfoldable pub parse_bytes : Client D → ℕ → Run (Client D × Bool)
  parse_bytes c ulen =
      if ltb 0 ulen
      then (if ltb (ulen + c.offset) iobuf_size
          then parse_len (record c { iobuf = write c.iobuf (ulen + c.offset) 0 }) (ulen + c.offset)
          else fault out_of_bounds)
      else ok (c, false)

-- The string that the cells hold: to read on behind the last one is a fault.
unfoldable pub string_of : Bytes → Run Bytes
string_of [] = fault out_of_bounds
string_of (c ∷ cs) = elim (c == 0) [ true ↦ ok [] | false ↦ string_of cs >>= λ s. ok (c ∷ s) ]

-- The text of the message of parse, which is its format too.
abbrev pub log_text : Bytes → Bytes → Bytes
log_text ndate recvbuf = codes "[get][" ++ (ndate ++ (codes "][" ++ (recvbuf ++ codes "].")))

module _ {D : Type 0} where
  unfoldable pub parse_log : Tm → Client D → Run Entry
  unfolding string_of
  parse_log now c = getnowdate now >>= λ ndate.
      string_of (slice c.iobuf 0 iobuf_size) >>= λ recvbuf. log_msg (log_text ndate recvbuf) []

  -- The message of sendback.
  unfoldable pub sendback_log : Client D → Run Entry
  sendback_log c = log_msg (codes "[log]to[" ++ (c.serial ++ codes "].")) []

  -- `now` is what localtime gives.
  unfoldable pub parse : Tm → Client D → ℕ → Run (Client D × Bool)
  unfolding parse_log parse_bytes
  parse now c ulen = parse_log now c >>= λ e. parse_bytes c ulen

-- What recv gives, and the time at which it does.
pub data Received : Type 0 where
  recv_error peer_closed : Received
  arrived : Tm → Bytes → Received

-- The client is killed, or lives on, perhaps with its request handed to the workers.
pub data Outcome (D : Type 0) : Type 0 where
  killed : Outcome D
  alive : Client D → Bool → Outcome D

module _ {D : Type 0} where
  -- recv writes what arrived at the offset, into a room of maxbuf - offset.
  unfoldable pub receive : Client D → Received → Run (Outcome D)
  receive c recv_error = ok killed
  receive c peer_closed = ok killed
  receive c (arrived now bytes) =
      parse now (record c { iobuf = store c.iobuf c.offset bytes }) (length bytes) >>= λ r.
      ok (alive r.0 r.1)
