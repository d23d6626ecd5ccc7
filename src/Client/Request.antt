-- ===== src/Client/Request.antt =====
-- A request as a phone writes it is read back.
use correct_gps.Base.{
  ℕ, suc, ◌+◌, ◌-◌, ◌≤◌, ◌<◌, ◌≡◌, refl, ap, ◌∙◌, true, false, [], ◌∷◌, ◌++◌, Bytes, Cells, codes,
  write, store, get_or, ltb, lt→ltb, ok, arith, length, length-append,
}
use correct_gps.Client.{
  Client, Keyword, iobuf_size, in_data_len, navto, at_word, scan, at_navto, parse_len, parse_bytes,
}
use correct_gps.Client.Query.{
  TextAt, TextAt-front, TextAt-behind, at_word-Spells, scan-hit, scan-skip,
}
use correct_gps.Client.Receive.{get_or-default}
use correct_gps.Client.Scan.{at_word-letter, at_word-miss, scan-step}
use correct_gps.Client.Fields.{Fields, IsProper, query, md5_part, x_part, y_part}
use correct_gps.Client.Reads.{read_fields-query}

-- The request line of a phone, with the rest of its header.
abbrev pub request : Fields → Bytes → Bytes
request f rest = codes "GET /index.php/api/car/navto?" ++ query f rest

pub length-query :
    (f : Fields) (rest : Bytes)
    → IsProper f
    → length (query f rest) ≡ 76 + length f.xbaidu + length f.ybaidu + length rest
length-query f rest h =
    let k1 = h.serial_size in
    let k2 = h.md5_size in
    omega (
      arith,
      length-append f.serial (b'&' ∷ md5_part f rest),
      length-append f.md5 (b'&' ∷ x_part f rest),
      length-append f.xbaidu (b'&' ∷ y_part f rest),
      length-append f.ybaidu (b' ' ∷ rest),
    )

TextAt-cells :
    (p : Cells ℕ) (i : ℕ) (s : Bytes)
    → ((k : ℕ) → k < length s → p (i + k) ≡ get_or s k 0)
    → TextAt p i s
TextAt-cells p i [] h = tt
TextAt-cells p i (c ∷ s) h = (
  ap p (omega arith) ∙ h 0 (omega arith),
  TextAt-cells p (i + 1) s (λ k b. ap p (omega arith) ∙ h (suc k) (omega arith)),
)

-- What arrived stands at the front of the buffer, with a NUL behind it.
pub TextAt-store : (p : Cells ℕ) (s : Bytes) → TextAt (write (store p 0 s) (length s) 0) 0 s
TextAt-store p s =
    TextAt-cells (write (store p 0 s) (length s) 0) 0 s
      (λ k b. ground (arith, get_or-default s k (p k) 0))

pub TextAt-stored : (p : Cells ℕ) (s : Bytes) → TextAt (store p 0 s) 0 s
TextAt-stored p s =
    TextAt-cells (store p 0 s) 0 s (λ k b. ground (arith, get_or-default s k (p k) 0))

module _ (p : Cells ℕ) (s : Bytes) (len : ℕ)
    (t : TextAt p 0 (codes "GET /index.php/api/car/navto?" ++ s)) (inside : 29 ≤ len)
    (small : len < iobuf_size) where
  abbrev avto : Keyword
  avto = (b'a', b'A') ∷ (b'V', b'v') ∷ (b'T', b't') ∷ (b'O', b'o') ∷ []

  at_dex : TextAt p 7 (codes "dex.php/api/car/navto?" ++ s)
  at_dex = TextAt-behind p 0 7 (codes "GET /in") (codes "dex.php/api/car/navto?" ++ s) t refl

  at_key : TextAt p 23 (codes "navto?" ++ s)
  at_key = TextAt-behind p 7 23 (codes "dex.php/api/car/") (codes "navto?" ++ s) at_dex refl

  miss_index : at_word navto p 6 ≡ ok false
  miss_index =
      let (c0, at_n) : (p 6 ≡ b'n') × TextAt p 7 (codes "dex.php/api/car/navto?" ++ s) =
        TextAt-behind p 0 6 (codes "GET /i") (codes "ndex.php/api/car/navto?" ++ s) t refl in
      at_word-letter p 6 (omega arith) b'N' b'n' avto (ground arith)
      ∙ at_word-miss p 7 (omega arith) b'a' b'A' ((b'V', b'v') ∷ (b'T', b't') ∷ (b'O', b'o') ∷ [])
          (let k = at_n.0 in ground arith)

  pub scan-navto : scan navto p len 0 ≡ ok 23
  scan-navto =
      scan-skip p b'N' b'n' avto (codes "GET /i") len (suc (len - 7)) 0 6
        (TextAt-front p 0 (codes "GET /i") (codes "ndex.php/api/car/navto?" ++ s) t) (ground arith)
        (omega arith) (omega arith) refl
      ∙ scan-step navto p (len - 7) 6 false miss_index
      ∙ scan-skip p b'N' b'n' avto (codes "dex.php/api/car/") (len - 7) (len - 23) 7 23
          (TextAt-front p 7 (codes "dex.php/api/car/") (codes "navto?" ++ s) at_dex) (ground arith)
          (omega arith) (omega arith) refl
      ∙ scan-hit p navto (len - 23) 23
          (at_word-Spells p navto 23 (codes "navto")
            (TextAt-front p 23 (codes "navto") (b'?' ∷ s) at_key) (ground arith) (omega arith))
          (omega arith)

-- The client once its request is read.
abbrev pub served : {D : Type 0} → Client D → Fields → Bytes → Client D
served c f rest = record c {
  iobuf = write (store c.iobuf 0 (request f rest)) (length (request f rest)) 0;
  serial = f.serial;
  md5 = f.md5;
  xbaidu = f.xbaidu;
  ybaidu = f.ybaidu;
  status = 1;
}

module _ {D : Type 0} (c : Client D) (f : Fields) (rest : Bytes) (h : IsProper f)
    (whole : 11 ≤ length f.xbaidu + length f.ybaidu + length rest) (room : length rest ≤ 3900) where
  len : ℕ
  len = length (request f rest)

  size : len ≡ 105 + length f.xbaidu + length f.ybaidu + length rest
  unfolding len
  size = omega (arith, length-query f rest h)

  -- The client once the bytes have arrived.
  filled : Client D
  filled = record c { iobuf = write (store c.iobuf 0 (request f rest)) len 0 }

  at_text : TextAt filled.iobuf 0 (request f rest)
  unfolding filled len
  at_text = TextAt-store c.iobuf (request f rest)

  parse_len-query :
      parse_len filled len
      ≡ ok (
        record filled {
          serial = f.serial;
          md5 = f.md5;
          xbaidu = f.xbaidu;
          ybaidu = f.ybaidu;
          status = 1;
        },
        true,
      )
  unfolding parse_len at_navto
  parse_len-query =
      let k = size in
      let kx = h.xbaidu_size in
      let ky = h.ybaidu_size in
      let hit : ltb 23 len ≡ true = ground arith in
      let enough : ltb len (23 + 6 + in_data_len) ≡ false = ground arith in
      rw
        (
          scan-navto filled.iobuf (query f rest) len at_text (omega arith) (omega arith),
          hit,
          enough,
        )
        (read_fields-query filled len 29 (omega arith) f h rest
          (TextAt-behind filled.iobuf 0 29 (codes "GET /index.php/api/car/navto?") (query f rest)
            at_text refl)
          (omega arith))

  size_request : (0 < length (request f rest)) × (length (request f rest) < iobuf_size)
  size_request =
      let k = length-query f rest h in
      let kx = h.xbaidu_size in let ky = h.ybaidu_size in (omega arith, omega arith)

  pub parse_bytes-query :
      c.offset ≡ 0
      → parse_bytes
          (record c { iobuf = store c.iobuf 0 (request f rest) })
          (length (request f rest))
        ≡ ok (served c f rest, true)
  unfolding parse_bytes filled len
  parse_bytes-query empty =
      let some_bytes : ltb 0 (length (request f rest)) ≡ true =
        lt→ltb 0 (length (request f rest)) size_request.0 in
      let same : length (request f rest) + c.offset ≡ length (request f rest) = omega arith in
      let fits : ltb (length (request f rest)) iobuf_size ≡ true =
        lt→ltb (length (request f rest)) iobuf_size size_request.1 in
      rw (some_bytes, same, fits) parse_len-query
