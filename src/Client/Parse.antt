-- ===== src/Client/Parse.antt =====
-- `parse` stays inside the buffers, and keeps the client's members within their sizes.
use correct_gps.Base.{
  ◌≢◌, disjoint, ℕ, zero, suc, ◌+◌, ◌-◌, ◌≤◌, ◌<◌, ◌≡◌, refl, Bool, true, false, ◌||◌, [], ◌∷◌,
  Bytes, Cells, slice, write, ltb, ◌==◌, Ensures, Ensures-map, ok, fault, inl, inr, arith,
  Bool-cases, length, length-slice, Within, Within-bind, Ensures-Within, ◌>>=◌, aborted,
  if◌then◌else◌,
}
use correct_gps.Tools.Chars.{c_str}
use correct_gps.Client.{
  Client, Keyword, iobuf_size, in_data_len, serial_len, md5_len, gps_len, navto, serial_word,
  md5_word, xbaidu_word, ybaidu_word, scan, scan_dot, copy_out, read_text, read_coordinate,
  read_fields, at_navto, parse_len, parse_bytes, keep_rest,
}
use correct_gps.Client.Scan.{IsWord, Scans, scan-Scans}

-- The members are within their sizes, the text that waits in the buffer is short of a request, and
-- the buffer has no '%' and is blank at its end.
pub record IsBounded {D : Type 0} (c : Client D) : Type 0 where
  pub waiting : c.offset < 6 + in_data_len
  pub serial_fits : length c.serial ≤ serial_len
  pub md5_fits : length c.md5 ≤ md5_len
  pub xbaidu_fits : length c.xbaidu < gps_len
  pub ybaidu_fits : length c.ybaidu < gps_len
  pub plain : (k : ℕ) → c.iobuf k ≢ b'%'
  pub blank_end : (k : ℕ) → 4064 ≤ k → c.iobuf k ≡ 0

length-c_str-le : (s : Bytes) → length (c_str s) ≤ length s
unfolding c_str
length-c_str-le [] = omega arith
length-c_str-le (c ∷ s) = ground (arith, length-c_str-le s)

module _ (p : Cells ℕ) where
  pub scan_dot-stop :
      (n dot : ℕ)
      → dot < iobuf_size
      → (p dot == b' ' || p dot == b'&') ≡ true
      → scan_dot p (suc n) dot ≡ ok dot
  unfolding scan_dot
  scan_dot-stop n dot h e = ground arith

  pub scan_dot-on :
      (n dot : ℕ)
      → dot < iobuf_size
      → (p dot == b' ' || p dot == b'&') ≡ false
      → scan_dot p (suc n) dot ≡ scan_dot p n (dot + 1)
  unfolding scan_dot
  scan_dot-on n dot h e = ground arith

  scan_dot-lem :
      (n dot : ℕ)
      → dot + n < iobuf_size
      → Ensures (scan_dot p n dot) (λ r. (dot ≤ r) × (r ≤ dot + n))
  scan_dot-lem zero dot h = unfold scan_dot in ground arith
  scan_dot-lem (suc n) dot h = elim (Bool-cases (p dot == b' ' || p dot == b'&')) [
    | inl stop ↦ rw (scan_dot-stop n dot (omega arith) stop) (omega arith)
    | inr on ↦ rw (scan_dot-on n dot (omega arith) on) (
        Ensures-map _ _ (scan_dot p n (dot + 1)) (λ r q. omega arith)
          (scan_dot-lem n (dot + 1) (omega arith)))
  ]

  copied :
      (i n : ℕ)
      → i + n ≤ iobuf_size
      → Ensures (copy_out p i n >>= λ t. ok (c_str t)) (λ t. length t ≤ n)
  unfolding copy_out
  copied i n h = ground (arith, length-c_str-le (slice p i n), length-slice p i n)

module _ (p : Cells ℕ) (len : ℕ) (nul : p len ≡ 0) (room : len + 33 ≤ iobuf_size) where
  found :
      (w : Keyword) (j : ℕ)
      → IsWord w
      → j ≤ len
      → Within (Scans p len w j (len - j)) (scan w p (len - j) j)
  found w j letters below =
      Ensures-Within _ (scan w p (len - j) j)
        (scan-Scans p len nul (omega arith) w (len - j) j letters (omega arith))

  read_text-Within :
      (w : Keyword) (skip n j : ℕ)
      → IsWord w
      → skip ≤ length w + 1
      → n ≤ 32
      → j ≤ len
      → Within (λ t. length t ≤ n) (read_text w skip n p len j)
  unfolding read_text
  read_text-Within w skip n j letters small few below =
      Within-bind _ _ (scan w p (len - j) j) _ (found w j letters below) λ x s.
        elim (Bool-cases (ltb x len)) [
          | inl hit ↦ rw hit (
              let h = s.hit (ground arith) in
              Ensures-Within _ (copy_out p (x + skip) n >>= λ t. ok (c_str t))
                (copied p (x + skip) n (omega arith)))
          | inr miss ↦ rw miss tt
        ]

  read_coordinate-Within :
      (x : ℕ) (old : Bytes)
      → x + 6 ≤ len
      → length old < gps_len
      → Within (λ t. length t < gps_len) (read_coordinate p x old)
  unfolding read_coordinate
  read_coordinate-Within x old near fits =
      Within-bind _ _ (scan_dot p gps_len (x + 7)) _
        (Ensures-Within _ (scan_dot p gps_len (x + 7))
          (scan_dot-lem p gps_len (x + 7) (omega arith)))
        λ dot d. elim (Bool-cases (ltb dot (x + 7 + gps_len))) [
          | inl short ↦ rw short (
              Ensures-Within _ (copy_out p (x + 7) (dot - (x + 7)) >>= λ t. ok (c_str t)) (
                Ensures-map _ _ (copy_out p (x + 7) (dot - (x + 7)) >>= λ t. ok (c_str t))
                  (λ t h. ground arith) (copied p (x + 7) (dot - (x + 7)) (ground arith))))
          | inr long ↦ rw long fits
        ]

-- What `parse` leaves of a client: bounded members, the same descriptor, and a request that is
-- complete exactly if the workers are notified.
pub record ParsedFrom {D : Type 0} (fd status : ℕ) (r : Client D × Bool) : Type 0 where
  pub bounded : IsBounded r.0
  pub same_fd : r.0.fd ≡ fd
  pub notified : r.1 ≡ true → r.0.status ≡ 1
  pub silent : r.1 ≡ false → r.0.status ≡ status

module _ {D : Type 0} (c : Client D) (len : ℕ) (nul : c.iobuf len ≡ 0)
    (room : len + 33 ≤ iobuf_size) (b : IsBounded c) where
  read_fields-Within : (j : ℕ) → j ≤ len → Within (ParsedFrom c.fd c.status) (read_fields c len j)
  unfolding read_fields
  read_fields-Within j below =
      Within-bind _ _ (read_text serial_word 7 serial_len c.iobuf len j) _
        (read_text-Within c.iobuf len nul room serial_word 7 serial_len j letters_serial
          (omega arith) (omega arith) below)
        λ serial hs.
          Within-bind _ _ (read_text md5_word 4 md5_len c.iobuf len j) _
            (read_text-Within c.iobuf len nul room md5_word 4 md5_len j letters_md5 (omega arith)
              (omega arith) below)
            λ md5 hm.
              Within-bind _ _ (scan xbaidu_word c.iobuf (len - j) j) _
                (found c.iobuf len nul room xbaidu_word j letters_x below)
                λ x sx.
                  Within-bind (λ t. length t < gps_len) _
                    (if ltb x len then read_coordinate c.iobuf x c.xbaidu else fault aborted) _
                    (elim (Bool-cases (ltb x len)) [
                      | inl hit ↦ rw hit (
                          let h = sx.hit (ground arith) in
                          read_coordinate-Within c.iobuf len nul room x c.xbaidu h.1 b.xbaidu_fits)
                      | inr miss ↦ rw miss tt
                    ])
                    λ xbaidu hx.
                      Within-bind _ _ (scan ybaidu_word c.iobuf (len - j) j) _
                        (found c.iobuf len nul room ybaidu_word j letters_y below)
                        λ y sy.
                          Within-bind (λ t. length t < gps_len) _
                            (if ltb y len then read_coordinate c.iobuf y c.ybaidu else ok c.ybaidu)
                            _
                            (elim (Bool-cases (ltb y len)) [
                              | inl hit ↦ rw hit (
                                  let h = sy.hit (ground arith) in
                                  read_coordinate-Within c.iobuf len nul room y c.ybaidu h.1
                                    b.ybaidu_fits)
                              | inr miss ↦ rw miss b.ybaidu_fits
                            ])
                            λ ybaidu hy. record {
                              bounded = record {
                                waiting = b.waiting;
                                serial_fits = hs;
                                md5_fits = hm;
                                xbaidu_fits = hx;
                                ybaidu_fits = hy;
                                plain = b.plain;
                                blank_end = b.blank_end;
                              };
                              same_fd = refl;
                              notified = λ e. refl;
                              silent = λ e. cc;
                            }
    where
      letters_serial : IsWord serial_word
      letters_serial = omega arith

      letters_md5 : IsWord md5_word
      letters_md5 = omega arith

      letters_x : IsWord xbaidu_word
      letters_x = omega arith

      letters_y : IsWord ybaidu_word
      letters_y = omega arith

  keep_rest-Within :
      (i : ℕ)
      → i < len
      → len < i + 6 + in_data_len
      → Within (ParsedFrom c.fd c.status) (keep_rest c len i >>= λ r. ok (r, false))
  unfolding keep_rest
  keep_rest-Within i below short = elim (Bool-cases (disjoint 0 i (len - i))) [
    | inl apart ↦ rw apart (record {
      bounded = record {
        waiting = ground arith;
        serial_fits = b.serial_fits;
        md5_fits = b.md5_fits;
        xbaidu_fits = b.xbaidu_fits;
        ybaidu_fits = b.ybaidu_fits;
        plain = λ k. ground (arith, b.plain k, b.plain (i + (k - 0)));
        blank_end = λ k h. ground (arith, b.blank_end k h);
      };
      same_fd = refl;
      notified = λ e. cc;
      silent = λ e. refl;
    })
    | inr meet ↦ rw meet tt
  ]

  at_navto-Within : (i : ℕ) → i < len → Within (ParsedFrom c.fd c.status) (at_navto c len i)
  unfolding at_navto
  at_navto-Within i below = elim (Bool-cases (ltb len (i + 6 + in_data_len))) [
    | inl short ↦ rw short (keep_rest-Within i below (ground arith))
    | inr whole ↦ rw whole (read_fields-Within (i + 6) (ground arith))
  ]

  parse_len-Within : Within (ParsedFrom c.fd c.status) (parse_len c len)
  unfolding parse_len
  parse_len-Within =
      Within-bind (Scans c.iobuf len navto 0 len) _ (scan navto c.iobuf len 0) _
        (Ensures-Within _ (scan navto c.iobuf len 0)
          (scan-Scans c.iobuf len nul (omega arith) navto len 0 (omega arith) (omega arith)))
        λ i s. elim (Bool-cases (ltb i len)) [
          | inl hit ↦ rw hit (at_navto-Within i (ground arith))
          | inr miss ↦
              rw miss
                (record { bounded = b; same_fd = refl; notified = λ e. cc; silent = λ e. refl })
        ]

-- For a client within its sizes and a total of bytes that leaves 33 bytes of the buffer free,
-- `parse_bytes` reads and writes inside its buffers. It stops at a failed assert or at a copy of
-- regions that overlap, or leaves the client within its sizes, short of a request again, and notifies
-- only for a complete request.
pub parse_bytes-Within :
    {D : Type 0} (c : Client D) (ulen : ℕ)
    → IsBounded c
    → ulen + c.offset + 33 ≤ iobuf_size
    → Within (ParsedFrom c.fd c.status) (parse_bytes c ulen)
unfolding parse_bytes
parse_bytes-Within c ulen b room = elim (Bool-cases (ltb 0 ulen)) [
  | inl some_bytes ↦
      let fits : ltb (ulen + c.offset) iobuf_size ≡ true = ground arith in
      rw (some_bytes, fits)
        (parse_len-Within (record c { iobuf = write c.iobuf (ulen + c.offset) 0 }) (ulen + c.offset)
          (ground arith) room
          (record {
            waiting = b.waiting;
            serial_fits = b.serial_fits;
            md5_fits = b.md5_fits;
            xbaidu_fits = b.xbaidu_fits;
            ybaidu_fits = b.ybaidu_fits;
            plain = λ k. ground (arith, b.plain k);
            blank_end = λ k h. ground (arith, b.blank_end k h);
          }))
  | inr none_here ↦
      rw none_here (record { bounded = b; same_fd = refl; notified = λ e. cc; silent = λ e. refl })
]
