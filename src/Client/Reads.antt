-- ===== src/Client/Reads.antt =====
-- The fields of a request, read where its text stands in the buffer.
use correct_gps.Base.{
  ℕ, ◌+◌, ◌-◌, ◌≤◌, ◌≡◌, refl, subst, ◌∙◌, true, [], ◌∷◌, ◌++◌, Bytes, codes, ltb, ok, arith,
  length,
}
use correct_gps.Client.{
  Client, Keyword, iobuf_size, serial_len, md5_len, serial_word, md5_word, xbaidu_word, ybaidu_word,
  scan, read_text, read_coordinate, read_fields,
}
use correct_gps.Client.Query.{
  TextAt, Avoids, TextAt-front, TextAt-behind, at_word-Spells, scan-hit, scan-skip,
}
use correct_gps.Client.Fields.{
  Fields, IsProper, query, md5_part, x_part, y_part, s1, s2, s3, size_s1, size_s2, size_s3, avoid_m,
  avoid_x, avoid_y, split_serial, split_md5, split_x, read_text-at, read_coordinate-at,
  decimal-IsOpen, decimal-Lacks, digits-Lacks, hex-Lacks,
}

module _ {D : Type 0} (c : Client D) (len j : ℕ) (room : len + 33 ≤ iobuf_size) (f : Fields)
    (h : IsProper f) (rest : Bytes) (t : TextAt c.iobuf j (query f rest))
    (inside : j + 76 + length f.xbaidu + length f.ybaidu ≤ len) where
  abbrev j1 : ℕ
  j1 = j + 23

  abbrev j2 : ℕ
  j2 = j + 60

  abbrev j3 : ℕ
  j3 = j + 68 + length f.xbaidu

  at_s1 : TextAt c.iobuf j (s1 f h rest ++ md5_part f rest)
  at_s1 = subst (TextAt c.iobuf j) (split_serial f h rest) t

  at_md5 : TextAt c.iobuf j1 (md5_part f rest)
  at_md5 =
      TextAt-behind c.iobuf j j1 (s1 f h rest) (md5_part f rest) at_s1
        (omega (arith, size_s1 f h rest))

  at_s2 : TextAt c.iobuf j1 (s2 f h rest ++ x_part f rest)
  at_s2 = subst (TextAt c.iobuf j1) (split_md5 f h rest) at_md5

  at_x : TextAt c.iobuf j2 (x_part f rest)
  at_x =
      TextAt-behind c.iobuf j1 j2 (s2 f h rest) (x_part f rest) at_s2
        (omega (arith, size_s2 f h rest))

  at_s3 : TextAt c.iobuf j2 (s3 f h rest ++ y_part f rest)
  at_s3 = subst (TextAt c.iobuf j2) (split_x f h rest) at_x

  at_y : TextAt c.iobuf j3 (y_part f rest)
  at_y =
      TextAt-behind c.iobuf j2 j3 (s3 f h rest) (y_part f rest) at_s3
        (omega (arith, size_s3 f h rest))

  scan_serial : scan serial_word c.iobuf (len - j) j ≡ ok j
  scan_serial =
      scan-hit c.iobuf serial_word (len - j) j
        (at_word-Spells c.iobuf serial_word j (codes "serial")
          (TextAt-front c.iobuf j (codes "serial") (b'=' ∷ (f.serial ++ b'&' ∷ md5_part f rest)) t)
          (ground arith) (omega arith))
        (omega arith)

  skip_s1 :
      (a b : ℕ) (w : Keyword)
      → Avoids a b (s1 f h rest)
      → scan ((a, b) ∷ w) c.iobuf (len - j) j ≡ scan ((a, b) ∷ w) c.iobuf (len - j1) j1
  skip_s1 a b w v =
      scan-skip c.iobuf a b w (s1 f h rest) (len - j) (len - j1) j j1
        (TextAt-front c.iobuf j (s1 f h rest) (md5_part f rest) at_s1) v
        (omega (arith, size_s1 f h rest)) (omega (arith, size_s1 f h rest))
        (omega (arith, size_s1 f h rest))

  skip_s2 :
      (a b : ℕ) (w : Keyword)
      → Avoids a b (s2 f h rest)
      → scan ((a, b) ∷ w) c.iobuf (len - j1) j1 ≡ scan ((a, b) ∷ w) c.iobuf (len - j2) j2
  skip_s2 a b w v =
      scan-skip c.iobuf a b w (s2 f h rest) (len - j1) (len - j2) j1 j2
        (TextAt-front c.iobuf j1 (s2 f h rest) (x_part f rest) at_s2) v
        (omega (arith, size_s2 f h rest)) (omega (arith, size_s2 f h rest))
        (omega (arith, size_s2 f h rest))

  skip_s3 :
      (a b : ℕ) (w : Keyword)
      → Avoids a b (s3 f h rest)
      → scan ((a, b) ∷ w) c.iobuf (len - j2) j2 ≡ scan ((a, b) ∷ w) c.iobuf (len - j3) j3
  skip_s3 a b w v =
      scan-skip c.iobuf a b w (s3 f h rest) (len - j2) (len - j3) j2 j3
        (TextAt-front c.iobuf j2 (s3 f h rest) (y_part f rest) at_s3) v
        (omega (arith, size_s3 f h rest)) (omega (arith, size_s3 f h rest))
        (omega (arith, size_s3 f h rest))

  scan_md5 : scan md5_word c.iobuf (len - j) j ≡ ok j1
  scan_md5 =
      skip_s1 b'M' b'm' ((b'd', b'D') ∷ (b'5', b'5') ∷ []) (avoid_m f h rest)
      ∙ scan-hit c.iobuf md5_word (len - j1) j1
          (at_word-Spells c.iobuf md5_word j1 (codes "md5")
            (TextAt-front c.iobuf j1 (codes "md5") (b'=' ∷ (f.md5 ++ b'&' ∷ x_part f rest)) at_md5)
            (ground arith) (omega arith))
          (omega arith)

  abbrev baidu : Keyword
  baidu = (b'B', b'b') ∷ (b'a', b'A') ∷ (b'I', b'i') ∷ (b'D', b'd') ∷ (b'U', b'u') ∷ []

  scan_xbaidu : scan xbaidu_word c.iobuf (len - j) j ≡ ok j2
  scan_xbaidu =
      skip_s1 b'X' b'x' baidu (avoid_x f h rest).0
      ∙ skip_s2 b'X' b'x' baidu (avoid_x f h rest).1
      ∙ scan-hit c.iobuf xbaidu_word (len - j2) j2
          (at_word-Spells c.iobuf xbaidu_word j2 (codes "xbaidu")
            (TextAt-front c.iobuf j2 (codes "xbaidu") (b'=' ∷ (f.xbaidu ++ b'&' ∷ y_part f rest))
              at_x)
            (ground arith) (omega arith))
          (omega arith)

  scan_ybaidu : scan ybaidu_word c.iobuf (len - j) j ≡ ok j3
  scan_ybaidu =
      skip_s1 b'Y' b'y' baidu (avoid_y f h rest).0
      ∙ skip_s2 b'Y' b'y' baidu (avoid_y f h rest).1
      ∙ skip_s3 b'Y' b'y' baidu (avoid_y f h rest).2
      ∙ scan-hit c.iobuf ybaidu_word (len - j3) j3
          (at_word-Spells c.iobuf ybaidu_word j3 (codes "ybaidu")
            (TextAt-front c.iobuf j3 (codes "ybaidu") (b'=' ∷ (f.ybaidu ++ b' ' ∷ rest)) at_y)
            (ground arith) (omega arith))
          (omega arith)

  read_serial : read_text serial_word 7 serial_len c.iobuf len j ≡ ok f.serial
  read_serial =
      let k = h.serial_size in
      read_text-at c.iobuf len room serial_word 7 serial_len j j f.serial scan_serial (omega arith)
        (TextAt-front c.iobuf (j + 7) f.serial (b'&' ∷ md5_part f rest) (
          TextAt-behind c.iobuf j (j + 7) (codes "serial=") (f.serial ++ b'&' ∷ md5_part f rest) t
            refl))
        (digits-Lacks f.serial h.serial_digits) h.serial_size (omega arith)

  read_md5 : read_text md5_word 4 md5_len c.iobuf len j ≡ ok f.md5
  read_md5 =
      let k = h.md5_size in
      read_text-at c.iobuf len room md5_word 4 md5_len j j1 f.md5 scan_md5 (omega arith)
        (TextAt-front c.iobuf (j1 + 4) f.md5 (b'&' ∷ x_part f rest) (
          TextAt-behind c.iobuf j1 (j1 + 4) (codes "md5=") (f.md5 ++ b'&' ∷ x_part f rest) at_md5
            refl))
        (hex-Lacks f.md5 h.md5_hex) h.md5_size (omega arith)

  read_xbaidu : read_coordinate c.iobuf j2 c.xbaidu ≡ ok f.xbaidu
  read_xbaidu =
      read_coordinate-at c.iobuf len room j2 b'&' f.xbaidu (y_part f rest) c.xbaidu
        (TextAt-behind c.iobuf j2 (j2 + 7) (codes "xbaidu=") (f.xbaidu ++ b'&' ∷ y_part f rest) at_x
          refl)
        (decimal-IsOpen f.xbaidu h.xbaidu_decimal) (decimal-Lacks f.xbaidu h.xbaidu_decimal) refl
        h.xbaidu_size (omega arith)

  read_ybaidu : read_coordinate c.iobuf j3 c.ybaidu ≡ ok f.ybaidu
  read_ybaidu =
      read_coordinate-at c.iobuf len room j3 b' ' f.ybaidu rest c.ybaidu
        (TextAt-behind c.iobuf j3 (j3 + 7) (codes "ybaidu=") (f.ybaidu ++ b' ' ∷ rest) at_y refl)
        (decimal-IsOpen f.ybaidu h.ybaidu_decimal) (decimal-Lacks f.ybaidu h.ybaidu_decimal) refl
        h.ybaidu_size (omega arith)

  pub read_fields-query :
      read_fields c len j
      ≡ ok (
        record c {
          serial = f.serial;
          md5 = f.md5;
          xbaidu = f.xbaidu;
          ybaidu = f.ybaidu;
          status = 1;
        },
        true,
      )
  unfolding read_fields
  read_fields-query =
      let x_in : ltb j2 len ≡ true = ground arith in
      let y_in : ltb j3 len ≡ true = ground arith in
      rw (read_serial, read_md5, scan_xbaidu, x_in, read_xbaidu, scan_ybaidu, y_in, read_ybaidu)
        refl
