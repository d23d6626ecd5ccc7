-- ===== src/Client/Fields.antt =====
-- The text of a request, as a phone writes it, and what its parts are free of.
use correct_gps.Base.{
  ℕ, ◌+◌, ◌-◌, ◌≤◌, ◌<◌, ◌≡◌, refl, sym, ap, ◌∙◌, true, false, ◌||◌, ◌&&◌, [], ◌∷◌, ◌++◌, Bytes,
  Cells, codes, ◌==◌, ltb, leb, ok, ◌>>=◌, arith, All, All-append, All-map, length, length-append,
}
use mathlib.Core.List.{append_assoc}
use correct_gps.Tools.Chars.{c_str, is_digit, IsDigits}
use correct_gps.Tools.Items.Lines.{Lacks}
use correct_gps.Client.{
  Keyword, iobuf_size, gps_len, serial_len, md5_len, copy_out, scan, read_text, read_coordinate,
}
use correct_gps.Client.Query.{TextAt, Avoids, TextAt-front, copied_text, IsOpen, scan_dot-text}

-- The characters of an MD5 sum in hexadecimal, and of a coordinate.
abbrev pub IsHex : Bytes → Type 0
IsHex = All (λ c. (is_digit c || (leb b'a' c && leb c b'f')) ≡ true)

abbrev pub IsDecimal : Bytes → Type 0
IsDecimal = All (λ c. (is_digit c || c == b'.') ≡ true)

pub record Fields : Type 0 where
  pub serial : Bytes
  pub md5 : Bytes
  pub xbaidu : Bytes
  pub ybaidu : Bytes

-- The fields have the lengths that the parser expects.
pub record IsProper (f : Fields) : Type 0 where
  pub serial_digits : IsDigits f.serial
  pub serial_size : length f.serial ≡ serial_len
  pub md5_hex : IsHex f.md5
  pub md5_size : length f.md5 ≡ md5_len
  pub xbaidu_decimal : IsDecimal f.xbaidu
  pub xbaidu_size : length f.xbaidu < gps_len
  pub ybaidu_decimal : IsDecimal f.ybaidu
  pub ybaidu_size : length f.ybaidu < gps_len

-- What stands behind "navto?".
abbrev pub y_part : Fields → Bytes → Bytes
y_part f rest = codes "ybaidu=" ++ (f.ybaidu ++ b' ' ∷ rest)

abbrev pub x_part : Fields → Bytes → Bytes
x_part f rest = codes "xbaidu=" ++ (f.xbaidu ++ b'&' ∷ y_part f rest)

abbrev pub md5_part : Fields → Bytes → Bytes
md5_part f rest = codes "md5=" ++ (f.md5 ++ b'&' ∷ x_part f rest)

abbrev pub query : Fields → Bytes → Bytes
query f rest = codes "serial=" ++ (f.serial ++ b'&' ∷ md5_part f rest)

module _ (p : Cells ℕ) (len : ℕ) (room : len + 33 ≤ iobuf_size) where
  -- A field of fixed length, at its keyword.
  pub read_text-at :
      (w : Keyword) (skip n j x : ℕ) (s : Bytes)
      → scan w p (len - j) j ≡ ok x
      → x < len
      → TextAt p (x + skip) s
      → Lacks 0 s
      → length s ≡ n
      → x + skip + length s ≤ iobuf_size
      → read_text w skip n p len j ≡ ok s
  unfolding read_text
  read_text-at w skip n j x s hit inside t l size below =
      let yes_inside : ltb x len ≡ true = ground arith in
      rw (hit, yes_inside)
        (ap (λ k. copy_out p (x + skip) k >>= λ t. ok (c_str t)) (sym size)
          ∙ copied_text p (x + skip) s t l below)

  -- A coordinate, at its keyword.
  pub read_coordinate-at :
      (x c : ℕ) (s rest old : Bytes)
      → TextAt p (x + 7) (s ++ c ∷ rest)
      → IsOpen s
      → Lacks 0 s
      → (c == b' ' || c == b'&') ≡ true
      → length s < gps_len
      → x + 7 + length s < iobuf_size
      → read_coordinate p x old ≡ ok s
  unfolding read_coordinate
  read_coordinate-at x c s rest old t opens l stop few below =
      let short : ltb (x + 7 + length s) (x + 7 + gps_len) ≡ true = ground arith in
      let size : x + 7 + length s - (x + 7) ≡ length s = omega arith in
      rw (scan_dot-text p s rest c gps_len (x + 7) t opens stop few below, short, size)
        (copied_text p (x + 7) s (TextAt-front p (x + 7) s (c ∷ rest) t) l (omega arith))

avoid_digits : (a b : ℕ) (s : Bytes) → b'9' < a → b'9' < b → IsDigits s → Avoids a b s
avoid_digits a b s ha hb = All-map _ _ s (λ c h. ground arith)

avoid_decimal : (a b : ℕ) (s : Bytes) → b'9' < a → b'9' < b → IsDecimal s → Avoids a b s
avoid_decimal a b s ha hb = All-map _ _ s (λ c h. ground arith)

avoid_hex : (a b : ℕ) (s : Bytes) → b'9' < a → a < b'a' → b'f' < b → IsHex s → Avoids a b s
avoid_hex a b s ha ga hb = All-map _ _ s (λ c h. ground arith)

pub decimal-IsOpen : (s : Bytes) → IsDecimal s → IsOpen s
decimal-IsOpen s = All-map _ _ s (λ c h. ground arith)

pub decimal-Lacks : (s : Bytes) → IsDecimal s → Lacks 0 s
decimal-Lacks s = All-map _ _ s (λ c h. ground arith)

pub digits-Lacks : (s : Bytes) → IsDigits s → Lacks 0 s
digits-Lacks s = All-map _ _ s (λ c h. ground arith)

pub hex-Lacks : (s : Bytes) → IsHex s → Lacks 0 s
hex-Lacks s = All-map _ _ s (λ c h. ground arith)

-- A keyword with '=', a value and '&', which a search passes over.
abbrev item : Bytes → Bytes → Bytes
item w s = w ++ (s ++ b'&' ∷ [])

Avoids-item :
    (a b : ℕ) (w s : Bytes)
    → Avoids a b w
    → Avoids a b s
    → (b'&' == a || b'&' == b) ≡ false
    → Avoids a b (item w s)
Avoids-item a b w s hw hs h =
    All-append _ w (s ++ b'&' ∷ []) hw (All-append _ s (b'&' ∷ []) hs (h, tt))

module _ (f : Fields) (h : IsProper f) (rest : Bytes) where
  unfoldable pub s1 : Bytes
  s1 = item (codes "serial=") f.serial

  unfoldable pub s2 : Bytes
  s2 = item (codes "md5=") f.md5

  unfoldable pub s3 : Bytes
  s3 = item (codes "xbaidu=") f.xbaidu

  pub size_s1 : length s1 ≡ 23
  unfolding s1
  size_s1 = let k = h.serial_size in omega (arith, length-append f.serial (b'&' ∷ []))

  pub size_s2 : length s2 ≡ 37
  unfolding s2
  size_s2 = let k = h.md5_size in omega (arith, length-append f.md5 (b'&' ∷ []))

  pub size_s3 : length s3 ≡ length f.xbaidu + 8
  unfolding s3
  size_s3 = omega (arith, length-append f.xbaidu (b'&' ∷ []))

  pub avoid_m : Avoids b'M' b'm' s1
  unfolding s1
  avoid_m =
      Avoids-item b'M' b'm' (codes "serial=") f.serial (ground arith)
        (avoid_digits b'M' b'm' f.serial (omega arith) (omega arith) h.serial_digits) refl

  pub avoid_x : Avoids b'X' b'x' s1 × Avoids b'X' b'x' s2
  unfolding s1 s2
  avoid_x = (
    Avoids-item b'X' b'x' (codes "serial=") f.serial (ground arith)
        (avoid_digits b'X' b'x' f.serial (omega arith) (omega arith) h.serial_digits) refl,
    Avoids-item b'X' b'x' (codes "md5=") f.md5 (ground arith)
        (avoid_hex b'X' b'x' f.md5 (omega arith) (omega arith) (omega arith) h.md5_hex) refl,
  )

  pub avoid_y : Avoids b'Y' b'y' s1 × Avoids b'Y' b'y' s2 × Avoids b'Y' b'y' s3
  unfolding s1 s2 s3
  avoid_y = (
    Avoids-item b'Y' b'y' (codes "serial=") f.serial (ground arith)
        (avoid_digits b'Y' b'y' f.serial (omega arith) (omega arith) h.serial_digits) refl,
    Avoids-item b'Y' b'y' (codes "md5=") f.md5 (ground arith)
        (avoid_hex b'Y' b'y' f.md5 (omega arith) (omega arith) (omega arith) h.md5_hex) refl,
    Avoids-item b'Y' b'y' (codes "xbaidu=") f.xbaidu (ground arith)
        (avoid_decimal b'Y' b'y' f.xbaidu (omega arith) (omega arith) h.xbaidu_decimal) refl,
  )

  pub split_serial : query f rest ≡ s1 ++ md5_part f rest
  unfolding s1
  split_serial =
      ap (λ k. codes "serial=" ++ k) (sym (append_assoc f.serial (b'&' ∷ []) (md5_part f rest)))

  pub split_md5 : md5_part f rest ≡ s2 ++ x_part f rest
  unfolding s2
  split_md5 = ap (λ k. codes "md5=" ++ k) (sym (append_assoc f.md5 (b'&' ∷ []) (x_part f rest)))

  pub split_x : x_part f rest ≡ s3 ++ y_part f rest
  unfolding s3
  split_x = ap (λ k. codes "xbaidu=" ++ k) (sym (append_assoc f.xbaidu (b'&' ∷ []) (y_part f rest)))
