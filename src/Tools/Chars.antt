-- ===== src/Tools/Chars.antt =====
-- What tools.cpp and its callers use of the C library's character and number functions. A C string
-- is the list of its bytes before the terminating NUL.
use correct_gps.Base.{
  ℕ, ◌+◌, ◌-◌, ◌*◌, ◌≡◌, Bool, true, false, ◌&&◌, ◌||◌, [], ◌∷◌, ◌++◌, Bytes, leb, ◌==◌,
  if◌then◌else◌, Run, ok, fault, out_of_bounds, ◌>>=◌, ℤ, pos, sub_ℕ, All, arith,
}

-- isspace in the C locale
abbrev pub is_space : ℕ → Bool
is_space c = c == b' ' || (leb 9 c && leb c 13)

abbrev pub is_digit : ℕ → Bool
is_digit c = leb b'0' c && leb c b'9'

-- The string that a buffer holds: its cells before the first NUL.
unfoldable pub c_str : Bytes → Bytes
c_str [] = []
c_str (c ∷ cs) = let rest = c_str cs in if c == 0 then [] else c ∷ rest

-- The digits of atoi, on the cells of a buffer: to read on behind the last cell is a fault.
unfoldable pub read_digits : ℕ → Bytes → Run ℕ
read_digits acc [] = fault out_of_bounds
read_digits acc (c ∷ cs) =
    let rest = read_digits (acc * 10 + (c - b'0')) cs in if is_digit c then rest else ok acc

-- The sign, behind the leading space.
pub read_sign : Bytes → Run ℤ
unfolding read_digits
read_sign [] = fault out_of_bounds
read_sign (c ∷ cs) =
    if c == b'-'
    then (do n ← read_digits 0 cs; ok (sub_ℕ 0 n))
    else if c == b'+'
    then (do n ← read_digits 0 cs; ok (pos n))
    else (do n ← read_digits 0 (c ∷ cs); ok (pos n))

unfoldable pub atoi_cells : Bytes → Run ℤ
unfolding read_sign
atoi_cells [] = fault out_of_bounds
atoi_cells (c ∷ cs) = let rest = atoi_cells cs in if is_space c then rest else read_sign (c ∷ cs)

-- The number that decimal digits stand for, most significant first, behind `acc`.
abbrev pub digits_value : ℕ → Bytes → ℕ
digits_value acc [] = acc
digits_value acc (d ∷ ds) = digits_value (acc * 10 + (d - b'0')) ds

abbrev pub IsDigits : Bytes → Type 0
IsDigits = All (λ d. is_digit d ≡ true)

pub read_digits-append :
    (acc : ℕ) (ds : Bytes) (c : ℕ) (rest : Bytes)
    → IsDigits ds
    → is_digit c ≡ false
    → read_digits acc (ds ++ c ∷ rest) ≡ ok (digits_value acc ds)
unfolding read_digits
read_digits-append acc [] c rest all stop = rw stop
read_digits-append acc (d ∷ ds) c rest (h, all) stop =
    rw h (read_digits-append (acc * 10 + (d - b'0')) ds c rest all stop)

-- atoi gives the value of the digits that it starts with.
pub atoi_cells-digits :
    (d : ℕ) (ds : Bytes) (c : ℕ) (rest : Bytes)
    → IsDigits (d ∷ ds)
    → is_digit c ≡ false
    → atoi_cells (d ∷ (ds ++ c ∷ rest)) ≡ ok (pos (digits_value 0 (d ∷ ds)))
unfolding atoi_cells
atoi_cells-digits d ds c rest all stop =
    ground (arith, read_digits-append 0 (d ∷ ds) c rest all stop)
