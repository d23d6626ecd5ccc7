-- ===== src/Tools/Coordinate.antt =====
-- `chang2uint` (src/tools.cpp): the text of a coordinate as the key of its cell of the map.
use correct_gps.Base.{
  ℕ, suc, ◌+◌, ◌-◌, ◌*◌, ◌≤◌, ◌<◌, ◌≡◌, refl, Bool, true, false, [], ◌∷◌, ◌++◌, Bytes, ltb, ◌==◌,
  if◌then◌else◌, Run, ok, fault, out_of_bounds, ◌>>=◌, pos, to_u32, replicate, length, arith, ◌≢◌,
  ◌⊎◌, inl, length-append, ◌^◌, ◌%◌, ◌∙◌, ap, sym,
}
use mathlib.Core.List.{append-nil, append_assoc}
use correct_gps.Tools.Chars.{
  is_digit, read_digits, atoi_cells, digits_value, IsDigits, atoi_cells-digits,
}

-- sizeof (ui)
abbrev pub ui_size : ℕ
ui_size = 10

-- The loop over the text: the characters in `ui`, whether a dot was seen, and the counter j. There
-- is no test of the index of `ui`.
unfoldable pub chang_loop : Bytes → Bytes → Bool → ℕ → Run Bytes
chang_loop [] ui dot j = ok ui
chang_loop (c ∷ s) ui dot j =
    let at_dot = chang_loop s ui true 1 in
    let at_char = chang_loop s (ui ++ c ∷ []) dot (if dot then j + 1 else j) in
    if ltb j 3
    then (if c == b'.'
        then at_dot
        else if ltb (length ui) ui_size
        then at_char
        else fault out_of_bounds)
    else ok ui

unfoldable pub chang2uint : Bytes → Run ℕ
chang2uint s = do
  ui ← chang_loop s [] false 0
  n ← atoi_cells (ui ++ replicate (ui_size - length ui) 0)
  ok (to_u32 n)

chang_loop-digits :
    (ds rest ui : Bytes)
    → IsDigits ds
    → length ui + length ds ≤ ui_size
    → chang_loop (ds ++ rest) ui false 0 ≡ chang_loop rest (ui ++ ds) false 0
unfolding chang_loop
chang_loop-digits [] rest ui all fits = ap (λ u. chang_loop rest u false 0) (sym (append-nil ui))
chang_loop-digits (d ∷ ds) rest ui (h, all) fits = ground (
  arith,
  chang_loop-digits ds rest (ui ++ d ∷ []) all (omega (arith, length-append ui (d ∷ []))),
  append_assoc ui (d ∷ []) ds,
)

digit-le : (c : ℕ) → is_digit c ≡ true → c ≤ b'9'
digit-le c h = ground arith

chang_loop-stop : (s ui : Bytes) (dot : Bool) → chang_loop s ui dot 3 ≡ ok ui
unfolding chang_loop
chang_loop-stop [] ui dot = refl
chang_loop-stop (c ∷ s) ui dot = refl

chang_loop-char :
    (c : ℕ) (s ui : Bytes) (j : ℕ)
    → is_digit c ≡ true
    → length ui < ui_size
    → j < 3
    → chang_loop (c ∷ s) ui true j ≡ chang_loop s (ui ++ c ∷ []) true (j + 1)
unfolding chang_loop
chang_loop-char c s ui j h room more = ground arith

-- The text of `ui` with its zero cells, read as a number.
ui_value :
    (u : ℕ) (ui : Bytes)
    → IsDigits (u ∷ ui)
    → length ui < 9
    → atoi_cells ((u ∷ ui) ++ replicate (ui_size - length (u ∷ ui)) 0)
      ≡ ok (pos (digits_value 0 (u ∷ ui)))
ui_value u ui all short =
    let e : ui_size - length (u ∷ ui) ≡ suc (8 - length ui) = omega arith in
    rw e (atoi_cells-digits u ui 0 (replicate (8 - length ui) 0) all refl)

digits_value-append :
    (acc : ℕ) (ds es : Bytes) → digits_value acc (ds ++ es) ≡ digits_value (digits_value acc ds) es
digits_value-append acc [] es = refl
digits_value-append acc (d ∷ ds) es = digits_value-append (acc * 10 + (d - b'0')) ds es

IsDigits-append : (ds es : Bytes) → IsDigits ds → IsDigits es → IsDigits (ds ++ es)
IsDigits-append [] es hd he = he
IsDigits-append (d ∷ ds) es hd he = (hd.0, IsDigits-append ds es hd.1 he)

module _ (d : ℕ) (ds : Bytes) (whole : IsDigits (d ∷ ds)) (short : length ds ≤ 6)
    (small : digits_value 0 (d ∷ ds) < 10000) where
  finish :
      (es s : Bytes)
      → IsDigits es
      → length es ≤ 2
      → chang_loop s [] false 0 ≡ ok ((d ∷ ds) ++ es)
      → chang2uint s ≡ ok (digits_value (digits_value 0 (d ∷ ds)) es % 2 ^ 32)
  unfolding chang2uint
  finish es s frac few e =
      rw
        (
          e,
          ui_value d (ds ++ es) (IsDigits-append (d ∷ ds) es whole frac)
              (omega (arith, length-append ds es)),
          digits_value-append 0 (d ∷ ds) es,
        )
        refl

  at_dot : (s : Bytes) → chang_loop (b'.' ∷ s) (d ∷ ds) false 0 ≡ chang_loop s (d ∷ ds) true 1
  unfolding chang_loop
  at_dot s = refl

  at_end : (ui : Bytes) → chang_loop [] ui true 2 ≡ ok ui
  unfolding chang_loop
  at_end ui = refl

  -- A coordinate with a whole part below 10000, of at most seven digits, and two decimals or more
  -- has a hundred times its value, cut to a whole number, for its key.
  pub chang2uint_two_decimals :
      (a b : ℕ) (rest : Bytes)
      → is_digit a ≡ true
      → is_digit b ≡ true
      → chang2uint ((d ∷ ds) ++ b'.' ∷ a ∷ b ∷ rest)
        ≡ ok (digits_value 0 (d ∷ ds) * 100 + (a - b'0') * 10 + (b - b'0'))
  chang2uint_two_decimals a b rest ha hb =
      finish (a ∷ b ∷ []) _ (ha, (hb, tt)) (omega arith)
        (ground (
          arith,
          chang_loop-digits (d ∷ ds) (b'.' ∷ a ∷ b ∷ rest) [] whole,
          at_dot (a ∷ b ∷ rest),
          chang_loop-char a (b ∷ rest) (d ∷ ds) 1 ha,
          chang_loop-char b rest (d ∷ (ds ++ a ∷ [])) 2 hb,
          chang_loop-stop rest (d ∷ ((ds ++ a ∷ []) ++ b ∷ [])) true,
          append_assoc ds (a ∷ []) (b ∷ []),
          length-append ds (a ∷ []),
        ))
      ∙ ap ok (omega (arith, digit-le a ha, digit-le b hb))

  -- With one decimal the key is only ten times the value.
  pub chang2uint_one_decimal :
      (a : ℕ)
      → is_digit a ≡ true
      → chang2uint ((d ∷ ds) ++ b'.' ∷ a ∷ []) ≡ ok (digits_value 0 (d ∷ ds) * 10 + (a - b'0'))
  chang2uint_one_decimal a ha =
      finish (a ∷ []) _ (ha, tt) (omega arith)
        (ground (
          arith,
          chang_loop-digits (d ∷ ds) (b'.' ∷ a ∷ []) [] whole,
          at_dot (a ∷ []),
          chang_loop-char a [] (d ∷ ds) 1 ha,
          at_end (d ∷ (ds ++ a ∷ [])),
        ))
      ∙ ap ok (omega (arith, digit-le a ha))

  -- One coordinate above zero has two keys: for a whole part below 10000, of at most seven digits,
  -- a zero behind the only decimal changes the key.
  chang2uint_trailing_zero :
      (a : ℕ)
      → is_digit a ≡ true
      → 0 < digits_value 0 (d ∷ ds)
      → chang2uint ((d ∷ ds) ++ b'.' ∷ a ∷ []) ≢ chang2uint ((d ∷ ds) ++ b'.' ∷ a ∷ b'0' ∷ [])
  chang2uint_trailing_zero a ha positive same =
      ground (arith, chang2uint_one_decimal a ha, chang2uint_two_decimals a b'0' [] ha refl)

-- Once `ui` is full, the loop ends with no more in it, or writes behind its end.
chang_loop-full :
    (s ui : Bytes) (dot : Bool) (j : ℕ)
    → length ui ≡ ui_size
    → (chang_loop s ui dot j ≡ ok ui) ⊎ (chang_loop s ui dot j ≡ fault out_of_bounds)
unfolding chang_loop
chang_loop-full [] ui dot j full = inl refl
chang_loop-full (c ∷ s) ui dot j full = ground (arith, chang_loop-full s ui true 1 full)

read_digits-runs_out :
    (acc : ℕ) (ds : Bytes) → IsDigits ds → read_digits acc ds ≡ fault out_of_bounds
unfolding read_digits
read_digits-runs_out acc [] all = refl
read_digits-runs_out acc (d ∷ ds) (h, all) =
    rw h (read_digits-runs_out (acc * 10 + (d - b'0')) ds all)

atoi_cells-runs_out : (ds : Bytes) → IsDigits ds → atoi_cells ds ≡ fault out_of_bounds
unfolding atoi_cells
atoi_cells-runs_out [] all = refl
atoi_cells-runs_out (d ∷ ds) all = ground (arith, read_digits-runs_out 0 (d ∷ ds) all)

full_value :
    (ui : Bytes)
    → IsDigits ui
    → length ui ≡ ui_size
    → atoi_cells (ui ++ replicate (ui_size - length ui) 0) ≡ fault out_of_bounds
full_value ui all full =
    let e : ui_size - length ui ≡ 0 = omega arith in
    rw (e, append-nil ui) (atoi_cells-runs_out ui all)

-- A text that starts with ten digits is beyond the buffer: `ui` has no terminating NUL, and what
-- follows is written behind it.
chang2uint-out_of_bounds :
    (ds rest : Bytes)
    → IsDigits ds
    → length ds ≡ ui_size
    → chang2uint (ds ++ rest) ≡ fault out_of_bounds
unfolding chang2uint
chang2uint-out_of_bounds ds rest all full =
    rw (chang_loop-digits ds rest [] all (omega arith))
      (ground (arith, chang_loop-full rest ds false 0 full, full_value ds all full))
