-- ===== src/Tools/Unicode.antt =====
-- The UTF-8 conversions of src/tools.cpp. A mask of low bits is a remainder, a shift a quotient or
-- a product, and an `|` of disjoint bits a sum.
use mathlib.Core.List.{append_assoc}
use correct_gps.Base.{
  ℕ, zero, suc, ◌+◌, ◌-◌, ◌*◌, ◌/◌, ◌%◌, ◌≤◌, ◌<◌, ◌≡◌, refl, List, [], ◌∷◌, ◌++◌, Bytes, true,
  false, length, All, arith, ◌==◌, leb, ltb, if◌then◌else◌, ap, ◌∙◌, Run, ok, fault, out_of_bounds,
  ◌>>=◌, length-append,
}

read_two : ℕ → Bytes → Run (ℕ × ℕ × Bytes)
read_two a [] = fault out_of_bounds
read_two a (b ∷ rest) = ok (a % 32 * 64 + b % 64, 2, rest)

read_three : ℕ → Bytes → Run (ℕ × ℕ × Bytes)
read_three a [] = fault out_of_bounds
read_three a (b ∷ []) = fault out_of_bounds
read_three a (b ∷ c ∷ rest) = ok (a % 16 * 4096 + b % 64 * 64 + c % 64, 3, rest)

-- One turn of the loop: the unit, the number of its bytes, and the bytes behind them.
pub read_unit : Bytes → Run (ℕ × ℕ × Bytes)
unfolding read_two read_three
read_unit [] = fault out_of_bounds
read_unit (a ∷ rest) =
    if leb a 0x7f
    then ok (a, 1, rest)
    else if leb a 0xdf
    then read_two a rest
    else read_three a rest

-- myUTF8_to_UNICODE: the loop while fewer than `len` bytes are read, on fuel. `len` is what is left
-- of them, and the bytes are those of the buffer, in which a read beyond `len` may still lie.
pub utf8_loop : ℕ → Bytes → ℕ → Run (List ℕ)
utf8_loop zero utf8 len = ok []
utf8_loop (suc fuel) utf8 len = elim (len == 0) [
  | true ↦ ok []
  | false ↦ read_unit utf8 >>= λ r. utf8_loop fuel r.2 (len - r.1) >>= λ units. ok (r.0 ∷ units)
]

-- The units that are written, and how many they are. Each turn takes a byte, so `len` is enough.
unfoldable pub utf8_to_unicode : Bytes → ℕ → Run (List ℕ × ℕ)
unfolding utf8_loop read_unit
utf8_to_unicode utf8 len = utf8_loop len utf8 len >>= λ units. ok (units, length units)

-- The encoding of a unit of 16 bits, as RFC 3629 has it.
abbrev pub encode_unit : ℕ → Bytes
encode_unit u =
    if ltb u 0x80
    then u ∷ []
    else if ltb u 0x800
    then (0xc0 + u / 64) ∷ (0x80 + u % 64) ∷ []
    else (0xe0 + u / 4096) ∷ (0x80 + u / 64 % 64) ∷ (0x80 + u % 64) ∷ []

abbrev pub encode : List ℕ → Bytes
encode [] = []
encode (u ∷ us) = encode_unit u ++ encode us

read_unit-encode :
    (u : ℕ) (rest : Bytes)
    → u < 0x10000
    → read_unit (encode_unit u ++ rest) ≡ ok (u, length (encode_unit u), rest)
unfolding read_unit
read_unit-encode u rest small = ground arith

encode_unit-pos : (u : ℕ) → 0 < length (encode_unit u)
encode_unit-pos u = ground arith

utf8_loop-step :
    (fuel : ℕ) (utf8 : Bytes) (len u k : ℕ) (rest : Bytes)
    → 0 < len
    → read_unit utf8 ≡ ok (u, k, rest)
    → utf8_loop (suc fuel) utf8 len ≡ (utf8_loop fuel rest (len - k) >>= λ units. ok (u ∷ units))
unfolding utf8_loop
utf8_loop-step fuel utf8 len u k rest more e = ground arith

utf8_loop-encode :
    (us : List ℕ) (fuel : ℕ) (rest : Bytes)
    → All (λ u. u < 0x10000) us
    → length (encode us) ≤ fuel
    → utf8_loop fuel (encode us ++ rest) (length (encode us)) ≡ ok us
utf8_loop-encode [] zero rest all enough = unfold utf8_loop in refl
utf8_loop-encode [] (suc fuel) rest all enough = unfold utf8_loop in refl
utf8_loop-encode (u ∷ us) zero rest all enough =
    absurd (omega (arith, encode_unit-pos u, length-append (encode_unit u) (encode us)))
utf8_loop-encode (u ∷ us) (suc fuel) rest (small, all) enough =
    utf8_loop-step fuel (encode (u ∷ us) ++ rest) (length (encode (u ∷ us))) u
      (length (encode_unit u)) (encode us ++ rest)
      (omega (arith, encode_unit-pos u, length-append (encode_unit u) (encode us)))
      (ap read_unit (append_assoc (encode_unit u) (encode us) rest)
        ∙ read_unit-encode u (encode us ++ rest) small)
    ∙ ap (λ n. utf8_loop fuel (encode us ++ rest) n >>= λ units. ok (u ∷ units))
        (omega (arith, length-append (encode_unit u) (encode us)))
    ∙ ap (λ r. r >>= λ units. ok (u ∷ units))
        (utf8_loop-encode us fuel rest all
          (omega (arith, encode_unit-pos u, length-append (encode_unit u) (encode us))))

-- A text of 16-bit units that is encoded in UTF-8 is decoded to the same units, with their number,
-- whatever stands behind it in the buffer.
pub utf8_to_unicode-encode :
    (us : List ℕ) (rest : Bytes)
    → All (λ u. u < 0x10000) us
    → utf8_to_unicode (encode us ++ rest) (length (encode us)) ≡ ok (us, length us)
unfolding utf8_to_unicode
utf8_to_unicode-encode us rest all =
    rw (utf8_loop-encode us (length (encode us)) rest all (omega arith))

-- UTF_8ToUnicode on three bytes: the low and the high byte of the unit.
unfoldable pub three_to_pair : ℕ → ℕ → ℕ → ℕ × ℕ
three_to_pair a b c = (b % 4 * 64 + c % 64, a % 16 * 16 + b / 4 % 16)

-- UnicodeToUTF_8 on the low and the high byte of a unit.
unfoldable pub pair_to_three : ℕ → ℕ → ℕ × ℕ × ℕ
pair_to_three lo hi = (0xe0 + hi / 16, 0x80 + hi % 16 * 4 + lo / 64, 0x80 + lo % 64)

-- The two conversions of a single unit undo one another, and `pair_to_three` gives the encoding of
-- every unit from 0x800 on.
pub pair_to_three-unit :
    (lo hi : ℕ)
    → lo < 256
    → hi < 256
    → let t = pair_to_three lo hi in
      (three_to_pair t.0 t.1 t.2 ≡ (lo, hi))
      × (0x800 ≤ lo + 256 * hi → encode_unit (lo + 256 * hi) ≡ t.0 ∷ t.1 ∷ t.2 ∷ [])
unfolding three_to_pair pair_to_three
pair_to_three-unit lo hi small_lo small_hi = (ground arith, λ large. ground arith)
