-- ===== src/Tools/Decimal.antt =====
-- The numbers of a printed text: "%d", and "%0wd", which fills up with zeros. No number is below 0.
use correct_gps.Base.{
  ℕ, zero, suc, ◌+◌, ◌-◌, ◌*◌, ◌/◌, ◌%◌, ◌^◌, ◌≤◌, ◌<◌, ◌≡◌, refl, ap, ◌∙◌, [], ◌∷◌, ◌++◌, Bytes,
  ltb, if◌then◌else◌, length, length-append, replicate, All-append, arith, Bool-cases, inl, inr,
}
use correct_gps.Tools.Chars.{IsDigits, digits_value}

-- The digits, most significant first; as many as the number and one are enough.
unfoldable pub digits_of : (fuel n : ℕ) → Bytes
digits_of zero n = []
digits_of (suc fuel) n =
    let front = digits_of fuel (n / 10) in
    if ltb n 10 then (b'0' + n) ∷ [] else front ++ (b'0' + n % 10) ∷ []

abbrev pub decimal : ℕ → Bytes
decimal n = digits_of (suc n) n

abbrev pub padded : (width n : ℕ) → Bytes
padded width n = replicate (width - length (decimal n)) b'0' ++ decimal n

digits_value-append :
    (acc : ℕ) (s : Bytes) (d : ℕ)
    → digits_value acc (s ++ d ∷ []) ≡ digits_value acc s * 10 + (d - b'0')
digits_value-append acc [] d = refl
digits_value-append acc (c ∷ s) d = digits_value-append (acc * 10 + (c - b'0')) s d

digits_of-value : (fuel n : ℕ) → n < fuel → digits_value 0 (digits_of fuel n) ≡ n
unfolding digits_of
digits_of-value zero n h = absurd (omega arith)
digits_of-value (suc fuel) n h = elim (Bool-cases (ltb n 10)) [
  | inl small ↦ rw small (omega arith)
  | inr large ↦
      let front : digits_value 0 (digits_of fuel (n / 10)) ≡ n / 10 =
        digits_of-value fuel (n / 10) (ground arith) in
      rw (large, digits_value-append 0 (digits_of fuel (n / 10)) (b'0' + n % 10), front)
        (omega arith)
]

digits_of-IsDigits : (fuel n : ℕ) → IsDigits (digits_of fuel n)
unfolding digits_of
digits_of-IsDigits zero n = tt
digits_of-IsDigits (suc fuel) n = elim (Bool-cases (ltb n 10)) [
  | inl small ↦ rw small (ground arith, tt)
  | inr large ↦ rw large (
      All-append _ (digits_of fuel (n / 10)) ((b'0' + n % 10) ∷ [])
        (digits_of-IsDigits fuel (n / 10)) (ground arith, tt))
]

digits_of-short : (k fuel n : ℕ) → n < 10 ^ suc k → length (digits_of fuel n) ≤ suc k
unfolding digits_of
digits_of-short k zero n h = omega arith
digits_of-short zero (suc fuel) n h = ground arith
digits_of-short (suc k) (suc fuel) n h =
    let below : n / 10 < 10 ^ suc k = omega arith in
    ground (
      arith,
      digits_of-short k fuel (n / 10) below,
      length-append (digits_of fuel (n / 10)) ((b'0' + n % 10) ∷ []),
    )

power-positive : (k : ℕ) → 0 < 10 ^ k
power-positive zero = omega arith
power-positive (suc k) = omega (arith, power-positive k)

digits_of-long : (k fuel n : ℕ) → n < fuel → 10 ^ k ≤ n → k < length (digits_of fuel n)
unfolding digits_of
digits_of-long k zero n h b = absurd (omega arith)
digits_of-long zero (suc fuel) n h b =
    ground (arith, length-append (digits_of fuel (n / 10)) ((b'0' + n % 10) ∷ []))
digits_of-long (suc k) (suc fuel) n h b =
    let below : 10 ^ k ≤ n / 10 = omega arith in
    let some_digits : 10 ≤ n = omega (arith, power-positive k) in
    let less : n / 10 < fuel = omega arith in
    ground (
      arith,
      digits_of-long k fuel (n / 10) less below,
      length-append (digits_of fuel (n / 10)) ((b'0' + n % 10) ∷ []),
    )

-- Digits, as many as the width, whose value is the number.
pub record Prints (width n : ℕ) (s : Bytes) : Type 0 where
  pub digits : IsDigits s
  pub size : length s ≡ width
  pub value : digits_value 0 s ≡ n

zeros-value : (k : ℕ) (s : Bytes) → digits_value 0 (replicate k b'0' ++ s) ≡ digits_value 0 s
zeros-value zero s = refl
zeros-value (suc k) s = zeros-value k s

zeros-IsDigits : (k : ℕ) → IsDigits (replicate k b'0')
zeros-IsDigits zero = tt
zeros-IsDigits (suc k) = (refl, zeros-IsDigits k)

length-replicate : (k a : ℕ) → length (replicate k a) ≡ k
length-replicate zero a = refl
length-replicate (suc k) a = ap suc (length-replicate k a)

-- A number that the width has room for.
pub padded-Prints : (k n : ℕ) → n < 10 ^ suc k → Prints (suc k) n (padded (suc k) n)
padded-Prints k n h = record {
  digits =
      All-append _ (replicate (suc k - length (decimal n)) b'0') (decimal n)
        (zeros-IsDigits (suc k - length (decimal n))) (digits_of-IsDigits (suc n) n);
  size = omega (
    arith,
    length-append (replicate (suc k - length (decimal n)) b'0') (decimal n),
    length-replicate (suc k - length (decimal n)) b'0',
    digits_of-short k (suc n) n h,
  );
  value =
      zeros-value (suc k - length (decimal n)) (decimal n)
      ∙ digits_of-value (suc n) n (omega arith);
}

-- One that it has no room for is longer.
pub padded-long : (k n : ℕ) → 10 ^ k ≤ n → k < length (padded k n)
padded-long k n h = omega (
  arith,
  length-append (replicate (k - length (decimal n)) b'0') (decimal n),
  digits_of-long k (suc n) n (omega arith) h,
)

pub padded-wide : (k n : ℕ) → k ≤ length (padded k n)
padded-wide k n = omega (
  arith,
  length-append (replicate (k - length (decimal n)) b'0') (decimal n),
  length-replicate (k - length (decimal n)) b'0',
)
