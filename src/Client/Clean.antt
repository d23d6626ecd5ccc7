-- ===== src/Client/Clean.antt =====
-- Texts with no NUL and no '%', and the string that a buffer holds.
use correct_gps.Base.{
  Ensures, Ensures-bind, Bool-cases, inl, inr, ◌≤◌, length-append, ℕ, zero, suc, ◌+◌, ◌<◌, ◌≡◌, ◌≢◌,
  refl, ap, sym, subst, ◌∙◌, true, false, [], ◌∷◌, ◌++◌, Bytes, Cells, codes, slice, ◌==◌, ok,
  length, All, All-append, All-map, arith,
}
use correct_gps.Tools.Items.Lines.{Lacks}
use correct_gps.Tools.Clock.{Tm, IsDate}
use correct_gps.Log.Plain.{IsPlain}
use correct_gps.Client.Query.{TextAt}
use correct_gps.Tools.Chars.{IsDigits}
use correct_gps.Client.Fields.{query, md5_part, x_part, y_part, Fields, IsProper}
use correct_gps.Client.Request.{request}
use correct_gps.Client.{string_of, log_text}

pub string_of-slice :
    (p : Cells ℕ) (s : Bytes) (i n : ℕ)
    → TextAt p i s
    → p (i + length s) ≡ 0
    → Lacks 0 s
    → length s < n
    → string_of (slice p i n) ≡ ok s
unfolding string_of
string_of-slice p s i zero t e h room = absurd (omega arith)
string_of-slice p [] i (suc n) t e h room =
    let here : (p i == 0) ≡ true = ground (arith, ap p (let k : i + 0 ≡ i = omega arith in k)) in
    rw (here, string_of) refl
string_of-slice p (c ∷ s) i (suc n) t e h room =
    let other : (p i == 0) ≡ false = ground (arith, t.0, h.0) in
    let k : i + 1 + length s ≡ i + suc (length s) = omega arith in
    let rest : string_of (slice p (i + 1) n) ≡ ok s =
      string_of-slice p s (i + 1) n t.1 (ap p k ∙ e) h.1 (omega arith) in
    rw (other, string_of, rest) (ap (λ b. ok (b ∷ s)) t.0)

-- A text with no NUL and no '%'.
abbrev pub IsClean : Bytes → Type 0
IsClean = All (λ c. (c ≢ 0) × (c ≢ b'%'))

pub IsClean-Lacks : (s : Bytes) → IsClean s → Lacks 0 s
IsClean-Lacks s = All-map _ _ s (λ c h. h.0)

pub IsClean-IsPlain : (s : Bytes) → IsClean s → IsPlain s
IsClean-IsPlain s = All-map _ _ s (λ c h. h.1)

pub digits-IsClean : (s : Bytes) → IsDigits s → IsClean s
digits-IsClean s = All-map _ _ s (λ c h. (ground arith, ground arith))

joined : (s t : Bytes) → IsClean s → IsClean t → IsClean (s ++ t)
joined = All-append (λ c. (c ≢ 0) × (c ≢ b'%'))

pub request-IsClean :
    (f : Fields) (rest : Bytes) → IsProper f → IsClean rest → IsClean (request f rest)
request-IsClean f rest h clean =
    joined (codes "GET /index.php/api/car/navto?") (query f rest) (omega arith) (
      joined (codes "serial=") (f.serial ++ b'&' ∷ md5_part f rest) (omega arith) (
        joined f.serial (b'&' ∷ md5_part f rest) (digits-IsClean f.serial h.serial_digits) (
          joined (codes "&md5=") (f.md5 ++ b'&' ∷ x_part f rest) (omega arith) (
            joined f.md5 (b'&' ∷ x_part f rest)
              (All-map _ _ f.md5 (λ c k. (ground arith, ground arith)) h.md5_hex)
              (joined (codes "&xbaidu=") (f.xbaidu ++ b'&' ∷ y_part f rest) (omega arith) (
                joined f.xbaidu (b'&' ∷ y_part f rest)
                  (All-map _ _ f.xbaidu (λ c k. (ground arith, ground arith)) h.xbaidu_decimal)
                  (joined (codes "&ybaidu=") (f.ybaidu ++ b' ' ∷ rest) (omega arith) (
                    joined f.ybaidu (b' ' ∷ rest)
                      (All-map _ _ f.ybaidu (λ c k. (ground arith, ground arith)) h.ybaidu_decimal)
                      (omega arith, clean)))))))))

pub date-IsPlain : (t : Tm) (s : Bytes) → IsDate t s → IsPlain s
date-IsPlain t s d = IsClean-IsPlain s (
    subst IsClean (sym d.text) (
      joined d.year
        (b'-' ∷ (d.mon ++ b'-' ∷ (d.day ++ b' ' ∷ (d.hour ++ b':' ∷ (d.min ++ b':' ∷ d.sec)))))
        (digits-IsClean d.year d.year_prints.digits)
        (
          omega arith,
          joined d.mon (b'-' ∷ (d.day ++ b' ' ∷ (d.hour ++ b':' ∷ (d.min ++ b':' ∷ d.sec))))
              (digits-IsClean d.mon d.mon_prints.digits)
              (
                omega arith,
                joined d.day (b' ' ∷ (d.hour ++ b':' ∷ (d.min ++ b':' ∷ d.sec)))
                    (digits-IsClean d.day d.day_prints.digits)
                    (
                      omega arith,
                      joined d.hour (b':' ∷ (d.min ++ b':' ∷ d.sec))
                          (digits-IsClean d.hour d.hour_prints.digits)
                          (
                            omega arith,
                            joined d.min (b':' ∷ d.sec) (digits-IsClean d.min d.min_prints.digits)
                                (omega arith, digits-IsClean d.sec d.sec_prints.digits),
                          ),
                    ),
              ),
        )))

pub length-log_text : (d s : Bytes) → length d ≡ 19 → length (log_text d s) ≡ length s + 29
length-log_text d s size = omega (
  arith,
  length-append (codes "[get][") (d ++ (codes "][" ++ (s ++ codes "]."))),
  length-append d (codes "][" ++ (s ++ codes "].")),
  length-append s (codes "]."),
)

pub log_text-IsPlain : (d s : Bytes) → IsPlain d → IsPlain s → IsPlain (log_text d s)
log_text-IsPlain d s hd hs = (
  omega arith,
  (
    omega arith,
    (
      omega arith,
      (
        omega arith,
        (
          omega arith,
          (
            omega arith,
            All-append _ d (codes "][" ++ (s ++ codes "].")) hd
                (omega arith, (omega arith, All-append _ s (codes "].") hs (omega arith))),
          ),
        ),
      ),
    ),
  ),
)

-- The string of cells with no '%', with a NUL among them.
pub string_of-ends :
    (p : Cells ℕ) (i m n : ℕ)
    → ((k : ℕ) → p k ≢ b'%')
    → p (i + m) ≡ 0
    → m < n
    → Ensures (string_of (slice p i n)) (λ s. IsPlain s × (length s ≤ m))
unfolding string_of
string_of-ends p i m zero plain nul room = absurd (omega arith)
string_of-ends p i zero (suc n) plain nul room =
    let here : (p i == 0) ≡ true = ground (arith, ap p (let k : i + 0 ≡ i = omega arith in k)) in
    rw (here, string_of) (tt, omega arith)
string_of-ends p i (suc m) (suc n) plain nul room = elim (Bool-cases (p i == 0)) [
  | inl here ↦ rw (here, string_of) (tt, omega arith)
  | inr on ↦
      let k : i + 1 + m ≡ i + suc m = omega arith in
      rw (on, string_of)
        (Ensures-bind (λ s. IsPlain s × (length s ≤ m)) (λ s. IsPlain s × (length s ≤ suc m))
          (string_of (slice p (i + 1) n)) (λ s. ok (p i ∷ s))
          (string_of-ends p (i + 1) m n plain (ap p k ∙ nul) (omega arith))
          (λ s h. ((plain i, h.0), omega (arith, h.1))))
]
