-- ===== src/Tools/Clock.antt =====
-- getnowdate (src/tools.cpp): the date and the time of day as a text. What time and localtime give is
-- an argument. No member of it is below 0.
use correct_gps.Base.{
  ℕ, ◌+◌, ◌≤◌, ◌<◌, ◌≡◌, refl, ap, sym, subst, ◌∙◌, true, false, ◌∷◌, ◌++◌, Bytes, ltb,
  if◌then◌else◌, Run, ok, fault, out_of_bounds, length, length-append, arith, Ensures,
}
use correct_gps.Tools.Decimal.{padded, Prints, padded-Prints, padded-long, padded-wide}

-- struct tm
pub record Tm : Type 0 where
  pub tm_year : ℕ
  pub tm_mon : ℕ
  pub tm_mday : ℕ
  pub tm_hour : ℕ
  pub tm_min : ℕ
  pub tm_sec : ℕ

abbrev pub ndate_size : ℕ
ndate_size = 20

-- sprintf with "%04d-%02d-%02d %02d:%02d:%02d"
abbrev pub date_text : (year mon day hour min sec : Bytes) → Bytes
date_text year mon day hour min sec =
    year ++ b'-' ∷ (mon ++ b'-' ∷ (day ++ b' ' ∷ (hour ++ b':' ∷ (min ++ b':' ∷ sec))))

-- The text for a time.
unfoldable pub date_of : Tm → Bytes
date_of t =
    date_text (padded 4 (t.tm_year + 1900)) (padded 2 (t.tm_mon + 1)) (padded 2 t.tm_mday)
      (padded 2 t.tm_hour) (padded 2 t.tm_min) (padded 2 t.tm_sec)

-- sprintf into `ndate`, with its NUL; strcpy takes it to a buffer of the caller of no smaller size.
unfoldable pub getnowdate : Tm → Run Bytes
getnowdate t = if ltb (length (date_of t)) ndate_size then ok (date_of t) else fault out_of_bounds

-- The ranges that localtime keeps to, in a year of four digits.
pub record IsTime (t : Tm) : Type 0 where
  pub year : t.tm_year + 1900 < 10000
  pub mon : t.tm_mon ≤ 11
  pub mday : t.tm_mday ≤ 31
  pub hour : t.tm_hour ≤ 23
  pub min : t.tm_min ≤ 59
  pub sec : t.tm_sec ≤ 60

pub record IsDate (t : Tm) (s : Bytes) : Type 0 where
  pub year : Bytes
  pub mon : Bytes
  pub day : Bytes
  pub hour : Bytes
  pub min : Bytes
  pub sec : Bytes
  pub text : s ≡ date_text year mon day hour min sec
  pub year_prints : Prints 4 (t.tm_year + 1900) year
  pub mon_prints : Prints 2 (t.tm_mon + 1) mon
  pub day_prints : Prints 2 t.tm_mday day
  pub hour_prints : Prints 2 t.tm_hour hour
  pub min_prints : Prints 2 t.tm_min min
  pub sec_prints : Prints 2 t.tm_sec sec

length-date_text :
    (year mon day hour min sec : Bytes)
    → length (date_text year mon day hour min sec)
      ≡ length year + length mon + length day + length hour + length min + length sec + 5
length-date_text year mon day hour min sec = omega (
  arith,
  length-append year (b'-' ∷ (mon ++ b'-' ∷ (day ++ b' ' ∷ (hour ++ b':' ∷ (min ++ b':' ∷ sec))))),
  length-append mon (b'-' ∷ (day ++ b' ' ∷ (hour ++ b':' ∷ (min ++ b':' ∷ sec)))),
  length-append day (b' ' ∷ (hour ++ b':' ∷ (min ++ b':' ∷ sec))),
  length-append hour (b':' ∷ (min ++ b':' ∷ sec)),
  length-append min (b':' ∷ sec),
)

date_of-IsDate : (t : Tm) → IsTime t → IsDate t (date_of t)
unfolding date_of
date_of-IsDate t h = record {
  year = padded 4 (t.tm_year + 1900);
  mon = padded 2 (t.tm_mon + 1);
  day = padded 2 t.tm_mday;
  hour = padded 2 t.tm_hour;
  min = padded 2 t.tm_min;
  sec = padded 2 t.tm_sec;
  text = refl;
  year_prints = padded-Prints 3 (t.tm_year + 1900) h.year;
  mon_prints = padded-Prints 1 (t.tm_mon + 1) (let k = h.mon in omega arith);
  day_prints = padded-Prints 1 t.tm_mday (let k = h.mday in omega arith);
  hour_prints = padded-Prints 1 t.tm_hour (let k = h.hour in omega arith);
  min_prints = padded-Prints 1 t.tm_min (let k = h.min in omega arith);
  sec_prints = padded-Prints 1 t.tm_sec (let k = h.sec in omega arith);
}

length-IsDate : (t : Tm) (s : Bytes) → IsDate t s → length s ≡ 19
length-IsDate t s d =
    let a = d.year_prints.size in
    let b = d.mon_prints.size in
    let c = d.day_prints.size in
    let e = d.hour_prints.size in
    let f = d.min_prints.size in
    let g = d.sec_prints.size in
    ap length d.text ∙ (length-date_text d.year d.mon d.day d.hour d.min d.sec ∙ omega arith)

pub getnowdate-IsDate :
    (t : Tm) → IsTime t → Ensures (getnowdate t) (λ s. IsDate t s × (length s ≡ 19))
unfolding getnowdate
getnowdate-IsDate t h =
    let d = date_of-IsDate t h in
    let fits : ltb (length (date_of t)) ndate_size ≡ true =
      ap (λ k. ltb k ndate_size) (length-IsDate t (date_of t) d) in
    rw fits (d, length-IsDate t (date_of t) d)

wide_year : (t : Tm) → 10000 ≤ t.tm_year + 1900 → ndate_size ≤ length (date_of t)
unfolding date_of
wide_year t h =
    let year = padded-long 4 (t.tm_year + 1900) h in
    let mon = padded-wide 2 (t.tm_mon + 1) in
    let day = padded-wide 2 t.tm_mday in
    let hour = padded-wide 2 t.tm_hour in
    let min = padded-wide 2 t.tm_min in
    let sec = padded-wide 2 t.tm_sec in
    subst (λ k. ndate_size ≤ k)
      (sym (
        length-date_text (padded 4 (t.tm_year + 1900)) (padded 2 (t.tm_mon + 1))
          (padded 2 t.tm_mday) (padded 2 t.tm_hour) (padded 2 t.tm_min) (padded 2 t.tm_sec)))
      (omega arith)

-- In a year of five digits the date overruns `ndate`.
getnowdate-overruns : (t : Tm) → 10000 ≤ t.tm_year + 1900 → getnowdate t ≡ fault out_of_bounds
unfolding getnowdate
getnowdate-overruns t h =
    let over : ltb (length (date_of t)) ndate_size ≡ false =
      by_size (length (date_of t)) (wide_year t h) in
    rw over refl
  where
    by_size : (n : ℕ) → ndate_size ≤ n → ltb n ndate_size ≡ false
    by_size n k = ground arith
