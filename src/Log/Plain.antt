-- ===== src/Log/Plain.antt =====
-- Messages with no conversion, and a '%' that has none.
use correct_gps.Base.{
  true, ℕ, ◌+◌, ◌≡◌, ◌≢◌, refl, ap, ◌∙◌, false, List, [], ◌∷◌, ◌++◌, Bytes, ltb, ◌==◌,
  if◌then◌else◌, Run, ok, fault, out_of_bounds, bad_format, ◌>>=◌, length, length-append, All,
  arith,
}
use correct_gps.Log.{
  Arg, Priority, syslog, log_info, buff_size, takes_argument, conversion, format, in_buf, log_doit,
  log_msg,
}

-- A text with no '%'.
abbrev pub IsPlain : Bytes → Type 0
IsPlain = All (λ c. c ≢ b'%')

prefixed :
    (c : ℕ) (s : Bytes) (r : Run Bytes)
    → ((r >>= λ t. ok (s ++ t)) >>= λ t. ok (c ∷ t)) ≡ (r >>= λ t. ok (c ∷ (s ++ t)))
prefixed c s (ok t) = refl
prefixed c s (fault e) = refl

format-plain :
    (s rest : Bytes) (args : List Arg)
    → IsPlain s
    → format false (s ++ rest) args ≡ (format false rest args >>= λ t. ok (s ++ t))
unfolding format
format-plain [] rest args h = by_run (format false rest args)
  where
    by_run : (r : Run Bytes) → r ≡ (r >>= λ t. ok t)
    by_run (ok t) = refl
    by_run (fault e) = refl
format-plain (c ∷ s) rest args h =
    let other : (c == b'%') ≡ false = ground (arith, h.0) in
    rw (other, format)
      (ap (λ r. r >>= λ t. ok (c ∷ t)) (format-plain s rest args h.1)
        ∙ prefixed c s (format false rest args))

pub format-all_plain : (s : Bytes) (args : List Arg) → IsPlain s → format false s args ≡ ok s
unfolding format
format-all_plain [] args h = refl
format-all_plain (c ∷ s) args h = ground (arith, h.0, format-all_plain s args h.1)

-- A '%' before the letter of a conversion has no argument, whatever is before and behind it.
pub log_msg-conversion :
    (front rest : Bytes) (c : ℕ)
    → IsPlain front
    → takes_argument c ≡ true
    → log_msg (front ++ b'%' ∷ c ∷ rest) [] ≡ fault bad_format
unfolding log_msg log_doit
log_msg-conversion front rest c h other =
    let stops : format false (b'%' ∷ c ∷ rest) [] ≡ fault bad_format =
      unfold format conversion in ground (arith, other) in
    let all : format false (front ++ b'%' ∷ c ∷ rest) [] ≡ fault bad_format =
      format-plain front (b'%' ∷ c ∷ rest) [] h ∙ ap (λ r. r >>= λ t. ok (front ++ t)) stops in
    rw all refl

in_buf-line :
    (s : Bytes) (p : Priority)
    → (in_buf s >>= λ s1. in_buf s1 >>= λ s2. in_buf (s2 ++ b'\n' ∷ []) >>= syslog p)
      ≡ (if ltb (length s + 1) buff_size then syslog p (s ++ b'\n' ∷ []) else fault out_of_bounds)
in_buf-line s p = ground (arith, length-append s (b'\n' ∷ []))

-- A message with no '%' goes to syslog as it is, with a line feed, if with it and the NUL it has room
-- in `buf`; else it overruns `buf`.
pub log_msg-plain :
    (s : Bytes)
    → IsPlain s
    → log_msg s [] ≡ (
        if ltb (length s + 1) buff_size
        then syslog log_info (s ++ b'\n' ∷ [])
        else fault out_of_bounds)
log_msg-plain s h = unfold log_msg log_doit in rw (format-all_plain s [] h) (in_buf-line s log_info)
