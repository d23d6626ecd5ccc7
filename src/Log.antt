-- ===== src/Log.antt =====
-- log (src/log.h, src/log.cpp): the messages to syslog. A format is read as the C library's
-- vsprintf reads it, with the conversions that the program's formats have: to reach one whose
-- argument was not passed is a fault, and so is one that the model does not read. No number in a
-- message is below 0, and no text has a NUL.
pub mod Plain
pub mod File
use correct_gps.Base.{
  ℕ, zero, suc, ◌+◌, ◌/◌, ◌%◌, Bool, true, false, List, [], ◌∷◌, ◌++◌, Bytes, ltb, ◌==◌,
  if◌then◌else◌, Run, ok, fault, out_of_bounds, bad_format, other_format, codes, ◌||◌, ◌>>=◌,
  length,
}
use correct_gps.Tools.Decimal.{decimal}

-- BUFFSIZE
abbrev pub buff_size : ℕ
buff_size = 4096

pub data Arg : Type 0 where
  number : ℕ → Arg
  text : Bytes → Arg

-- LOG_INFO, LOG_ERR
pub data Priority : Type 0 where
  log_info log_err : Priority

-- What syslog gets.
pub record Entry : Type 0 where
  pub priority : Priority
  pub line : Bytes

abbrev pub syslog : Priority → Bytes → Run Entry
syslog priority line = ok (record { priority = priority; line = line })

abbrev pub is_among : ℕ → Bytes → Bool
is_among c [] = false
is_among c (d ∷ ds) = c == d || is_among c ds

-- The conversions of the C standard that read an argument, with no flag, width or length before them.
abbrev pub takes_argument : ℕ → Bool
takes_argument c = is_among c (codes "diouxXeEfFgGaAcspn")

-- The text of the conversion behind a '%', and the arguments behind its own.
-- One that has flags, is none of the standard's, or does not fit its argument is not read.
unfoldable pub conversion : ℕ → List Arg → Run (Bytes × List Arg)
conversion c [] =
    if c == b'%'
    then ok (b'%' ∷ [], [])
    else if takes_argument c
    then fault bad_format
    else fault other_format
conversion c (number n ∷ args) =
    if c == b'%'
    then ok (b'%' ∷ [], number n ∷ args)
    else if c == b'd'
    then ok (decimal n, args)
    else fault other_format
conversion c (text s ∷ args) =
    if c == b'%'
    then ok (b'%' ∷ [], text s ∷ args)
    else if c == b's'
    then ok (s, args)
    else fault other_format

-- What vsprintf writes; `behind` says that the character before was the '%' of a conversion.
unfoldable pub format : Bool → Bytes → List Arg → Run Bytes
unfolding conversion
format false [] args = ok []
format true [] args = fault bad_format
format false (c ∷ fmt) args =
    let conversion_next = format true fmt args in
    let plain = format false fmt args >>= λ s. ok (c ∷ s) in
    if c == b'%' then conversion_next else plain
format true (c ∷ fmt) args =
    conversion c args >>= λ (s, rest). format false fmt rest >>= λ t. ok (s ++ t)

-- The text is written, with its NUL, into `buf`.
abbrev pub in_buf : Bytes → Run Bytes
in_buf s = if ltb (length s) buff_size then ok s else fault out_of_bounds

-- `error` is what strerror gives for errno.
unfoldable pub log_doit : Bool → Priority → Bytes → List Arg → (error : Bytes) → Run Entry
log_doit errnoflag priority fmt args error = format false fmt args >>= λ s0. in_buf s0 >>= λ s1.
    in_buf (if errnoflag then s1 ++ b':' ∷ error else s1) >>= λ s2.
    in_buf (s2 ++ b'\n' ∷ []) >>= syslog priority

unfoldable pub log_msg : Bytes → List Arg → Run Entry
log_msg fmt args = log_doit false log_info fmt args []

unfoldable pub log_sys : Bytes → List Arg → (error : Bytes) → Run Entry
log_sys fmt args error = log_doit true log_err fmt args error
