-- ===== src/Log/File.antt =====
-- The log file (logOpen, logMessage, logClose of src/log.cpp), of which nothing in the program makes
-- use so far. What the clock and fopen give is an argument.
use correct_gps.Base.{
  ℕ, arith, ◌≡◌, refl, sym, ap, ◌∙◌, false, List, [], ◌∷◌, ◌++◌, Bytes, codes, Option, none, some,
  Run, ok, fault, null_pointer, dangling, ◌>>=◌, All,
}
use mathlib.Core.List.{append_assoc, append-nil}
use correct_gps.Log.{Arg, text, Entry, format, log_sys}
use correct_gps.Log.Plain.{IsPlain, format-all_plain}

-- `logfp`: null at the start, and left as it is by fclose.
pub data LogStream : Type 0 where
  no_stream closed_stream : LogStream
  -- The contents of the file, to whose end each message goes.
  open_stream : Bytes → LogStream

-- The stream, and the mode mask of the process.
pub record LogFile : Type 0 where
  pub logfp : LogStream
  pub mask : ℕ

-- `stamp` is what strftime writes: none where localtime or strftime fails.
abbrev pub stamp_text : Option Bytes → Bytes
stamp_text none = codes "???Unknown time????: "
stamp_text (some stamp) = stamp ++ codes ": "

unfoldable pub log_message : Option Bytes → Bytes → List Arg → LogFile → Run LogFile
log_message stamp fmt args f = elim f.logfp [
  | no_stream ↦ fault null_pointer
  | closed_stream ↦ fault dangling
  | open_stream contents ↦ format false fmt args >>= λ s.
      ok (record f { logfp = open_stream (contents ++ (stamp_text stamp ++ (s ++ b'\n' ∷ []))) })
]

-- `opened` is the contents of the file, or none where fopen fails: the process then ends, with
-- an entry to syslog.
unfoldable pub log_open_file :
    Bytes → (opened stamp : Option Bytes) → (error : Bytes) → LogFile → Run (LogFile × Option Entry)
unfolding log_message
log_open_file name none stamp error f =
    log_sys (codes "[cksettling][logOpen <%s> fail]\n") (text name ∷ []) error >>= λ e.
    ok (record f { logfp = no_stream }, some e)
log_open_file name (some contents) stamp error f =
    log_message stamp (codes "Opened log file") [] (record f { logfp = open_stream contents })
    >>= λ g. ok (g, none)

unfoldable pub log_close : Option Bytes → LogFile → Run LogFile
unfolding log_message
log_close stamp f = log_message stamp (codes "Closing log file") [] f >>= λ g.
    ok (record g { logfp = closed_stream })

-- Messages with their stamps, one behind the other.
abbrev pub log_all : List (Option Bytes × Bytes) → LogFile → Run LogFile
log_all [] f = ok f
log_all ((stamp, s) ∷ later) f = log_message stamp s [] f >>= λ g. log_all later g

abbrev pub lines : List (Option Bytes × Bytes) → Bytes
lines [] = []
lines ((stamp, s) ∷ later) = (stamp_text stamp ++ (s ++ b'\n' ∷ [])) ++ lines later

log_message-plain :
    (stamp : Option Bytes) (s contents : Bytes) (f : LogFile)
    → IsPlain s
    → log_message stamp s [] (record f { logfp = open_stream contents })
      ≡ ok (record f { logfp = open_stream (contents ++ (stamp_text stamp ++ (s ++ b'\n' ∷ []))) })
unfolding log_message
log_message-plain stamp s contents f h = rw (format-all_plain s [] h) refl

-- Messages with no '%' stand in the file in order, each on its line behind what it held.
log_all-appends :
    (messages : List (Option Bytes × Bytes)) (contents : Bytes) (f : LogFile)
    → All (λ (m : Option Bytes × Bytes). IsPlain m.1) messages
    → log_all messages (record f { logfp = open_stream contents })
      ≡ ok (record f { logfp = open_stream (contents ++ lines messages) })
log_all-appends [] contents f h =
    ap (λ c. ok (record f { logfp = open_stream c })) (sym (append-nil contents))
log_all-appends ((stamp, s) ∷ later) contents f h =
    ap (λ r. r >>= λ g. log_all later g) (log_message-plain stamp s contents f h.0)
    ∙ log_all-appends later (contents ++ (stamp_text stamp ++ (s ++ b'\n' ∷ []))) f h.1
    ∙ ap (λ c. ok (record f { logfp = open_stream c }))
        (append_assoc contents (stamp_text stamp ++ (s ++ b'\n' ∷ [])) (lines later))

-- Once the file is opened, it holds what it held, a line on the opening, and the messages in order.
log_session :
    (name contents error : Bytes) (opening : Option Bytes) (messages : List (Option Bytes × Bytes))
    (f : LogFile)
    → All (λ (m : Option Bytes × Bytes). IsPlain m.1) messages
    → let opened : Bytes =
        contents ++ (stamp_text opening ++ (codes "Opened log file" ++ b'\n' ∷ [])) in
      (log_open_file name (some contents) opening error f >>= λ g. log_all messages g.0)
      ≡ ok (record f { logfp = open_stream (opened ++ lines messages) })
unfolding log_open_file
log_session name contents error opening messages f h =
    ap (λ (r : Run (LogFile × Option Entry)). r >>= λ g. log_all messages g.0)
      (ap (λ (r : Run LogFile). r >>= λ g. ok (g, none))
        (log_message-plain opening (codes "Opened log file") contents f (omega arith)))
    ∙ log_all-appends messages
        (contents ++ (stamp_text opening ++ (codes "Opened log file" ++ b'\n' ∷ []))) f h
