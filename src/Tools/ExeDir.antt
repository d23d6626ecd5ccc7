-- ===== src/Tools/ExeDir.antt =====
-- getexedir (src/tools.cpp): the directory of the program, and the configuration file in it
-- (DataBaseIni of src/dbdo.cpp, readConfigFile of src/Ccfg.cpp). What readlink gives for
-- /proc/self/exe is an argument. The text is that of the string in getexedir, before it is deleted
-- with the string.
use correct_gps.Base.{
  ℕ, zero, suc, ◌≤◌, ◌≡◌, refl, ap, [], ◌∷◌, ◌++◌, Bytes, codes, take, Option, none, some, Run, ok,
  fault, null_pointer, aborted, ◌>>=◌, ◌==◌, if◌then◌else◌, length, arith,
}
use correct_gps.Tools.Items.Lines.{Lacks}

-- rfind and erase: what is before the last of the character.
unfoldable pub before_last : ℕ → Bytes → Option Bytes
before_last c [] = none
before_last c (b ∷ s) = elim (before_last c s) [
  | some t ↦ some (b ∷ t)
  | none ↦ if b == c then some [] else none
]

-- readlink writes at most 499 bytes into `buff`.
unfoldable pub read_link : Bytes → Bytes
read_link link = take 499 link

-- Where there is no '/', erase is called with the position npos,
-- and throws.
unfoldable pub getexedir : Option Bytes → Run (Option Bytes)
getexedir none = ok none
getexedir (some link) = elim (before_last b'/' (read_link link)) [
  | some dir ↦ ok (some dir)
  | none ↦ fault aborted
]

-- A string is made of it, and the name of the file appended. There is none of a null pointer.
unfoldable pub config_filename : Option Bytes → Run Bytes
config_filename link = getexedir link >>= λ o. elim o [
  | some dir ↦ ok (dir ++ codes "/correctgps.conf")
  | none ↦ fault null_pointer
]

before_last-absent : (c : ℕ) (s : Bytes) → Lacks c s → before_last c s ≡ none
unfolding before_last
before_last-absent c [] h = refl
before_last-absent c (b ∷ s) h = ground (arith, before_last-absent c s h.1, h.0)

before_last-joined :
    (c : ℕ) (dir name : Bytes) → Lacks c name → before_last c (dir ++ c ∷ name) ≡ some dir
unfolding before_last
before_last-joined c [] name h = ground (arith, before_last-absent c name h)
before_last-joined c (b ∷ dir) name h = rw (before_last, before_last-joined c dir name h) refl

take-short : (n : ℕ) (s : Bytes) → length s ≤ n → take n s ≡ s
take-short zero [] h = refl
take-short (suc n) [] h = refl
take-short zero (c ∷ s) h = absurd (omega arith)
take-short (suc n) (c ∷ s) h = ap (λ t. c ∷ t) (take-short n s (omega arith))

getexedir-found :
    (link path dir : Bytes)
    → read_link link ≡ path
    → before_last b'/' path ≡ some dir
    → getexedir (some link) ≡ ok (some dir)
unfolding getexedir
getexedir-found link path dir e k = ground arith

-- The configuration file is the one beside the program, if the path of the program has at most 499
-- bytes.
config_filename-beside :
    (dir name : Bytes)
    → Lacks b'/' name
    → length (dir ++ b'/' ∷ name) ≤ 499
    → config_filename (some (dir ++ b'/' ∷ name)) ≡ ok (dir ++ codes "/correctgps.conf")
unfolding config_filename
config_filename-beside dir name h room =
    let whole : read_link (dir ++ b'/' ∷ name) ≡ dir ++ b'/' ∷ name =
      unfold read_link in take-short 499 (dir ++ b'/' ∷ name) room in
    ap
      (λ r. r >>= λ o. elim o [
        | some d ↦ ok (d ++ codes "/correctgps.conf")
        | none ↦ fault null_pointer
      ])
      (getexedir-found (dir ++ b'/' ∷ name) (dir ++ b'/' ∷ name) dir whole
        (before_last-joined b'/' dir name h))
