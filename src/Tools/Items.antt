-- ===== src/Tools/Items.antt =====
-- get_item_from_line and file_to_items (src/tools.cpp): a configuration file as a map from keys to
-- values. A std::map is the list of its entries in the order of insertion: its users look keys up.
pub mod Laws
pub mod Lines
pub mod File
pub mod Lookup
use correct_gps.Base.{
  ℕ, zero, suc, ◌+◌, ◌-◌, ◌≤◌, ◌<◌, ◌≡◌, ◌≢◌, refl, Bool, true, false, ◌&&◌, List, [], ◌∷◌, ◌++◌,
  Bytes, Option, none, some, ◌⊎◌, inl, inr, length, All, arith, Bool-cases, ◌==◌, ltb,
  if◌then◌else◌, ap, sym, ◌∙◌, Run, ok, fault, null_pointer, ◌>>=◌, length-append,
}
use correct_gps.Tools.Chars.{is_space, c_str}
use correct_gps.Tools.Trim.{strtrim, StartsDense, EndsDense}

-- LINE_MAX_LEN
abbrev pub line_max_len : ℕ
line_max_len = 400

abbrev pub KeyValMap : Type 0
KeyValMap = List (Bytes × Bytes)

abbrev pub str_eq : Bytes → Bytes → Bool
str_eq [] [] = true
str_eq [] (d ∷ t) = false
str_eq (c ∷ s) [] = false
str_eq (c ∷ s) (d ∷ t) = c == d && str_eq s t

-- std::map::find
unfoldable pub find : Bytes → KeyValMap → Option Bytes
find k [] = none
find k ((j, v) ∷ m) = if str_eq j k then some v else find k m

-- std::map::insert, which leaves the value of a key that is there.
unfoldable pub insert : Bytes → Bytes → KeyValMap → KeyValMap
insert k v [] = (k, v) ∷ []
insert k v ((j, w) ∷ m) = if str_eq j k then (j, w) ∷ m else (j, w) ∷ insert k v m

-- strchr (p, '='), as the texts before and behind the first '='.
pub split_at_eq : Bytes → Option (Bytes × Bytes)
split_at_eq [] = none
split_at_eq (c ∷ s) =
    if c == b'='
    then some ([], s)
    else elim (split_at_eq s) [ none ↦ none | some (k, v) ↦ some (c ∷ k, v) ]

-- The line that is left once it is trimmed: empty, a comment, or an item. Where there is no '=',
-- strchr gives NULL, and the code writes through it.
pub trimmed_item : Bytes → KeyValMap → Run (ℕ × KeyValMap)
trimmed_item [] kvmap = ok (1, kvmap)
trimmed_item (c ∷ s) kvmap = if c == b'#' then ok (2, kvmap) else elim (split_at_eq (c ∷ s)) [
  | none ↦ fault null_pointer
  | some (k, v) ↦ ok (0, insert k v kvmap)
]

unfoldable pub get_item_from_line : Bytes → KeyValMap → Run (ℕ × KeyValMap)
unfolding trimmed_item split_at_eq insert
get_item_from_line line kvmap = strtrim line >>= λ p. trimmed_item p kvmap

-- fgets: up to `room` bytes of the file, as far as the first newline, and what is left.
pub fgets : ℕ → Bytes → Bytes × Bytes
fgets zero file = ([], file)
fgets (suc room) [] = ([], [])
fgets (suc room) (c ∷ file) =
    let (line, rest) = fgets room file in if c == b'\n' then (c ∷ [], file) else (c ∷ line, rest)

-- The loop over the lines, on fuel. fgets leaves room for the terminating NUL.
unfoldable pub read_items : ℕ → Bytes → KeyValMap → Run KeyValMap
read_items zero file kvmap = ok kvmap
read_items (suc fuel) [] kvmap = ok kvmap
read_items (suc fuel) (c ∷ file) kvmap =
    let (line, rest) = fgets (line_max_len - 2) (c ∷ file) in
    do (status, kvmap') ← get_item_from_line (c_str line) kvmap; read_items fuel rest kvmap'

-- The contents of the file, or none where it cannot be opened.
unfoldable pub file_to_items : Option Bytes → KeyValMap → Run (ℕ × KeyValMap)
unfolding read_items get_item_from_line fgets
file_to_items none kvmap = ok (1, kvmap)
file_to_items (some file) kvmap = do kvmap' ← read_items (length file) file kvmap; ok (0, kvmap')
