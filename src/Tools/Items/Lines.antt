-- ===== src/Tools/Items/Lines.antt =====
-- What is read from a line, and from a file of lines.
use correct_gps.Base.{
  ℕ, zero, suc, ◌<◌, ◌≡◌, ◌≢◌, refl, false, [], ◌∷◌, ◌++◌, Bytes, none, some, length, All, arith,
  ok, fault, null_pointer,
}
use correct_gps.Tools.Chars.{is_space, c_str}
use correct_gps.Tools.Trim.{EndsDense, AllSpace}
use correct_gps.Tools.Trim.Kept.{strtrim-append}
use correct_gps.Tools.Items.{KeyValMap, insert, split_at_eq, get_item_from_line, fgets}

-- A text without the character.
abbrev pub Lacks : ℕ → Bytes → Type 0
Lacks c = All (λ d. d ≢ c)

split_at_eq-key : (k v : Bytes) → Lacks b'=' k → split_at_eq (k ++ b'=' ∷ v) ≡ some (k, v)
unfolding split_at_eq
split_at_eq-key [] v h = refl
split_at_eq-key (c ∷ k) v h = ground (arith, split_at_eq-key k v h.1)

split_at_eq-none : (s : Bytes) → Lacks b'=' s → split_at_eq s ≡ none
unfolding split_at_eq
split_at_eq-none [] h = refl
split_at_eq-none (c ∷ s) h = ground (arith, split_at_eq-none s h.1)

-- A key that can be written in front of '='.
pub record IsKey (c : ℕ) (k : Bytes) : Type 0 where
  pub lacks_eq : Lacks b'=' (c ∷ k)
  pub no_comment : c ≢ b'#'
  pub starts : is_space c ≡ false

-- EndsDense over a join.
EndsDense-append : (s : Bytes) (c : ℕ) (t : Bytes) → EndsDense (c ∷ t) → EndsDense (s ++ c ∷ t)
EndsDense-append [] c t h = h
EndsDense-append (d ∷ []) c t h = h
EndsDense-append (d ∷ e ∷ s) c t h = EndsDense-append (e ∷ s) c t h

-- A line with a key, '=' and a value that does not end in space, and space behind them, gives just
-- that item.
pub get_item_from_line-item :
    (c : ℕ) (k v space : Bytes) (kvmap : KeyValMap)
    → IsKey c k
    → EndsDense (b'=' ∷ v)
    → AllSpace space
    → get_item_from_line (((c ∷ k) ++ b'=' ∷ v) ++ space) kvmap ≡ ok (0, insert (c ∷ k) v kvmap)
unfolding get_item_from_line
get_item_from_line-item c k v space kvmap key ends spaces =
    rw
      (strtrim-append c (k ++ b'=' ∷ v) space key.starts (EndsDense-append (c ∷ k) b'=' v ends)
        spaces)
      (ground (arith, split_at_eq-key (c ∷ k) v key.lacks_eq, key.no_comment))

-- A line that is not empty, no comment and has no '=' makes the parser write through a null pointer.
get_item_from_line-null_pointer :
    (c : ℕ) (s space : Bytes) (kvmap : KeyValMap)
    → IsKey c s
    → EndsDense (c ∷ s)
    → AllSpace space
    → get_item_from_line ((c ∷ s) ++ space) kvmap ≡ fault null_pointer
unfolding get_item_from_line
get_item_from_line-null_pointer c s space kvmap key ends spaces =
    rw (strtrim-append c s space key.starts ends spaces)
      (ground (arith, split_at_eq-none (c ∷ s) key.lacks_eq, key.no_comment))

pub fgets-line :
    (room : ℕ) (line rest : Bytes)
    → length line < room
    → Lacks b'\n' line
    → fgets room (line ++ b'\n' ∷ rest) ≡ (line ++ b'\n' ∷ [], rest)
unfolding fgets
fgets-line zero line rest h l = absurd (omega arith)
fgets-line (suc room) [] rest h l = refl
fgets-line (suc room) (c ∷ line) rest h l =
    ground (arith, fgets-line room line rest (omega arith) l.1)

pub c_str-eq : (s : Bytes) → Lacks 0 s → c_str s ≡ s
unfolding c_str
c_str-eq [] h = refl
c_str-eq (c ∷ s) h = ground (arith, c_str-eq s h.1)
