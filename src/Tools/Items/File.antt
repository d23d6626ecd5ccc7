-- ===== src/Tools/Items/File.antt =====
-- A file that lists items, one to a line, is read back.
use correct_gps.Base.{
  ℕ, zero, suc, ◌-◌, ◌≤◌, ◌<◌, ◌≡◌, ◌≢◌, refl, List, [], ◌∷◌, ◌++◌, Bytes, some, length, All, arith,
  ◌∙◌, ok, length-append,
}
use correct_gps.Tools.Trim.{EndsDense}
use correct_gps.Tools.Items.{KeyValMap, line_max_len, insert, read_items, file_to_items}
use correct_gps.Tools.Items.Lines.{Lacks, IsKey, get_item_from_line-item, fgets-line, c_str-eq}

-- A key, which is not empty, and its value.
pub record Item : Type 0 where
  pub first : ℕ
  pub rest : Bytes
  pub value : Bytes

abbrev pub key : Item → Bytes
key e = e.first ∷ e.rest

-- The text of the line, as fprintf (fp, "%s=%s\n", ...) writes it, up to the newline.
abbrev pub line_of : Item → Bytes
line_of e = key e ++ b'=' ∷ e.value

-- An item that one line can hold.
pub record Fits (e : Item) : Type 0 where
  pub is_key : IsKey e.first e.rest
  pub ends : EndsDense (b'=' ∷ e.value)
  pub one_line : Lacks b'\n' (line_of e)
  pub no_nul : Lacks 0 (line_of e)
  pub short : length (line_of e) < line_max_len - 2

abbrev pub print_items : List Item → Bytes
print_items [] = []
print_items (e ∷ es) = line_of e ++ b'\n' ∷ print_items es

abbrev pub insert_all : List Item → KeyValMap → KeyValMap
insert_all [] m = m
insert_all (e ∷ es) m = insert_all es (insert (key e) e.value m)

Lacks-concat : (c d : ℕ) (s : Bytes) → Lacks c s → d ≢ c → Lacks c (s ++ d ∷ [])
Lacks-concat c d [] h e = (e, tt)
Lacks-concat c d (x ∷ s) h e = (h.0, Lacks-concat c d s h.1 e)

module _ (e : Item) (fits : Fits e) where
  read_items-line :
      (fuel : ℕ) (rest : Bytes) (m : KeyValMap)
      → read_items (suc fuel) (line_of e ++ b'\n' ∷ rest) m
        ≡ read_items fuel rest (insert (key e) e.value m)
  unfolding read_items
  read_items-line fuel rest m =
      rw
        (
          fgets-line (line_max_len - 2) (line_of e) rest fits.short fits.one_line,
          c_str-eq (line_of e ++ b'\n' ∷ [])
              (Lacks-concat 0 b'\n' (line_of e) fits.no_nul (λ h. omega arith)),
          get_item_from_line-item e.first e.rest e.value (b'\n' ∷ []) m fits.is_key fits.ends
              (refl, tt),
        )
        refl

read_items-print :
    (es : List Item) (fuel : ℕ) (m : KeyValMap)
    → All Fits es
    → length (print_items es) ≤ fuel
    → read_items fuel (print_items es) m ≡ ok (insert_all es m)
read_items-print [] zero m all enough = unfold read_items in refl
read_items-print [] (suc fuel) m all enough = unfold read_items in refl
read_items-print (e ∷ es) zero m all enough = absurd (omega arith)
read_items-print (e ∷ es) (suc fuel) m (fits, all) enough =
    read_items-line e fits fuel (print_items es) m
    ∙ read_items-print es fuel (insert (key e) e.value m) all (
        omega (
          arith,
          length-append e.rest (b'=' ∷ e.value),
          length-append (line_of e) (b'\n' ∷ print_items es),
        ))

-- A file that holds items, one to a line and each within the length of a line, is read with no
-- fault, and its items are inserted in turn.
pub file_to_items-print :
    (es : List Item) (m : KeyValMap)
    → All Fits es
    → file_to_items (some (print_items es)) m ≡ ok (0, insert_all es m)
unfolding file_to_items
file_to_items-print es m all =
    rw (read_items-print es (length (print_items es)) m all (omega arith))
