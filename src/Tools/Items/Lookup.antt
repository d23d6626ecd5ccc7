-- ===== src/Tools/Items/Lookup.antt =====
-- What is found in a map that items are inserted into.
use correct_gps.Base.{
  ◌≡◌, refl, ap, ◌∙◌, List, [], ◌∷◌, Bytes, Option, none, some, if◌then◌else◌, arith,
}
use correct_gps.Tools.Items.{KeyValMap, str_eq, find, insert}
use correct_gps.Tools.Items.Laws.{find-insert}
use correct_gps.Tools.Items.File.{Item, key, insert_all}

-- The value of the first item with the key.
abbrev pub first_value : List Item → Bytes → Option Bytes
first_value [] k = none
first_value (e ∷ es) k = if str_eq (key e) k then some e.value else first_value es k

abbrev or_else : Option Bytes → Option Bytes → Option Bytes
or_else none o = o
or_else (some v) o = some v

find-insert_all :
    (es : List Item) (m : KeyValMap) (k : Bytes)
    → find k (insert_all es m) ≡ or_else (find k m) (first_value es k)
find-insert_all [] m k = ground arith
find-insert_all (e ∷ es) m k =
    ground (arith, find-insert_all es (insert (key e) e.value m) k, find-insert (key e) k e.value m)

find_nil : (k : Bytes) → find k [] ≡ none
unfolding find
find_nil k = refl

pub find_first : (es : List Item) (k : Bytes) → find k (insert_all es []) ≡ first_value es k
find_first es k = find-insert_all es [] k ∙ ap (λ o. or_else o (first_value es k)) (find_nil k)
