-- ===== src/Tools/Values/Written.antt =====
-- A value that is written is read back.
use correct_gps.Base.{
  ℕ, ◌≡◌, refl, ap, sym, ◌∙◌, subst, Bool, true, false, List, [], ◌∷◌, Bytes, Option, none, some,
  if◌then◌else◌, arith, All, Run, ok, ◌>>=◌, Bool-cases, inl, inr,
}
use correct_gps.Tools.Items.{KeyValMap, str_eq, find, insert}
use correct_gps.Tools.Items.Laws.{str_eq_iff}
use correct_gps.Tools.Items.File.{Item, key, Fits, print_items, insert_all, file_to_items-print}
use correct_gps.Tools.Items.Lookup.{first_value, find_first}
use correct_gps.Tools.Values.{
  value_or, read_conf_value, assign, str_less, place, in_order, print_map, write_conf_value,
}

str_less-ne : (s t : Bytes) → str_less s t ≡ true → str_eq s t ≡ false
str_less-ne [] [] h = cc
str_less-ne [] (d ∷ t) h = refl
str_less-ne (c ∷ s) [] h = refl
str_less-ne (c ∷ s) (d ∷ t) h = ground (arith, str_less-ne s t)

find-place : (i k v : Bytes) (m : KeyValMap) → find i (place k v m) ≡ find i ((k, v) ∷ m)
unfolding find place
find-place i k v [] = refl
find-place i k v ((j, w) ∷ m) =
    ground
      (arith, find-place i k v m, str_less-ne j k, str_eq_iff j i, str_eq_iff k i, str_eq_iff j k)

find-in_order : (i : Bytes) (m : KeyValMap) → find i (in_order m) ≡ find i m
unfolding find in_order
find-in_order i [] = refl
find-in_order i ((k, v) ∷ m) = ground (arith, find-place i k v (in_order m), find-in_order i m)

-- The value of a key that is there.
abbrev pub replaced : Option Bytes → Bytes → Option Bytes
replaced none v = none
replaced (some w) v = some v

find-assign :
    (i k v : Bytes) (m : KeyValMap)
    → find i (assign k v m) ≡ (if str_eq k i then replaced (find i m) v else find i m)
unfolding find assign
find-assign i k v [] = ground arith
find-assign i k v ((j, w) ∷ m) =
    ground (arith, find-assign i k v m, str_eq_iff j i, str_eq_iff k i, str_eq_iff j k)

-- An entry that one line can hold.
abbrev IsPrintable : Bytes × Bytes → Type 0
IsPrintable p = (e : Item) × (key e ≡ p.0) × (e.value ≡ p.1) × Fits e

AllPrintable : KeyValMap → Type 0
AllPrintable = All IsPrintable

either-AllPrintable :
    (b : Bool) (l m : KeyValMap)
    → AllPrintable l
    → AllPrintable m
    → AllPrintable (if b then l else m)
either-AllPrintable true l m h k = h
either-AllPrintable false l m h k = k

insert-AllPrintable :
    (k v : Bytes) (m : KeyValMap)
    → IsPrintable (k, v)
    → AllPrintable m
    → AllPrintable (insert k v m)
unfolding insert AllPrintable
insert-AllPrintable k v [] p h = (p, tt)
insert-AllPrintable k v ((j, w) ∷ m) p (q, h) =
    either-AllPrintable (str_eq j k) ((j, w) ∷ m) ((j, w) ∷ insert k v m) (q, h)
      (q, insert-AllPrintable k v m p h)

insert_all-AllPrintable :
    (es : List Item) (m : KeyValMap) → All Fits es → AllPrintable m → AllPrintable (insert_all es m)
insert_all-AllPrintable [] m fits h = h
insert_all-AllPrintable (e ∷ es) m (fit, fits) h =
    insert_all-AllPrintable es (insert (key e) e.value m) fits
      (insert-AllPrintable (key e) e.value m (e, refl, refl, fit) h)

place-AllPrintable :
    (k v : Bytes) (m : KeyValMap) → IsPrintable (k, v) → AllPrintable m → AllPrintable (place k v m)
unfolding place AllPrintable
place-AllPrintable k v [] p h = (p, tt)
place-AllPrintable k v ((j, w) ∷ m) p (q, h) =
    either-AllPrintable (str_less j k) ((j, w) ∷ place k v m) ((k, v) ∷ (j, w) ∷ m)
      (q, place-AllPrintable k v m p h) (p, (q, h))

in_order-AllPrintable : (m : KeyValMap) → AllPrintable m → AllPrintable (in_order m)
unfolding in_order AllPrintable
in_order-AllPrintable [] h = tt
in_order-AllPrintable ((k, v) ∷ m) (p, h) =
    place-AllPrintable k v (in_order m) p (in_order-AllPrintable m h)

assign-AllPrintable :
    (k v : Bytes) (m : KeyValMap)
    → IsPrintable (k, v)
    → AllPrintable m
    → AllPrintable (assign k v m)
unfolding assign AllPrintable
assign-AllPrintable k v [] p h = tt
assign-AllPrintable k v ((j, w) ∷ m) p (q, h) = elim (Bool-cases (str_eq j k)) [
  | inl same ↦ rw same (subst (λ i. IsPrintable (i, v)) (sym ((str_eq_iff j k).0 same)) p, h)
  | inr other ↦ rw other (q, assign-AllPrintable k v m p h)
]

-- The items that stand for the entries of a map.
StandFor : List Item → KeyValMap → Type 0
StandFor es m =
    (print_map m ≡ print_items es) × All Fits es × ((j : Bytes) → first_value es j ≡ find j m)

items_of : (m : KeyValMap) → AllPrintable m → (es : List Item) × StandFor es m
unfolding AllPrintable StandFor print_map find
items_of [] h = ([], (refl, tt, λ j. refl))
items_of ((k, v) ∷ m) ((e, k_is, v_is, fit), h) =
    let (es, (printed, fits, found)) = items_of m h in
    (
      e ∷ es,
      (
        rw (sym k_is, sym v_is, printed) refl,
        (fit, fits),
        λ j. rw (sym k_is, sym v_is, found j) refl,
      ),
    )

-- What is read from a file that a map has been printed into.
read-printed :
    (m : KeyValMap) (j old : Bytes)
    → AllPrintable m
    → read_conf_value j old (some (print_map m)) [] ≡ ok (value_or old (find j m))
unfolding read_conf_value StandFor
read-printed m j old h =
    let (es, (printed, fits, found)) = items_of m h in
    rw (printed, file_to_items-print es [] fits, find_first es j, found j) refl

-- What is read behind write_conf_value, from the file that it leaves.
abbrev pub read_back : Bytes → Bytes → Run (ℕ × Option Bytes) → Run Bytes
read_back j old r = r >>= λ w. read_conf_value j old w.1 []

-- In a file that holds items, one to a line and each within the length of a line, a value that
-- fits its line is written for a key: what is read for this key from then on is the new value
-- where the file had the key, and nothing where it had not, since the key is not added. For every
-- other key the same is read as before.
pub read_conf_value-write_conf_value :
    (es : List Item) (e : Item) (j old : Bytes)
    → All Fits es
    → Fits e
    → read_back j old (write_conf_value (key e) e.value (some (print_items es)) true [])
      ≡ ok (
          value_or old
            (if str_eq (key e) j then replaced (first_value es j) e.value else first_value es j))
unfolding write_conf_value
read_conf_value-write_conf_value es e j old fits fit =
    let before : AllPrintable (insert_all es []) =
      insert_all-AllPrintable es [] fits (unfold AllPrintable in tt) in
    let m : KeyValMap = assign (key e) e.value (insert_all es []) in
    let after : AllPrintable m =
      assign-AllPrintable (key e) e.value (insert_all es []) (e, refl, refl, fit) before in
    let found : find j (in_order m)
        ≡ (if str_eq (key e) j then replaced (first_value es j) e.value else first_value es j) =
      rw (find-in_order j m, find-assign j (key e) e.value (insert_all es []), find_first es j)
        refl in
    rw (file_to_items-print es [] fits) (
      read-printed (in_order m) j old (in_order-AllPrintable m after)
      ∙ ap (λ o. ok (value_or old o)) found)
