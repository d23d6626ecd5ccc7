-- ===== src/Tools/Items/Laws.antt =====
-- The laws of the map of items.
use correct_gps.Base.{
  ◌≡◌, refl, true, [], ◌∷◌, Bytes, Option, none, some, arith, if◌then◌else◌, ◌↔◌,
}
use correct_gps.Tools.Items.{KeyValMap, str_eq, find, insert}

str_eq→≡ : (s t : Bytes) → str_eq s t ≡ true → s ≡ t
str_eq→≡ [] [] h = refl
str_eq→≡ [] (d ∷ t) h = cc
str_eq→≡ (c ∷ s) [] h = cc
str_eq→≡ (c ∷ s) (d ∷ t) h = ground (arith, str_eq→≡ s t)

pub str_eq_refl : (s : Bytes) → str_eq s s ≡ true
str_eq_refl [] = refl
str_eq_refl (c ∷ s) = ground (arith, str_eq_refl s)

pub str_eq_iff : (s t : Bytes) → (str_eq s t ≡ true) ↔ (s ≡ t)
str_eq_iff s t = (str_eq→≡ s t, λ e. rw e (str_eq_refl t))

-- What is there already, or else the new value under its key.
abbrev pub or_new : Option Bytes → Bytes → Bytes → Bytes → Option Bytes
or_new (some w) k v j = some w
or_new none k v j = if str_eq k j then some v else none

-- An insertion gives its key a value where it had none, and changes no other entry.
pub find-insert : (k j v : Bytes) (m : KeyValMap) → find j (insert k v m) ≡ or_new (find j m) k v j
unfolding find insert
find-insert k j v [] = refl
find-insert k j v ((i, w) ∷ m) =
    ground (arith, find-insert k j v m, str_eq_iff i k, str_eq_iff i j, str_eq_iff k j)
