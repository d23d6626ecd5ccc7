-- ===== src/OffsetArray/Linear.antt =====
-- `getGpsxy` against a plain search of the array.
use correct_gps.Base.{
  ℕ, ◌+◌, ◌^◌, ◌≤◌, ◌<◌, ◌≡◌, refl, sym, ap, ◌∙◌, arith, ok, fault, out_of_bounds, Cells,
  Bool-cases, ◌==◌, ltb, leb, ◌||◌, if◌then◌else◌, Option, none, some, inl, inr, true, false, Bool,
}
use correct_gps.OffsetArray.{
  OffsetData, OffsetArray, Poi, array_count, search_slots, get_gpsxy, from_slot, sub_u32,
}
use correct_gps.OffsetArray.Lookup.{Finds, search_slots-Finds}

module _ {D : Type 0} where
  -- No two slots of the array have the key.
  abbrev pub IsOnce : Cells (OffsetData D) → ℕ → Type 0
  IsOnce s key =
      (i j : ℕ) → i < array_count → j < array_count → (s i).x ≡ key → (s j).x ≡ key → i ≡ j

  -- The search from the first slot to the last.
  abbrev pub linear : (D → D → D) → OffsetArray D → Poi D → Poi D → ℕ → Poi D
  linear sub a gpsxy baidu key =
      from_slot sub a gpsxy baidu (search_slots a.arraylng key 0 array_count)

  search_slots-once :
      (s : Cells (OffsetData D)) (key i : ℕ)
      → IsOnce s key
      → i < array_count
      → (s i).x ≡ key
      → search_slots s key 0 array_count ≡ some i
  search_slots-once s key i once below here =
      by_result (search_slots s key 0 array_count) (search_slots-Finds s key 0 array_count)
    where
      by_result : (o : Option ℕ) → Finds s key 0 array_count o → o ≡ some i
      by_result none f = absurd (f i (omega arith) (omega arith) here)
      by_result (some r) f = ap some (once r i (omega arith) below f.2 here)

module _ {D : Type 0} (sub : D → D → D) (a : OffsetArray D) (gpsxy baidu : Poi D) (key : ℕ) where
  shortcut :
      IsOnce a.arraylng key
      → ltb (sub_u32 key (a.arraylng 0).x) array_count ≡ true
      → get_gpsxy sub a gpsxy baidu key ≡ ok (linear sub a gpsxy baidu key)
  unfolding get_gpsxy
  shortcut once inside = elim (Bool-cases (key == (a.arraylng (sub_u32 key (a.arraylng 0).x)).x)) [
    | inl hit ↦
        rw
          (
            inside,
            hit,
            search_slots-once a.arraylng key (sub_u32 key (a.arraylng 0).x) once (ground arith)
                (ground arith),
          )
          refl
    | inr miss ↦ rw (inside, miss) refl
  ]

  -- For a key of 32 bits that no two slots have, and a first key that is at least the size of the
  -- array below 2 ^ 32: the shortcut and the search behind it give what the plain search gives,
  -- except that a key below the first one, or the size of the array or more above it, is a read
  -- outside the array.
  pub get_gpsxy-linear :
      key < 2 ^ 32
      → (a.arraylng 0).x + array_count ≤ 2 ^ 32
      → IsOnce a.arraylng key
      → get_gpsxy sub a gpsxy baidu key ≡ (
          if ltb key (a.arraylng 0).x || leb ((a.arraylng 0).x + array_count) key
          then fault out_of_bounds
          else ok (linear sub a gpsxy baidu key))
  get_gpsxy-linear word first once =
      elim (Bool-cases (ltb (sub_u32 key (a.arraylng 0).x) array_count)) [
        | inl inside ↦
            shortcut once inside
            ∙ ap
                (λ (b : Bool). if b then fault out_of_bounds else ok (linear sub a gpsxy baidu key))
                (sym (near key (a.arraylng 0).x word first inside))
        | inr out ↦
            outside out
            ∙ ap
                (λ (b : Bool). if b then fault out_of_bounds else ok (linear sub a gpsxy baidu key))
                (sym (far key (a.arraylng 0).x word first out))
      ]
    where
      near :
          (k x : ℕ)
          → k < 2 ^ 32
          → x + array_count ≤ 2 ^ 32
          → ltb (sub_u32 k x) array_count ≡ true
          → (ltb k x || leb (x + array_count) k) ≡ false
      near k x w f t = ground arith

      far :
          (k x : ℕ)
          → k < 2 ^ 32
          → x + array_count ≤ 2 ^ 32
          → ltb (sub_u32 k x) array_count ≡ false
          → (ltb k x || leb (x + array_count) k) ≡ true
      far k x w f t = ground arith

      outside :
          ltb (sub_u32 key (a.arraylng 0).x) array_count ≡ false
          → get_gpsxy sub a gpsxy baidu key ≡ fault out_of_bounds
      outside out = unfold get_gpsxy in rw out refl
