-- ===== src/OffsetArray/Lookup.antt =====
-- `getGpsxy`: the shortcut to a slot and the search behind it.
use correct_gps.Base.{
  ℕ, zero, suc, ◌+◌, ◌^◌, ◌≤◌, ◌<◌, ◌≡◌, ◌≢◌, refl, ◌⊎◌, inl, inr, arith, Ensures, fault,
  out_of_bounds, Cells, Bool-cases, ◌==◌, ltb, Option, none, some, ◌↔◌, true, false,
}
use correct_gps.OffsetArray.{
  OffsetData, OffsetArray, Poi, array_count, search_slots, get_gpsxy, shift, from_slot, sub_u32,
}

module _ {D : Type 0} where
  -- What the search over n slots from i on tells.
  abbrev pub Finds : Cells (OffsetData D) → ℕ → ℕ → ℕ → Option ℕ → Type 0
  Finds s key i n none = (k : ℕ) → i ≤ k → k < i + n → (s k).x ≢ key
  Finds s key i n (some r) = (i ≤ r) × (r < i + n) × ((s r).x ≡ key)

  pub search_slots-Finds :
      (s : Cells (OffsetData D)) (key i n : ℕ) → Finds s key i n (search_slots s key i n)
  unfolding search_slots
  search_slots-Finds s key i zero = λ k p q. absurd (omega arith)
  search_slots-Finds s key i (suc n) = elim (Bool-cases (key == (s i).x)) [
    | inl here ↦ rw (here, search_slots) (omega arith, omega arith, ground arith)
    | inr on ↦
        rw (on, search_slots)
          (later (search_slots s key (i + 1) n) (search_slots-Finds s key (i + 1) n) (ground arith))
  ]
    where
      later : (r : Option ℕ) → Finds s key (i + 1) n r → (s i).x ≢ key → Finds s key i (suc n) r
      later none f ne = λ k p q. ground (arith, f k)
      later (some r) f ne = (omega arith, omega arith, f.2)

  -- The answer to a key: the shift by an entry that has it, or what `gpsxy` was before, where none
  -- of the slots of the array has it.
  pub data Answers (sub : D → D → D) (a : OffsetArray D) (gpsxy baidu : Poi D) (key : ℕ) (r : Poi D)
      : Type 0 where
    found :
        (i : ℕ)
        → i < array_count
        → (a.arraylng i).x ≡ key
        → r ≡ shift sub baidu (a.arraylng i)
        → Answers sub a gpsxy baidu key r
    unset :
        ((k : ℕ) → k < array_count → (a.arraylng k).x ≢ key)
        → r ≡ gpsxy
        → Answers sub a gpsxy baidu key r

module _ {D : Type 0} (sub : D → D → D) (a : OffsetArray D) (gpsxy baidu : Poi D) (key : ℕ) where
  -- For a key of 32 bits, and a first key that is at least the size of the array below 2 ^ 32, the
  -- shortcut reads outside the array exactly if the key is below the first one, or the size of the
  -- array or more above it.
  pub get_gpsxy-out_of_bounds :
      key < 2 ^ 32
      → (a.arraylng 0).x + array_count ≤ 2 ^ 32
      → (get_gpsxy sub a gpsxy baidu key ≡ fault out_of_bounds)
        ↔ ((key < (a.arraylng 0).x) ⊎ ((a.arraylng 0).x + array_count ≤ key))
  unfolding get_gpsxy
  get_gpsxy-out_of_bounds word first =
      elim (Bool-cases (ltb (sub_u32 key (a.arraylng 0).x) array_count)) [
        | inl inside ↦ rw inside (λ h. cc, λ h. absurd (outside inside h))
        | inr out ↦ rw out (λ h. far out, λ h. refl)
      ]
    where
      outside :
          ltb (sub_u32 key (a.arraylng 0).x) array_count ≡ true
          → (key < (a.arraylng 0).x) ⊎ ((a.arraylng 0).x + array_count ≤ key)
          → ⊥
      outside t h = ground arith

      far :
          ltb (sub_u32 key (a.arraylng 0).x) array_count ≡ false
          → (key < (a.arraylng 0).x) ⊎ ((a.arraylng 0).x + array_count ≤ key)
      far t = ground arith

  search-Answers :
      (o : Option ℕ)
      → Finds a.arraylng key 0 array_count o
      → Answers sub a gpsxy baidu key (from_slot sub a gpsxy baidu o)
  unfolding from_slot
  search-Answers none f = unset (λ k h. f k (omega arith) h) refl
  search-Answers (some i) (lo, hi, same) = found i hi same refl

  -- For a key from the first one on, within the size of the array, `getGpsxy` ends with no fault.
  -- It shifts the position by an entry that has the key, and returns an unset value where none has.
  pub get_gpsxy-Answers :
      key < 2 ^ 32
      → (a.arraylng 0).x ≤ key
      → key < (a.arraylng 0).x + array_count
      → Ensures (get_gpsxy sub a gpsxy baidu key) (Answers sub a gpsxy baidu key)
  unfolding get_gpsxy
  get_gpsxy-Answers word lo hi = elim (Bool-cases (key == (a.arraylng i).x)) [
    | inl hit ↦ rw (inside, hit) (found i (ground arith) (ground arith) refl)
    | inr miss ↦
        rw (inside, miss)
          (search-Answers (search_slots a.arraylng key 0 array_count)
            (search_slots-Finds a.arraylng key 0 array_count))
  ]
    where
      i : ℕ
      i = sub_u32 key (a.arraylng 0).x

      inside : ltb i array_count ≡ true
      inside = ground arith
