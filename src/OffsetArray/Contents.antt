-- ===== src/OffsetArray/Contents.antt =====
-- Which entries `append` keeps, and adds, and where it leaves the array.
use correct_gps.Base.{
  ℕ, ◌+◌, ◌-◌, ◌≤◌, ◌<◌, ◌≡◌, ◌≢◌, ◌⊎◌, inl, inr, arith, Ensures, Ensures-map, fault, out_of_bounds,
  Bool-cases, ltb,
}
use correct_gps.OffsetArray.{OffsetData, OffsetArray, append, append_at, array_count, find_slot}
use correct_gps.OffsetArray.Slots.{IsAscending, Holds, find_slot-le, find_slot-at}
use correct_gps.OffsetArray.Order.{Appended, inserted, repeated, IsNearEnd, append-Appended}

module _ {D : Type 0} where
  pub Appended-Holds :
      {a b : OffsetArray D} {e o : OffsetData D} → Appended a e b → Holds a o → Holds b o
  Appended-Holds (repeated t h s same) (i, below, is) = (i, ground arith, ground arith)
  Appended-Holds (inserted p w) (i, below, is) = elim (Bool-cases (ltb i p)) [
    | inl left ↦ (i, ground (arith, w.before i), ground (arith, w.before i))
    | inr right ↦ (i + 1, ground arith, ground (arith, w.after (i + 1)))
  ]

  Appended-new :
      {a b : OffsetArray D} {e : OffsetData D}
      → Appended a e b
      → Holds b e ⊎ ((i : ℕ) × (i < a.index) × ((a.arraylng i).x ≡ e.x))
  Appended-new (repeated t h s same) = inr (t, omega arith, s)
  Appended-new (inserted p w) = inl (p, ground arith, w.at)

  -- With room left, a key not below the first and at most the last key above it, `append` ends with
  -- no fault, keeps every entry that the array holds, and then holds the new entry unless its key was
  -- there before.
  pub append-Holds :
      (a : OffsetArray D) (e : OffsetData D)
      → a.index < array_count
      → (a.arraylng 0).x ≤ e.x
      → IsNearEnd a e
      → Ensures (append a e) (λ b.
        ((o : OffsetData D) → Holds a o → Holds b o)
        × (Holds b e ⊎ ((i : ℕ) × (i < a.index) × ((a.arraylng i).x ≡ e.x))))
  append-Holds a e room le near =
      Ensures-map _ _ (append a e) (λ b w. ((λ o. Appended-Holds w), Appended-new w))
        (append-Appended a e room le near)

  -- A full array with ascending keys has no room for a new key between two of them: the copy runs
  -- past its end.
  append_full-out_of_bounds :
      (a : OffsetArray D) (e : OffsetData D) (k : ℕ)
      → a.index ≡ array_count
      → (a.arraylng 0).x ≤ e.x
      → k < a.index
      → e.x < (a.arraylng k).x
      → IsAscending a
      → ((i : ℕ) → i < a.index → (a.arraylng i).x ≢ e.x)
      → append a e ≡ fault out_of_bounds
  unfolding append append_at
  append_full-out_of_bounds a e k full le below above asc new =
      let t = find_slot a.arraylng e.x (a.index - 1) in
      ground (
        arith,
        find_slot-le a.arraylng e.x (a.index - 1),
        find_slot-at a.arraylng e.x (a.index - 1) le,
        new t,
        asc k t,
        asc k (a.index - 1),
      )
