-- ===== src/OffsetArray/Slots.antt =====
-- Where the walk of `append` stops, and what the array holds.
use correct_gps.Base.{ℕ, zero, suc, ◌≤◌, ◌<◌, ◌≡◌, ◌⊎◌, arith, Cells}
use correct_gps.OffsetArray.{OffsetData, OffsetArray, find_slot}

module _ {D : Type 0} where
  -- The keys never fall along the slots in use.
  abbrev pub IsAscending : OffsetArray D → Type 0
  IsAscending a = (i j : ℕ) → i ≤ j → j < a.index → (a.arraylng i).x ≤ (a.arraylng j).x

  -- An entry stands in a slot in use.
  abbrev pub Holds : OffsetArray D → OffsetData D → Type 0
  Holds a e = (i : ℕ) × (i < a.index) × (a.arraylng i ≡ e)

  pub find_slot-le : (s : Cells (OffsetData D)) (x t : ℕ) → find_slot s x t ≤ t
  unfolding find_slot
  find_slot-le s x zero = omega arith
  find_slot-le s x (suc t) = ground (arith, find_slot-le s x t)

  -- All slots behind the stop have larger keys.
  pub find_slot-above :
      (s : Cells (OffsetData D)) (x t k : ℕ) → find_slot s x t < k → k ≤ t → x < (s k).x
  unfolding find_slot
  find_slot-above s x zero k h b = absurd (omega arith)
  find_slot-above s x (suc t) k h b =
      let c : (k ≤ t) ⊎ (k ≡ suc t) = omega arith in ground (arith, find_slot-above s x t k)

  -- It stops no earlier than at a key that is not larger.
  pub find_slot-ge :
      (s : Cells (OffsetData D)) (x t k : ℕ) → (s k).x ≤ x → k ≤ t → k ≤ find_slot s x t
  unfolding find_slot
  find_slot-ge s x zero k h b = b
  find_slot-ge s x (suc t) k h b =
      let c : (k ≤ t) ⊎ (k ≡ suc t) = omega arith in ground (arith, find_slot-ge s x t k)

  -- The key where it stops is not larger, if the first is not.
  pub find_slot-at :
      (s : Cells (OffsetData D)) (x t : ℕ) → (s 0).x ≤ x → (s (find_slot s x t)).x ≤ x
  unfolding find_slot
  find_slot-at s x zero h = h
  find_slot-at s x (suc t) h = ground (arith, find_slot-at s x t h)
