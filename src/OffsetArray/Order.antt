-- ===== src/OffsetArray/Order.antt =====
-- What `append` does to the slots, and the order of the keys under it.
use correct_gps.Base.{
  Ensures-map, ℕ, ◌+◌, ◌-◌, ◌≤◌, ◌<◌, ◌≡◌, ◌≢◌, fault, overlapping, refl, inl, inr, arith,
  Bool-cases, ◌==◌, false, ◌&&◌, ltb, write, move, Ensures, ok,
}
use correct_gps.OffsetArray.{OffsetData, OffsetArray, append, append_at, array_count, find_slot}
use correct_gps.OffsetArray.Slots.{
  IsAscending, find_slot-le, find_slot-ge, find_slot-above, find_slot-at,
}

-- `b` is `a` with the entry at slot p, and the slots in use from p on moved up by one. The keys
-- behind p are larger than the new one, and the key before p is not.
pub record InsertedAt {D : Type 0} (a b : OffsetArray D) (e : OffsetData D) (p : ℕ) : Type 0 where
  pub inside : p ≤ a.index
  pub count : b.index ≡ a.index + 1
  pub before : (k : ℕ) → k < p → b.arraylng k ≡ a.arraylng k
  pub at : b.arraylng p ≡ e
  pub after : (k : ℕ) → p < k → k ≤ a.index → b.arraylng k ≡ a.arraylng (k - 1)
  pub beyond : (k : ℕ) → a.index < k → b.arraylng k ≡ a.arraylng k
  pub larger : (k : ℕ) → p ≤ k → k < a.index → e.x < (a.arraylng k).x
  pub not_larger : (k : ℕ) → k + 1 ≡ p → (a.arraylng k).x ≤ e.x

-- The new entry is inserted, or its key stands before the last slot already and nothing changes.
pub data Appended {D : Type 0} (a : OffsetArray D) (e : OffsetData D) (b : OffsetArray D)
    : Type 0 where
  inserted : (p : ℕ) → InsertedAt a b e p → Appended a e b
  repeated : (t : ℕ) → t + 1 < a.index → (a.arraylng t).x ≡ e.x → b ≡ a → Appended a e b

module _ {D : Type 0} (a : OffsetArray D) (e : OffsetData D) where
  -- The array that holds the entry behind slot t, with n slots moved up.
  grown : ℕ → ℕ → OffsetArray D
  grown t n = record {
    arraylng = write (move a.arraylng (t + 2) (t + 1) n) (t + 1) e;
    index = a.index + 1;
  }

  append_at-grown :
      (t : ℕ)
      → t < a.index
      → a.index < array_count
      → (a.arraylng t).x ≤ e.x
      → ((a.arraylng t).x ≡ e.x → t + 1 ≡ a.index)
      → a.index ≤ t + 2
      → append_at a e t ≡ ok (grown t (a.index - t - 1))
  unfolding append_at grown
  append_at-grown t below room le same near = elim (Bool-cases (t == a.index - 1)) [
    | inl last ↦ ground arith
    | inr inner ↦ ground arith
  ]

  grown-InsertedAt :
      (t : ℕ)
      → t < a.index
      → (a.arraylng t).x ≤ e.x
      → ((k : ℕ) → t < k → k ≤ a.index - 1 → e.x < (a.arraylng k).x)
      → InsertedAt a (grown t (a.index - t - 1)) e (t + 1)
  unfolding grown
  grown-InsertedAt t below le above = record {
    inside = omega arith;
    count = refl;
    before = λ k h. ground arith;
    at = ground arith;
    after = λ k h b. ground arith;
    beyond = λ k h. ground arith;
    larger = λ k h b. above k (omega arith) (omega arith);
    not_larger = λ k h. ground arith;
  }

  append_at-repeated : (t : ℕ) → t + 1 < a.index → (a.arraylng t).x ≡ e.x → append_at a e t ≡ ok a
  unfolding append_at
  append_at-repeated t below same = ground arith

  first-InsertedAt :
      a.index ≡ 0 → InsertedAt a (record { arraylng = write a.arraylng 0 e; index = 1 }) e 0
  first-InsertedAt empty = record {
    inside = omega arith;
    count = omega arith;
    before = λ k h. absurd (omega arith);
    at = ground arith;
    after = λ k h b. absurd (omega arith);
    beyond = λ k h. ground arith;
    larger = λ k h b. absurd (omega arith);
    not_larger = λ k h. absurd (omega arith);
  }

  append_at-Appended :
      (t : ℕ)
      → t < a.index
      → a.index < array_count
      → (a.arraylng t).x ≤ e.x
      → ((k : ℕ) → t < k → k ≤ a.index - 1 → e.x < (a.arraylng k).x)
      → a.index ≤ t + 2
      → Ensures (append_at a e t) (Appended a e)
  append_at-Appended t below room le above near =
      elim (Bool-cases (ltb (t + 1) a.index && (a.arraylng t).x == e.x)) [
        | inl again ↦
            rw (append_at-repeated t (ground arith) (ground arith))
              (repeated t (ground arith) (ground arith) refl)
        | inr new ↦
            rw (append_at-grown t below room le (λ same. ground arith) near)
              (inserted (t + 1) (grown-InsertedAt t below le above))
      ]

  -- At most the last key is larger than the new one.
  abbrev pub IsNearEnd : Type 0
  IsNearEnd = 2 ≤ a.index → (a.arraylng (a.index - 2)).x ≤ e.x

  -- With room left, a key not below the first and at most one key above it, `append` ends with no
  -- fault, and inserts the entry behind the last key that is not larger unless it finds its key
  -- before the last slot.
  pub append-Appended :
      a.index < array_count
      → (a.arraylng 0).x ≤ e.x
      → IsNearEnd
      → Ensures (append a e) (Appended a e)
  unfolding append
  append-Appended room le near = elim (Bool-cases (a.index == 0)) [
    | inl empty ↦ rw empty (inserted 0 (first-InsertedAt (ground arith)))
    | inr used ↦
        let t = find_slot a.arraylng e.x (a.index - 1) in
        let small : ltb array_count a.index ≡ false = ground arith in
        rw (used, small)
          (append_at-Appended t (ground (arith, find_slot-le a.arraylng e.x (a.index - 1))) room
            (find_slot-at a.arraylng e.x (a.index - 1) le)
            (find_slot-above a.arraylng e.x (a.index - 1))
            (ground (arith, near, find_slot-ge a.arraylng e.x (a.index - 1) (a.index - 2))))
  ]

module _ {D : Type 0} {a b : OffsetArray D} {e : OffsetData D} where
  -- The keys of `b` are in ascending order if those of `a` are.
  Appended-IsAscending : IsAscending a → Appended a e b → IsAscending b
  Appended-IsAscending asc (repeated t h s same) = λ i j. ground (arith, asc i j)
  Appended-IsAscending asc (inserted p w) = λ i j le below. ground (
    arith,
    w.before i,
    w.before j,
    w.after i,
    w.after j,
    w.larger (j - 1),
    w.not_larger (p - 1),
    asc i j,
    asc i (p - 1),
    asc i (j - 1),
    asc (i - 1) (j - 1),
  )

-- Where the keys ascend, there is room left, the new key is not below the first, and at most the
-- last key is larger than it, `append` ends with no fault and leaves the keys in ascending order.
pub append-IsAscending :
    {D : Type 0} (a : OffsetArray D) (e : OffsetData D)
    → IsAscending a
    → a.index < array_count
    → (a.arraylng 0).x ≤ e.x
    → IsNearEnd a e
    → Ensures (append a e) IsAscending
append-IsAscending a e asc room le near =
    Ensures-map _ _ (append a e) (λ b. Appended-IsAscending asc) (append-Appended a e room le near)

-- Where the keys ascend and there is room left, the new key is not below the first, no key is the
-- same, and two keys or more are larger than it, `append` copies slots onto slots that it copies, and
-- faults: memcpy does not say what they hold then.
pub append-overlaps :
    {D : Type 0} (a : OffsetArray D) (e : OffsetData D)
    → IsAscending a
    → a.index < array_count
    → 3 ≤ a.index
    → (a.arraylng 0).x ≤ e.x
    → e.x < (a.arraylng (a.index - 2)).x
    → ((i : ℕ) → i < a.index → (a.arraylng i).x ≢ e.x)
    → append a e ≡ fault overlapping
unfolding append append_at
append-overlaps a e asc room some_used le above new =
    let t = find_slot a.arraylng e.x (a.index - 1) in
    ground (
      arith,
      find_slot-le a.arraylng e.x (a.index - 1),
      find_slot-at a.arraylng e.x (a.index - 1) le,
      new t,
      asc (a.index - 2) t,
    )
