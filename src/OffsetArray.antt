-- ===== src/OffsetArray.antt =====
-- CXArray (src/CXArray.h, src/CXArray.cpp, the USE_ARRAY build): the longitude entries of one
-- latitude, in an array of fixed size that is meant to be kept in the order of its keys. `D` is the
-- type of doubles; the array only stores and subtracts them.
pub mod Slots
pub mod Order
pub mod Contents
pub mod Lookup
pub mod Linear
pub mod Table
mod Examples
use correct_gps.Base.{
  ℕ, zero, suc, ◌+◌, ◌-◌, ◌%◌, ◌^◌, Bool, true, false, ◌&&◌, Option, none, some, Cells, write, copy,
  ◌>>=◌, ltb, ◌==◌, if◌then◌else◌, Run, ok, fault, out_of_bounds,
}

-- ARRAY_COUNT
abbrev pub array_count : ℕ
array_count = 6600

-- Coffsetdata
pub record OffsetData (D : Type 0) : Type 0 where
  pub x : ℕ
  pub dx : D
  pub dy : D

-- CPOI
pub record Poi (D : Type 0) : Type 0 where
  pub dx : D
  pub dy : D

pub record OffsetArray (D : Type 0) : Type 0 where
  pub arraylng : Cells (OffsetData D)
  pub index : ℕ

-- key - first, as unsigned int
abbrev pub sub_u32 : ℕ → ℕ → ℕ
sub_u32 a b = (a + 2 ^ 32 - b) % 2 ^ 32

module _ {D : Type 0} where
  -- The constructor: `zero_entry` is what memset leaves in each slot.
  unfoldable pub new_array : OffsetData D → OffsetArray D
  new_array zero_entry = record { arraylng = λ k. zero_entry; index = 0 }

  -- The loop that walks down from `tindex` while the key there is above x, and stops at slot 0.
  pub find_slot : Cells (OffsetData D) → ℕ → ℕ → ℕ
  find_slot slots x zero = zero
  find_slot slots x (suc t) = elim (ltb x (slots (suc t)).x) [
    | true ↦ find_slot slots x t
    | false ↦ suc t
  ]

  -- The write behind slot t, with its guard against the end of the array.
  pub put_after : OffsetArray D → Cells (OffsetData D) → ℕ → OffsetData D → OffsetArray D
  put_after a slots t e =
      if ltb t (array_count - 1)
      then record a { arraylng = write slots (t + 1) e; index = a.index + 1 }
      else record a { arraylng = slots }

  -- What `append` does once the walk has stopped at slot t. The second memcpy ends at slot `index`.
  unfoldable pub append_at : OffsetArray D → OffsetData D → ℕ → Run (OffsetArray D)
  unfolding put_after
  append_at a e t =
      if t == 0 && ltb e.x (a.arraylng t).x
      then (copy a.arraylng (t + 1) t (a.index - t - 1) >>= λ slots.
          ok (record a { arraylng = write slots t e; index = a.index + 1 }))
      else if t == a.index - 1
      then ok (put_after a a.arraylng t e)
      else if (a.arraylng t).x == e.x
      then ok a
      else if ltb array_count (a.index + 1)
      then fault out_of_bounds
      else (copy a.arraylng (t + 2) (t + 1) (a.index - t - 1) >>= λ slots.
          ok (put_after a slots t e))

  unfoldable pub append : OffsetArray D → OffsetData D → Run (OffsetArray D)
  unfolding append_at find_slot
  append a e =
      if a.index == 0
      then ok (record { arraylng = write a.arraylng 0 e; index = 1 })
      else if ltb array_count a.index
      then fault out_of_bounds
      else append_at a e (find_slot a.arraylng e.x (a.index - 1))

  pub getcount : OffsetArray D → ℕ
  getcount a = a.index

  -- The loop over the slots from i on, with n slots left.
  pub search_slots : Cells (OffsetData D) → ℕ → ℕ → ℕ → Option ℕ
  search_slots slots key i zero = none
  search_slots slots key i (suc n) = elim (key == (slots i).x) [
    | true ↦ some i
    | false ↦ search_slots slots key (i + 1) n
  ]

  -- gpsxy = baiduxy less the offsets of slot i
  unfoldable pub shift : (D → D → D) → Poi D → OffsetData D → Poi D
  shift sub baidu e = record { dx = sub baidu.dx e.dx; dy = sub baidu.dy e.dy }

  -- `gpsxy` is what it was on the stack, where no slot has the key.
  pub from_slot : (D → D → D) → OffsetArray D → Poi D → Poi D → Option ℕ → Poi D
  from_slot sub a gpsxy baidu none = gpsxy
  from_slot sub a gpsxy baidu (some i) = shift sub baidu (a.arraylng i)

  -- The slot at the distance of the key from the first key is tried before the search.
  unfoldable pub get_gpsxy : (D → D → D) → OffsetArray D → Poi D → Poi D → ℕ → Run (Poi D)
  unfolding search_slots shift from_slot
  get_gpsxy sub a gpsxy baidu key =
      let i = sub_u32 key (a.arraylng 0).x in
      if ltb i array_count
      then ok (
          from_slot sub a gpsxy baidu
            (if key == (a.arraylng i).x then some i else search_slots a.arraylng key 0 array_count))
      else fault out_of_bounds
