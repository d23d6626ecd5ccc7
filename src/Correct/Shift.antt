-- ===== src/Correct/Shift.antt =====
-- What the worker makes of a request, by what the map holds for its cell.
use correct_gps.Base.{
  ℕ, ◌+◌, ◌^◌, ◌≤◌, ◌<◌, ◌≡◌, ◌≢◌, refl, ap, ◌∙◌, inl, some, none, Run, ok, fault, out_of_bounds,
  arith, Ensures, ◌>>=◌,
}
use correct_gps.OffsetArray.{OffsetData, OffsetArray, Poi, array_count, get_gpsxy, shift}
use correct_gps.OffsetArray.Lookup.{
  Answers, found, unset, get_gpsxy-Answers, get_gpsxy-out_of_bounds,
}
use correct_gps.Client.{Client}
use correct_gps.Tools.Coordinate.{chang2uint}
use correct_gps.Correct.{InfoMap, find_info, Doubles, baidu_of, correctgps_worker}

module _ {D : Type 0} where
  Ensures-bind :
      (P : Poi D → Type 0) (Q : Client D → Type 0) (r : Run (Poi D)) (f : Poi D → Client D)
      → ((gps : Poi D) → P gps → Q (f gps))
      → Ensures r P
      → Ensures (r >>= λ gps. ok (f gps)) Q
  Ensures-bind P Q (ok gps) f k h = k gps h
  Ensures-bind P Q (fault e) f k h = h

module _ {D : Type 0} (d : Doubles D) (m : InfoMap D) (gpsxy : Poi D) (c : Client D) (y : ℕ)
    (latitude : chang2uint c.ybaidu ≡ ok y) where
  -- A request whose latitude gives a key that is not in the map keeps its Baidu coordinates as the
  -- result, and is ready to be sent.
  pub correctgps_worker-unmapped :
      find_info y m ≡ none
      → correctgps_worker d m gpsxy c
        ≡ ok (record c { xgps = d.atof c.xbaidu; ygps = d.atof c.ybaidu; status = 2 })
  unfolding correctgps_worker
  correctgps_worker-unmapped missing = ground arith

  worker-found :
      (a : OffsetArray D) (x : ℕ)
      → find_info y m ≡ some a
      → chang2uint c.xbaidu ≡ ok x
      → correctgps_worker d m gpsxy c ≡ (
          get_gpsxy d.sub a gpsxy (baidu_of d c) x >>= λ gps.
          ok (record c { xgps = gps.dx; ygps = gps.dy; status = 2 }))
  unfolding correctgps_worker
  worker-found a x e longitude = ground arith

  -- Where the array of its latitude has the size for its longitude but no slot with it, a request
  -- gets what happened to be on the stack for its position, and is ready to be sent all the same.
  pub correctgps_worker-unset :
      (a : OffsetArray D) (x : ℕ)
      → find_info y m ≡ some a
      → chang2uint c.xbaidu ≡ ok x
      → x < 2 ^ 32
      → (a.arraylng 0).x ≤ x
      → x < (a.arraylng 0).x + array_count
      → ((k : ℕ) → k < array_count → (a.arraylng k).x ≢ x)
      → Ensures
          (correctgps_worker d m gpsxy c)
          (λ c'. (c'.xgps ≡ gpsxy.dx) × (c'.ygps ≡ gpsxy.dy) × (c'.status ≡ 2))
  correctgps_worker-unset a x e longitude word lo hi lacks = rw (worker-found a x e longitude) (
      Ensures-bind (Answers d.sub a gpsxy (baidu_of d c) x) _
        (get_gpsxy d.sub a gpsxy (baidu_of d c) x) _ result
        (get_gpsxy-Answers d.sub a gpsxy (baidu_of d c) x word lo hi))
    where
      result :
          (gps : Poi D)
          → Answers d.sub a gpsxy (baidu_of d c) x gps
          → (gps.dx ≡ gpsxy.dx) × (gps.dy ≡ gpsxy.dy) × (◌≡◌ {A = ℕ} 2 2)
      result gps (found i inside same is) = absurd (lacks i inside same)
      result gps (unset none_has is) =
          (ap (λ (p : Poi D). p.dx) is, ap (λ (p : Poi D). p.dy) is, refl)

  -- A request west of the first longitude of its latitude makes the worker read outside the array.
  pub correctgps_worker-out_of_bounds :
      (a : OffsetArray D) (x : ℕ)
      → find_info y m ≡ some a
      → chang2uint c.xbaidu ≡ ok x
      → x < (a.arraylng 0).x
      → (a.arraylng 0).x + array_count ≤ 2 ^ 32
      → correctgps_worker d m gpsxy c ≡ fault out_of_bounds
  correctgps_worker-out_of_bounds a x e longitude west word =
      let out : get_gpsxy d.sub a gpsxy (baidu_of d c) x ≡ fault out_of_bounds =
        (get_gpsxy-out_of_bounds d.sub a gpsxy (baidu_of d c) x (omega arith) word).1 (inl west) in
      rw (worker-found a x e longitude, out) refl

-- The request is shifted by the offsets of the entry, and is ready to be sent.
abbrev pub ShiftedBy : {D : Type 0} → Doubles D → OffsetData D → Client D → Client D → Type 0
ShiftedBy d e c c' =
    (c'.xgps ≡ d.sub (d.atof c.xbaidu) e.dx)
    × (c'.ygps ≡ d.sub (d.atof c.ybaidu) e.dy)
    × (c'.status ≡ 2)

-- Where the array of its latitude answers with the shift by an entry, the request is shifted by it.
pub correctgps_worker-ShiftedBy :
    {D : Type 0} (d : Doubles D) (m : InfoMap D) (gpsxy : Poi D) (c : Client D) (y : ℕ)
    (b : OffsetArray D) (e : OffsetData D)
    → chang2uint c.ybaidu ≡ ok y
    → chang2uint c.xbaidu ≡ ok e.x
    → find_info y m ≡ some b
    → Ensures (get_gpsxy d.sub b gpsxy (baidu_of d c) e.x) (λ r. r ≡ shift d.sub (baidu_of d c) e)
    → Ensures (correctgps_worker d m gpsxy c) (ShiftedBy d e c)
correctgps_worker-ShiftedBy {D} d m gpsxy c y b e latitude longitude found_b h =
    rw (worker-found d m gpsxy c y latitude b e.x found_b longitude) (
      Ensures-bind (λ r. r ≡ shift d.sub (baidu_of d c) e) _
        (get_gpsxy d.sub b gpsxy (baidu_of d c) e.x) _ shifted h)
  where
    shifted :
        (gps : Poi D)
        → gps ≡ shift d.sub (baidu_of d c) e
        → (gps.dx ≡ d.sub (d.atof c.xbaidu) e.dx)
          × (gps.dy ≡ d.sub (d.atof c.ybaidu) e.dy)
          × (◌≡◌ {A = ℕ} 2 2)
    shifted gps is = (
      ap (λ (p : Poi D). p.dx) is ∙ unfold shift in refl,
      ap (λ (p : Poi D). p.dy) is ∙ unfold shift in refl,
      refl,
    )
