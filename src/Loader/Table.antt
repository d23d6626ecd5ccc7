-- ===== src/Loader/Table.antt =====
-- The whole way from the table of the database to the correction of a request.
use mathlib.Core.List.{append-nil, append_assoc}
use correct_gps.Base.{
  Ensures-bind, ℕ, ◌<◌, ◌≡◌, refl, sym, ap, subst, inl, inr, List, [], ◌∷◌, ◌++◌, Bytes, Option,
  none, some, Run, ok, fault, ◌>>=◌, arith, Ensures, Bool-cases, ◌==◌, if◌then◌else◌, false, map,
  All, Among, length, length-append,
}
use correct_gps.OffsetArray.{OffsetData, OffsetArray, new_array, append}
use correct_gps.OffsetArray.Table.{Represents, Takes, append-Represents}
use correct_gps.Tools.Coordinate.{chang2uint}
use correct_gps.Correct.{InfoMap, Doubles, find_info}
use correct_gps.Loader.{Row, put_info, add_entry, load_rows}
use correct_gps.Loader.Shifts.{
  whole_row, load_row-whole, add-missing, add-found, find-put, find-front,
}

-- A row of the table, with its texts and its cell.
pub record TableRow : Type 0 where
  pub lat : Bytes
  pub lng : Bytes
  pub offsetlng : Bytes
  pub offsetlat : Bytes
  pub y : ℕ
  pub x : ℕ

-- The cell is that of the texts.
abbrev pub HasCell : TableRow → Type 0
HasCell r = (chang2uint r.lat ≡ ok r.y) × (chang2uint r.lng ≡ ok r.x)

abbrev pub as_row : TableRow → Row
as_row r = whole_row r.lat r.lng r.offsetlng r.offsetlat

module _ {D : Type 0} (d : Doubles D) where
  abbrev pub entry : TableRow → OffsetData D
  entry r = record { x = r.x; dx = d.atof r.offsetlng; dy = d.atof r.offsetlat }

  -- The entries of a latitude, in the order of the rows.
  abbrev pub at_latitude : ℕ → List TableRow → List (OffsetData D)
  at_latitude y [] = []
  at_latitude y (r ∷ rows) = if r.y == y then entry r ∷ at_latitude y rows else at_latitude y rows

  -- Each row has a key that the array of its latitude takes, after the rows before it.
  abbrev pub IsLoadable : List TableRow → List TableRow → Type 0
  IsLoadable done [] = Unit
  IsLoadable done (r ∷ rows) = Takes (at_latitude r.y done) r.x × IsLoadable (done ++ r ∷ []) rows

  at_latitude-append :
      (y : ℕ) (xs ys : List TableRow)
      → at_latitude y (xs ++ ys) ≡ at_latitude y xs ++ at_latitude y ys
  at_latitude-append y [] ys = refl
  at_latitude-append y (r ∷ xs) ys = ground (arith, at_latitude-append y xs ys)

  at_latitude-last :
      (r : TableRow) (xs : List TableRow)
      → at_latitude r.y (xs ++ r ∷ []) ≡ at_latitude r.y xs ++ entry r ∷ []
  at_latitude-last r xs = ground (arith, at_latitude-append r.y xs (r ∷ []))

  at_latitude-other :
      (y : ℕ) (r : TableRow) (xs : List TableRow)
      → (r.y == y) ≡ false
      → at_latitude y (xs ++ r ∷ []) ≡ at_latitude y xs
  at_latitude-other y r xs h =
      ground (arith, at_latitude-append y xs (r ∷ []), append-nil (at_latitude y xs))

  pub Among-at_latitude :
      (r : TableRow) (rows : List TableRow) → Among r rows → Among (entry r) (at_latitude r.y rows)
  Among-at_latitude r [] m = absurd m
  Among-at_latitude r (s ∷ rows) (inl same) =
      let k : s.y ≡ r.y = ap (λ (t : TableRow). t.y) (sym same) in
      let e : entry r ≡ entry s = ap entry same in ground arith
  Among-at_latitude r (s ∷ rows) (inr m) = ground (arith, Among-at_latitude r rows m)

  -- An array for each latitude of the rows, with its entries.
  abbrev pub Stores : Option (OffsetArray D) → List (OffsetData D) → Type 0
  Stores none es = es ≡ []
  Stores (some a) es = Represents a es × (0 < length es)

  abbrev pub Stored : InfoMap D → List TableRow → Type 0
  Stored m rows = (y : ℕ) → Stores (find_info y m) (at_latitude y rows)

  Stored-last :
      (m n : InfoMap D) (rows : List TableRow) (r : TableRow) (b : OffsetArray D)
      → Stored m rows
      → Represents b (at_latitude r.y rows ++ entry r ∷ [])
      → find_info r.y n ≡ some b
      → ((y : ℕ) → (r.y == y) ≡ false → find_info y n ≡ find_info y m)
      → Stored n (rows ++ r ∷ [])
  Stored-last m n rows r b h new is other y = elim (Bool-cases (r.y == y)) [
    | inl same ↦
        let e : r.y ≡ y = ground arith in
        subst (λ k. Stores (find_info k n) (at_latitude k (rows ++ r ∷ []))) e
          (rw (is, at_latitude-last r rows)
            (new, omega (arith, length-append (at_latitude r.y rows) (entry r ∷ []))))
    | inr apart ↦ rw (other y apart, at_latitude-other y r rows apart) (h y)
  ]

  find-put_other :
      (y k : ℕ) (b : OffsetArray D) (m : InfoMap D)
      → (k == y) ≡ false
      → find_info y (put_info k b m) ≡ find_info y m
  unfolding find_info put_info
  find-put_other y k b [] h = refl
  find-put_other y k b ((j, e) ∷ m) h = ground (arith, find-put_other y k b m h)

  find-front_other :
      (y k : ℕ) (b : OffsetArray D) (m : InfoMap D)
      → (k == y) ≡ false
      → find_info y ((k, b) ∷ m) ≡ find_info y m
  unfolding find_info
  find-front_other y k b m h = ground arith

module _ {D : Type 0} (d : Doubles D) (zero_entry : OffsetData D) (zeroed : zero_entry.x ≡ 0) where
  new_array-Represents : Represents (new_array zero_entry) []
  unfolding new_array
  new_array-Represents = record {
    count = refl;
    fits = omega arith;
    holds = tt;
    only = λ i h. absurd (omega arith);
    rest = λ k h. zeroed;
    head = tt;
    served = tt;
    distinct = tt;
  }

  add_entry-Stored :
      (m : InfoMap D) (rows : List TableRow) (r : TableRow)
      → Stored d m rows
      → Takes (at_latitude d r.y rows) r.x
      → Ensures (add_entry zero_entry r.y (entry d r) m) (λ n. Stored d n (rows ++ r ∷ []))
  add_entry-Stored m rows r h t = by_find (find_info r.y m) refl (h r.y)
    where
      into :
          (a : OffsetArray D) (f : OffsetArray D → InfoMap D)
          → Represents a (at_latitude d r.y rows)
          → ((b : OffsetArray D) → find_info r.y (f b) ≡ some b)
          → ((b : OffsetArray D) (y : ℕ) → (r.y == y) ≡ false → find_info y (f b) ≡ find_info y m)
          → Ensures (append a (entry d r) >>= λ b. ok (f b)) (λ n. Stored d n (rows ++ r ∷ []))
      into a f rep is other =
          Ensures-bind _ _ (append a (entry d r)) (λ b. ok (f b))
            (append-Represents a (at_latitude d r.y rows) (entry d r) rep t)
            (λ b new. Stored-last d m (f b) rows r b h new (is b) (other b))

      by_find :
          (o : Option (OffsetArray D))
          → find_info r.y m ≡ o
          → Stores d o (at_latitude d r.y rows)
          → Ensures (add_entry zero_entry r.y (entry d r) m) (λ n. Stored d n (rows ++ r ∷ []))
      by_find none e none_yet = rw (add-missing zero_entry r.y (entry d r) m e) (
          into (new_array zero_entry) (λ b. (r.y, b) ∷ m)
            (subst (Represents (new_array zero_entry)) (sym none_yet) new_array-Represents)
            (λ b. find-front r.y b m) (λ b y apart. find-front_other d y r.y b m apart))
      by_find (some a) e (rep, used) = rw (add-found zero_entry r.y (entry d r) m a e) (
          into a (λ b. put_info r.y b m) rep (λ b. find-put r.y a b m e)
            (λ b y apart. find-put_other d y r.y b m apart))

  load_rows-step :
      (m : InfoMap D) (r : TableRow) (rows : List Row)
      → HasCell r
      → load_rows d zero_entry m (as_row r ∷ rows)
        ≡ (add_entry zero_entry r.y (entry d r) m >>= λ n. load_rows d zero_entry n rows)
  unfolding load_rows
  load_rows-step m r rows (hy, hx) =
      rw (load_row-whole d zero_entry r.lat r.lng r.offsetlng r.offsetlat r.y r.x m hy hx)
        (after (add_entry zero_entry r.y (entry d r) m))
    where
      after :
          (q : Run (InfoMap D))
          → (q >>= (λ n. ok (some n)) >>= λ o. elim o [
            | none ↦ ok m
            | some n ↦ load_rows d zero_entry n rows
          ])
            ≡ (q >>= λ n. load_rows d zero_entry n rows)
      after (ok n) = refl
      after (fault e) = refl

  pub load_rows-Stored :
      (m : InfoMap D) (done rows : List TableRow)
      → Stored d m done
      → IsLoadable d done rows
      → All HasCell rows
      → Ensures (load_rows d zero_entry m (map as_row rows)) (λ n. Stored d n (done ++ rows))
  load_rows-Stored m done [] h l c = unfold load_rows in rw (append-nil done) h
  load_rows-Stored m done (r ∷ rows) h (t, l) (cell, c) =
      rw (load_rows-step m r (map as_row rows) cell) (
        Ensures-bind (λ n. Stored d n (done ++ r ∷ [])) _ (add_entry zero_entry r.y (entry d r) m) _
          (add_entry-Stored m done r h t)
          (λ n k.
            subst (λ rs. Ensures (load_rows d zero_entry n (map as_row rows)) (λ n. Stored d n rs))
              (append_assoc done (r ∷ []) rows) (load_rows-Stored n (done ++ r ∷ []) rows k l c)))
