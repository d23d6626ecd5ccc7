-- ===== src/Client/Receive.antt =====
-- Requests that come in pieces, and requests that lack a field.
use mathlib.Core.Path.{ap₂}
use correct_gps.Base.{
  move, write, overlapping, ℕ, zero, suc, ◌+◌, ◌-◌, ◌≤◌, ◌<◌, ◌≡◌, refl, true, false, [], ◌∷◌, ◌++◌,
  Bytes, Cells, slice, store, ltb, get_or, ok, fault, aborted, arith, length, ap, ◌∙◌, Bool-cases,
  inl, inr, ◌⊎◌, if◌then◌else◌,
}
use correct_gps.Client.{
  Client, iobuf_size, in_data_len, navto, serial_word, scan, keep_rest, read_fields, at_navto,
  parse_len,
}
use correct_gps.Client.Scan.{Matches, Scans, scan-Scans, Ensures-ok}

slice-cong :
    (a b : Cells ℕ) (i j n : ℕ)
    → ((k : ℕ) → k < n → a (i + k) ≡ b (j + k))
    → slice a i n ≡ slice b j n
slice-cong a b i j zero h = refl
slice-cong a b i j (suc n) h =
    ap₂ ◌∷◌ (ap a (omega arith) ∙ h 0 (omega arith) ∙ ap b (omega arith)) (
      slice-cong a b (i + 1) (j + 1) n
        (λ k p. ap a (omega arith) ∙ h (k + 1) (omega arith) ∙ ap b (omega arith)))

slice-append : (a : Cells ℕ) (i m n : ℕ) → slice a i (m + n) ≡ slice a i m ++ slice a (i + m) n
slice-append a i zero n = ap₂ (slice a) (omega arith) (omega arith)
slice-append a i (suc m) n =
    let e : suc m + n ≡ suc (m + n) = omega arith in
    rw e (
      ap (◌∷◌ (a i))
        (slice-append a (i + 1) m n ∙ ap (λ k. slice a (i + 1) m ++ slice a k n) (omega arith)))

slice-list :
    (a : Cells ℕ) (i : ℕ) (bs : Bytes)
    → ((k : ℕ) → k < length bs → a (i + k) ≡ get_or bs k 0)
    → slice a i (length bs) ≡ bs
slice-list a i [] h = refl
slice-list a i (b ∷ bs) h =
    ap₂ ◌∷◌ (ap a (omega arith) ∙ h 0 (omega arith))
      (slice-list a (i + 1) bs (λ k p. ap a (omega arith) ∙ h (suc k) (omega arith)))

pub get_or-default : (bs : Bytes) (k d e : ℕ) → k < length bs → get_or bs k d ≡ get_or bs k e
get_or-default [] k d e h = absurd (omega arith)
get_or-default (b ∷ bs) zero d e h = refl
get_or-default (b ∷ bs) (suc k) d e h = get_or-default bs k d e (omega arith)

module _ {D : Type 0} (c : Client D) (len : ℕ) (nul : c.iobuf len ≡ 0)
    (inside : len < iobuf_size) where
  -- Where the keyword of a request stands first.
  abbrev pub FirstNavto : ℕ → Type 0
  FirstNavto i = (i < len) × Matches navto c.iobuf i × ((k : ℕ) → k < i → ¬ Matches navto c.iobuf k)

  scan-navto : (i : ℕ) → FirstNavto i → scan navto c.iobuf len 0 ≡ ok i
  scan-navto i (below, here, first) =
      let (r, e, s) =
        Ensures-ok (Scans c.iobuf len navto 0 len) (scan navto c.iobuf len 0)
          (scan-Scans c.iobuf len nul inside navto len 0 (omega arith) (omega arith)) in
      e ∙ ap ok (unique r s (order r))
    where
      order : (r : ℕ) → (r < i) ⊎ (i < r) ⊎ (r ≡ i)
      order r = omega arith

      unique : (r : ℕ) → Scans c.iobuf len navto 0 len r → (r < i) ⊎ (i < r) ⊎ (r ≡ i) → r ≡ i
      unique r s (inl low) = absurd (first r low (s.hit (omega arith)).0)
      unique r s (inr (inl high)) = absurd (s.first i (omega arith) high here)
      unique r s (inr (inr same)) = same

  -- The client once what there is from position i on is at the front.
  abbrev pub moved_rest : ℕ → Client D
  moved_rest i = record c {
    offset = len - i;
    iobuf = write (move c.iobuf 0 i (len - i)) (len - i) 0;
  }

  -- A request that is not whole yet, in a buffer with a NUL at its end, with no more bytes from its
  -- keyword on than there are before it, waits at the front of the buffer: the client keeps what
  -- there is from its keyword on, and what arrives next stands behind it. Nobody is notified.
  pub parse_len-waits :
      (i : ℕ) (bytes : Bytes)
      → FirstNavto i
      → len < i + 6 + in_data_len
      → len - i ≤ i
      → (parse_len c len ≡ ok (moved_rest i, false))
        × (slice (store (moved_rest i).iobuf (moved_rest i).offset bytes) 0 (len - i + length bytes)
            ≡ slice c.iobuf i (len - i) ++ bytes)
  parse_len-waits i bytes first short few = (
    unfold parse_len at_navto keep_rest in rw (scan-navto i first) (ground arith),
    slice-append (store rest.iobuf (len - i) bytes) 0 (len - i) (length bytes)
        ∙ ap₂ ◌++◌
            (slice-cong (store rest.iobuf (len - i) bytes) c.iobuf 0 i (len - i)
              (λ k p. ground arith))
            (slice-list (store rest.iobuf (len - i) bytes) (0 + (len - i)) bytes
              (λ k p. ground (arith, get_or-default bytes k (rest.iobuf (0 + (len - i) + k)) 0))),
  )
    where
      rest : Client D
      rest = moved_rest i

  -- A request that is not whole yet, in a buffer with a NUL at its end, with more bytes from its
  -- keyword on than there are before it, is copied onto itself: the regions of the memcpy overlap.
  pub parse_len-overlaps :
      (i : ℕ)
      → FirstNavto i
      → len < i + 6 + in_data_len
      → i < len - i
      → parse_len c len ≡ fault overlapping
  parse_len-overlaps i first short many =
      unfold parse_len at_navto keep_rest in rw (scan-navto i first) (ground arith)

  -- A whole request, in a buffer with a NUL at its end, with no serial behind its keyword stops the
  -- program at an assert.
  pub parse_len-aborted :
      (i : ℕ)
      → FirstNavto i
      → i + 6 + in_data_len ≤ len
      → ((k : ℕ) → i + 6 ≤ k → k < len → ¬ Matches serial_word c.iobuf k)
      → parse_len c len ≡ fault aborted
  unfolding parse_len at_navto read_fields
  parse_len-aborted i first whole lacks =
      let (r, e, s) =
        Ensures-ok (Scans c.iobuf len serial_word (i + 6) (len - (i + 6)))
          (scan serial_word c.iobuf (len - (i + 6)) (i + 6))
          (scan-Scans c.iobuf len nul inside serial_word (len - (i + 6)) (i + 6) (omega arith)
            (omega arith)) in
      let enough : ltb len (i + 6 + in_data_len) ≡ false = ground arith in
      let hit : ltb i len ≡ true = ground arith in
      let at_end : ltb r len ≡ false = missing r s (Bool-cases (ltb r len)) in
      rw (scan-navto i first, hit, enough, e, at_end) refl
    where
      missing :
          (r : ℕ)
          → Scans c.iobuf len serial_word (i + 6) (len - (i + 6)) r
          → (ltb r len ≡ true) ⊎ (ltb r len ≡ false)
          → ltb r len ≡ false
      missing r s (inl h) = absurd (lacks r s.from (ground arith) (s.hit (ground arith)).0)
      missing r s (inr h) = h

  -- Bytes with no keyword, in a buffer with a NUL at its end, leave the client as it is, so the
  -- next bytes overwrite them.
  parse_len-drops :
      ((k : ℕ) → k < len → ¬ Matches navto c.iobuf k) → parse_len c len ≡ ok (c, false)
  unfolding parse_len
  parse_len-drops lacks =
      let (r, e, s) =
        Ensures-ok (Scans c.iobuf len navto 0 len) (scan navto c.iobuf len 0)
          (scan-Scans c.iobuf len nul inside navto len 0 (omega arith) (omega arith)) in
      rw e (finish r s (Bool-cases (ltb r len)))
    where
      finish :
          (r : ℕ)
          → Scans c.iobuf len navto 0 len r
          → (ltb r len ≡ true) ⊎ (ltb r len ≡ false)
          → (if ltb r len then at_navto c len r else ok (c, false)) ≡ ok (c, false)
      finish r s (inl h) = absurd (lacks r (ground arith) (s.hit (ground arith)).0)
      finish r s (inr h) = rw h
