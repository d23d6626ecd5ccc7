-- ===== src/Client/Query.antt =====
-- The text of a request in the buffer, and what the loops of `parse` make of it.
use correct_gps.Base.{
  ℕ, zero, suc, ◌+◌, ◌≤◌, ◌<◌, ◌≡◌, refl, subst, ap, ◌∙◌, true, false, ◌||◌, [], ◌∷◌, ◌++◌, Bytes,
  Cells, slice, ◌==◌, leb, ok, ◌>>=◌, arith, All, length,
}
use mathlib.Core.Path.{ap₂}
use correct_gps.Tools.Chars.{c_str}
use correct_gps.Tools.Items.Lines.{Lacks, c_str-eq}
use correct_gps.Client.{Keyword, iobuf_size, at_word, scan, scan_dot, copy_out}
use correct_gps.Client.Scan.{at_word-letter, at_word-miss, scan-step}
use correct_gps.Client.Parse.{scan_dot-stop, scan_dot-on}

-- The text stands in the cells from i on.
abbrev pub TextAt : Cells ℕ → ℕ → Bytes → Type 0
TextAt p i [] = Unit
TextAt p i (c ∷ s) = (p i ≡ c) × TextAt p (i + 1) s

-- No character is one of the two forms of a letter.
abbrev pub Avoids : ℕ → ℕ → Bytes → Type 0
Avoids a b = All (λ c. (c == a || c == b) ≡ false)

-- The text is the keyword, in some forms of its letters.
abbrev pub Spells : Keyword → Bytes → Type 0
Spells [] [] = Unit
Spells [] (c ∷ s) = ⊥
Spells (l ∷ w) [] = ⊥
Spells ((a, b) ∷ w) (c ∷ s) = ((c == a || c == b) ≡ true) × Spells w s

-- No character ends a coordinate.
abbrev pub IsOpen : Bytes → Type 0
IsOpen = All (λ c. (c == b' ' || c == b'&') ≡ false)

module _ (p : Cells ℕ) where
  pub TextAt-front : (i : ℕ) (s t : Bytes) → TextAt p i (s ++ t) → TextAt p i s
  TextAt-front i [] t h = tt
  TextAt-front i (c ∷ s) t h = (h.0, TextAt-front (i + 1) s t h.1)

  pub TextAt-behind :
      (i j : ℕ) (s t : Bytes) → TextAt p i (s ++ t) → i + length s ≡ j → TextAt p j t
  TextAt-behind i j [] t h e = let k : i ≡ j = omega arith in subst (λ m. TextAt p m t) k h
  TextAt-behind i j (c ∷ s) t h e = TextAt-behind (i + 1) j s t h.1 (omega arith)

  pub slice-TextAt : (i : ℕ) (s : Bytes) → TextAt p i s → slice p i (length s) ≡ s
  slice-TextAt i [] h = refl
  slice-TextAt i (c ∷ s) h = ap₂ ◌∷◌ h.0 (slice-TextAt (i + 1) s h.1)

  pub at_word-Spells :
      (w : Keyword) (i : ℕ) (s : Bytes)
      → TextAt p i s
      → Spells w s
      → i + length s ≤ iobuf_size
      → at_word w p i ≡ ok true
  at_word-Spells [] i [] t h below = unfold at_word in refl
  at_word-Spells [] i (c ∷ s) t h below = absurd h
  at_word-Spells (l ∷ w) i [] t h below = absurd h
  at_word-Spells ((a, b) ∷ w) i (c ∷ s) t h below =
      at_word-letter p i (omega arith) a b w (ap (λ k. k == a || k == b) t.0 ∙ h.0)
      ∙ at_word-Spells w (i + 1) s t.1 h.1 (omega arith)

  pub scan-hit : (w : Keyword) (n x : ℕ) → at_word w p x ≡ ok true → 0 < n → scan w p n x ≡ ok x
  scan-hit w zero x h some_left = absurd (omega arith)
  scan-hit w (suc n) x h some_left = scan-step w p n x true h

  -- The search goes on behind a text that has not the first letter.
  pub scan-skip :
      (a b : ℕ) (w : Keyword) (s : Bytes) (n m x y : ℕ)
      → TextAt p x s
      → Avoids a b s
      → x + length s ≤ iobuf_size
      → n ≡ length s + m
      → y ≡ x + length s
      → scan ((a, b) ∷ w) p n x ≡ scan ((a, b) ∷ w) p m y
  scan-skip a b w [] n m x y t h below e f =
      let k : n ≡ m = omega arith in let j : x ≡ y = omega arith in ap₂ (scan ((a, b) ∷ w) p) k j
  scan-skip a b w (c ∷ s) n m x y t h below e f =
      (let k : n ≡ suc (length s + m) = omega arith in ap (λ j. scan ((a, b) ∷ w) p j x) k)
      ∙ scan-step ((a, b) ∷ w) p (length s + m) x false
          (at_word-miss p x (omega arith) a b w (ap (λ k. k == a || k == b) t.0 ∙ h.0))
      ∙ scan-skip a b w s (length s + m) m (x + 1) y t.1 h.1 (omega arith) refl (omega arith)

  -- A field of fixed length.
  pub copied_text :
      (x : ℕ) (s : Bytes)
      → TextAt p x s
      → Lacks 0 s
      → x + length s ≤ iobuf_size
      → (copy_out p x (length s) >>= λ t. ok (c_str t)) ≡ ok s
  unfolding copy_out
  copied_text x s t h below =
      let small : leb (x + length s) iobuf_size ≡ true = ground arith in
      rw (small, slice-TextAt x s t, c_str-eq s h) refl

  pub scan_dot-text :
      (s rest : Bytes) (c n x : ℕ)
      → TextAt p x (s ++ c ∷ rest)
      → IsOpen s
      → (c == b' ' || c == b'&') ≡ true
      → length s < n
      → x + length s < iobuf_size
      → scan_dot p n x ≡ ok (x + length s)
  scan_dot-text s rest c zero x t h e few below = absurd (omega arith)
  scan_dot-text [] rest c (suc n) x t h e few below =
      scan_dot-stop p n x (omega arith) (ap (λ k. k == b' ' || k == b'&') t.0 ∙ e)
      ∙ ap ok (omega arith)
  scan_dot-text (d ∷ s) rest c (suc n) x t h e few below =
      scan_dot-on p n x (omega arith) (ap (λ k. k == b' ' || k == b'&') t.0 ∙ h.0)
      ∙ scan_dot-text s rest c n (x + 1) t.1 h.1 e (omega arith) (omega arith)
      ∙ ap ok (omega arith)
