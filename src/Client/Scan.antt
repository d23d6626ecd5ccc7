-- ===== src/Client/Scan.antt =====
-- The search for a keyword in a buffer with a NUL at its end: no read behind the NUL, and the first
-- match is found.
use mathlib.Core.Path.{subst}
use correct_gps.Base.{
  ℕ, zero, suc, ◌+◌, ◌≤◌, ◌<◌, ◌≡◌, refl, Bool, true, false, ◌||◌, [], ◌∷◌, Cells, ◌==◌, Ensures,
  Ensures-map, Run, ok, fault, ◌⊎◌, inl, inr, arith, Bool-cases, All, length,
}
use correct_gps.Client.{Keyword, iobuf_size, at_word, scan}

-- The letters of the keyword stand in the cells from i on.
abbrev pub Matches : Keyword → Cells ℕ → ℕ → Type 0
Matches [] p i = Unit
Matches ((a, b) ∷ w) p i = ((p i == a || p i == b) ≡ true) × Matches w p (i + 1)

-- No letter is a NUL.
abbrev pub IsWord : Keyword → Type 0
IsWord = All (λ l. (0 < l.0) × (0 < l.1))

module _ (p : Cells ℕ) (i : ℕ) (below : i < iobuf_size) where
  pub at_word-letter :
      (a b : ℕ) (w : Keyword)
      → (p i == a || p i == b) ≡ true
      → at_word ((a, b) ∷ w) p i ≡ at_word w p (i + 1)
  unfolding at_word
  at_word-letter a b w hit = ground arith

  pub at_word-miss :
      (a b : ℕ) (w : Keyword) → (p i == a || p i == b) ≡ false → at_word ((a, b) ∷ w) p i ≡ ok false
  unfolding at_word
  at_word-miss a b w miss = ground arith

pub scan-step :
    (w : Keyword) (p : Cells ℕ) (n x : ℕ) (b : Bool)
    → at_word w p x ≡ ok b
    → scan w p (suc n) x ≡ elim b [ true ↦ ok x | false ↦ scan w p n (x + 1) ]
unfolding scan
scan-step w p n x b e = rw e

le_split : (x k : ℕ) → x ≤ k → (x ≡ k) ⊎ (x + 1 ≤ k)
le_split x k h = omega arith

pub Ensures-ok :
    {A : Type 0} (P : A → Type 0) (r : Run A) → Ensures r P → (a : A) × (r ≡ ok a) × P a
Ensures-ok P (ok a) h = (a, refl, h)
Ensures-ok P (fault e) h = absurd h

-- What the loop over n positions from x on tells: the first match, or that there is none.
pub record Scans (p : Cells ℕ) (len : ℕ) (w : Keyword) (x n r : ℕ) : Type 0 where
  pub from : x ≤ r
  pub to : r ≤ x + n
  pub first : (k : ℕ) → x ≤ k → k < r → ¬ Matches w p k
  pub hit : r < x + n → Matches w p r × (r + length w ≤ len)

module _ (p : Cells ℕ) (len : ℕ) (nul : p len ≡ 0) (inside : len < iobuf_size) where
  -- A hit is a match that ends in front of the NUL.
  abbrev AtWord : Keyword → ℕ → Bool → Type 0
  AtWord w i true = Matches w p i × (i + length w ≤ len)
  AtWord w i false = ¬ Matches w p i

  at_word-AtWord : (w : Keyword) (i : ℕ) → IsWord w → i ≤ len → Ensures (at_word w p i) (AtWord w i)
  unfolding at_word
  at_word-AtWord [] i letters below = (tt, omega arith)
  at_word-AtWord ((a, b) ∷ w) i (l, letters) below = elim (Bool-cases (p i == a || p i == b)) [
    | inl hit ↦ rw (at_word-letter p i (omega arith) a b w hit) (
        Ensures-map (AtWord w (i + 1)) _ (at_word w p (i + 1)) (longer hit)
          (at_word-AtWord w (i + 1) letters (ground arith)))
    | inr miss ↦ rw (at_word-miss p i (omega arith) a b w miss) (λ m. cc)
  ]
    where
      longer :
          (p i == a || p i == b) ≡ true → (r : Bool) → AtWord w (i + 1) r → AtWord ((a, b) ∷ w) i r
      longer hit true (m, end) = ((hit, m), omega arith)
      longer hit false none_here = λ m. none_here m.1

  -- On a buffer with a NUL at its end, which is inside the buffer, the search for a word of letters
  -- reads nothing behind the NUL, and gives the first position that has the keyword, or the end
  -- where there is none.
  pub scan-Scans :
      (w : Keyword) (n x : ℕ) → IsWord w → x + n ≤ len → Ensures (scan w p n x) (Scans p len w x n)
  unfolding scan
  scan-Scans w zero x letters below = record {
    from = omega arith;
    to = omega arith;
    first = λ k lo hi. absurd (omega arith);
    hit = λ h. absurd (omega arith);
  }
  scan-Scans w (suc n) x letters below =
      let (b, e, m) =
        Ensures-ok (AtWord w x) (at_word w p x) (at_word-AtWord w x letters (omega arith)) in
      step (scan-Scans w n (x + 1) letters (omega arith)) b e m
    where
      here : AtWord w x true → Scans p len w x (suc n) x
      here (m, end) = record {
        from = omega arith;
        to = omega arith;
        first = λ k lo hi. absurd (omega arith);
        hit = λ h. (m, end);
      }

      later : ¬ Matches w p x → (r : ℕ) → Scans p len w (x + 1) n r → Scans p len w x (suc n) r
      later miss r s = record {
        from = let h = s.from in omega arith;
        to = let h = s.to in omega arith;
        first = λ k lo hi. elim (le_split x k lo) [
          | inl same ↦ subst (λ t. ¬ Matches w p t) same miss
          | inr on ↦ s.first k on hi
        ];
        hit = λ h. s.hit (omega arith);
      }

      step :
          Ensures (scan w p n (x + 1)) (Scans p len w (x + 1) n)
          → (b : Bool) → at_word w p x ≡ ok b
          → AtWord w x b
          → Ensures (scan w p (suc n) x) (Scans p len w x (suc n))
      step rest true e m = rw (scan-step w p n x true e) (here m)
      step rest false e miss =
          rw (scan-step w p n x false e)
            (Ensures-map (Scans p len w (x + 1) n) _ (scan w p n (x + 1)) (later miss) rest)
