-- ===== src/Tools/Trim/Kept.antt =====
-- The text that strtrim (src/tools.cpp) keeps in front of space.
use correct_gps.Base.{
  ℕ, zero, suc, ◌≤◌, ◌<◌, ◌≡◌, refl, true, false, [], ◌∷◌, ◌++◌, Bytes, ◌⊎◌, inl, inr, length,
  get_or, take, arith, ap, ◌∙◌, length-append, ok,
}
use correct_gps.Tools.Chars.{is_space}
use correct_gps.Tools.Trim.{trim_loop, strtrimr, strtriml, strtrim, AllSpace, EndsDense}

trim_loop-spaces :
    (s : Bytes) (n m : ℕ)
    → n ≤ m
    → ((k : ℕ) → n ≤ k → k < m → is_space (get_or s k 0) ≡ true)
    → trim_loop s m ≡ trim_loop s n
unfolding trim_loop
trim_loop-spaces s zero zero h all = refl
trim_loop-spaces s (suc n) zero h all = absurd (omega arith)
trim_loop-spaces s n (suc m) h all = elim (le_cases h) [
  | inl here ↦ rw here
  | inr on ↦
      rw (all m on (omega arith), trim_loop)
        (trim_loop-spaces s n m on (λ k p q. all k p (omega arith)))
]
  where
    le_cases : n ≤ suc m → (n ≡ suc m) ⊎ (n ≤ m)
    le_cases h = omega arith

get_or-behind :
    (t bs : Bytes) (k : ℕ)
    → AllSpace bs
    → length t ≤ k
    → k < length (t ++ bs)
    → is_space (get_or (t ++ bs) k 0) ≡ true
get_or-behind [] [] k a lo hi = absurd (omega arith)
get_or-behind [] (b ∷ bs) zero a lo hi = a.0
get_or-behind [] (b ∷ bs) (suc k) a lo hi = get_or-behind [] bs k a.1 (omega arith) (omega arith)
get_or-behind (c ∷ t) bs zero a lo hi = absurd (omega arith)
get_or-behind (c ∷ t) bs (suc k) a lo hi = get_or-behind t bs k a (omega arith) (omega arith)

last_dense :
    (c : ℕ) (t bs : Bytes)
    → EndsDense (c ∷ t)
    → is_space (get_or (c ∷ (t ++ bs)) (length t) 0) ≡ false
last_dense c [] bs h = h
last_dense c (d ∷ t) bs h = last_dense d t bs h

take-append : (t bs : Bytes) → take (length t) (t ++ bs) ≡ t
take-append [] bs = refl
take-append (c ∷ t) bs = ap (◌∷◌ c) (take-append t bs)

trim_loop-dense :
    (c : ℕ) (t bs : Bytes)
    → EndsDense (c ∷ t)
    → trim_loop (c ∷ (t ++ bs)) (suc (length t)) ≡ ok (c ∷ t)
unfolding trim_loop
trim_loop-dense c t bs h = rw (last_dense c t bs h) (ap ok (take-append (c ∷ t) bs))

strtrimr-eq :
    (c : ℕ) (t bs : Bytes) → EndsDense (c ∷ t) → AllSpace bs → strtrimr (c ∷ (t ++ bs)) ≡ ok (c ∷ t)
unfolding strtrimr
strtrimr-eq c t bs dense spaces =
    trim_loop-spaces (c ∷ (t ++ bs)) (suc (length t)) (suc (length (t ++ bs)))
      (omega (arith, length-append t bs)) (λ k p q. get_or-behind (c ∷ t) bs k spaces p q)
    ∙ trim_loop-dense c t bs dense

strtriml-eq : (c : ℕ) (t : Bytes) → is_space c ≡ false → strtriml (c ∷ t) ≡ ok (c ∷ t)
unfolding strtriml
strtriml-eq c t h = ground arith

-- A text with no space at its ends comes back from strtrim, whatever space follows it.
pub strtrim-append :
    (c : ℕ) (t bs : Bytes)
    → is_space c ≡ false
    → EndsDense (c ∷ t)
    → AllSpace bs
    → strtrim (c ∷ (t ++ bs)) ≡ ok (c ∷ t)
unfolding strtrim
strtrim-append c t bs starts ends spaces =
    rw (strtrimr-eq c t bs ends spaces) (strtriml-eq c t starts)
