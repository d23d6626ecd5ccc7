-- ===== src/Tools/Checksum.antt =====
-- checksum (src/tools.cpp): the sum of the 16-bit words of a buffer in ones' complement.
use correct_gps.Base.{
  ℕ, zero, suc, ◌+◌, ◌-◌, ◌*◌, ◌/◌, ◌%◌, ◌^◌, ◌≤◌, ◌<◌, ◌≡◌, refl, [], ◌∷◌, Bytes, ◌==◌,
  if◌then◌else◌, arith, Bool-cases, inl, inr,
}

-- The loop over the buffer: a word is two bytes, low byte first, and an odd byte is added alone.
-- `cksum` is an unsigned long of 32 bits, as the comment on its loop has it.
pub add_words : ℕ → Bytes → ℕ
add_words cksum [] = cksum
add_words cksum (b ∷ []) = (cksum + b) % 2 ^ 32
add_words cksum (lo ∷ hi ∷ rest) = add_words ((cksum + (lo + 256 * hi)) % 2 ^ 32) rest

-- while (cksum >> 16) cksum = (cksum >> 16) + (cksum & 0xffff), on fuel.
pub fold_carry : ℕ → ℕ → ℕ
fold_carry zero cksum = cksum
fold_carry (suc fuel) cksum =
    let rest = fold_carry fuel (cksum / 2 ^ 16 + cksum % 2 ^ 16) in
    if cksum / 2 ^ 16 == 0 then cksum else rest

-- The complement, cut to an unsigned short.
pub checksum : Bytes → ℕ
unfolding add_words fold_carry
checksum buffer = let cksum = add_words 0 buffer in 2 ^ 16 - 1 - fold_carry cksum cksum % 2 ^ 16

-- The words of the buffer, with no wrap-around.
abbrev pub word_sum : Bytes → ℕ
word_sum [] = 0
word_sum (b ∷ []) = b
word_sum (lo ∷ hi ∷ rest) = lo + 256 * hi + word_sum rest

fold_carry-lem :
    (fuel cksum : ℕ)
    → cksum ≤ fuel
    → (fold_carry fuel cksum < 2 ^ 16) × (fold_carry fuel cksum % 65535 ≡ cksum % 65535)
unfolding fold_carry
fold_carry-lem zero cksum h = (omega arith, refl)
fold_carry-lem (suc fuel) cksum h = elim (Bool-cases (cksum / 2 ^ 16 == 0)) [
  | inl done ↦ rw done (ground arith, refl)
  | inr more ↦
      let (small, same) = fold_carry-lem fuel (cksum / 2 ^ 16 + cksum % 2 ^ 16) (ground arith) in
      rw more (small, omega arith)
]

add_words-eq :
    (cksum : ℕ) (buffer : Bytes)
    → cksum + word_sum buffer < 2 ^ 32
    → add_words cksum buffer ≡ cksum + word_sum buffer
unfolding add_words
add_words-eq cksum [] h = omega arith
add_words-eq cksum (b ∷ []) h = omega arith
add_words-eq cksum (lo ∷ hi ∷ rest) h =
    let e : (cksum + (lo + 256 * hi)) % 2 ^ 32 ≡ cksum + (lo + 256 * hi) = omega arith in
    rw e (omega (arith, add_words-eq (cksum + (lo + 256 * hi)) rest (omega arith)))

-- The checksum is a word, and completes the sum of the words to a multiple of 0xffff, for a buffer
-- whose words add up to less than 2 ^ 32.
pub checksum_completes :
    (buffer : Bytes)
    → word_sum buffer < 2 ^ 32
    → (checksum buffer < 2 ^ 16) × ((word_sum buffer + checksum buffer) % 65535 ≡ 0)
unfolding checksum
checksum_completes buffer small =
    let total = add_words 0 buffer in
    let (word, same) = fold_carry-lem total total (omega arith) in
    (omega arith, omega (arith, add_words-eq 0 buffer (omega arith)))
