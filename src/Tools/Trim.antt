-- ===== src/Tools/Trim.antt =====
-- strtrimr, strtriml and strtrim (src/tools.cpp).
pub mod Ends
pub mod Kept
use correct_gps.Base.{
  ℕ, zero, suc, ◌≤◌, ◌<◌, ◌≡◌, refl, true, false, [], ◌∷◌, ◌++◌, Bytes, ◌⊎◌, inl, inr, length,
  get_or, take, All, arith, Bool-cases, if◌then◌else◌, ap, sym, ◌∙◌, length-append, subst, ◌+◌, ◌-◌,
  ◌==◌, Run, ok, fault, out_of_bounds, overlapping, disjoint, ◌>>=◌,
}
use correct_gps.Tools.Chars.{is_space}
use mathlib.Core.List.{append-nil, append_assoc}

-- The loop of strtrimr, with i + 1 characters left. With none left it reads the character at i = -1,
-- in front of the string, before it tests i. '\n' is a space too.
pub trim_loop : Bytes → ℕ → Run Bytes
trim_loop s zero = fault out_of_bounds
trim_loop s (suc i) =
    let rest = trim_loop s i in if is_space (get_or s i 0) then rest else ok (take (suc i) s)

pub strtrimr : Bytes → Run Bytes
unfolding trim_loop
strtrimr s = trim_loop s (length s)

-- The string from the index on where the loop of strtriml stops.
pub skip_spaces : Bytes → Bytes
skip_spaces [] = []
skip_spaces (c ∷ s) = let rest = skip_spaces s in if is_space c then rest else c ∷ s

-- strcpy copies the rest with its NUL to the front of the same string.
pub strtriml : Bytes → Run Bytes
unfolding skip_spaces
strtriml s =
    let rest = skip_spaces s in
    if length s == length rest
    then ok s
    else if disjoint 0 (length s - length rest) (length rest + 1)
    then ok rest
    else fault overlapping

unfoldable pub strtrim : Bytes → Run Bytes
unfolding strtrimr strtriml
strtrim s = strtrimr s >>= λ t. strtriml t

abbrev pub AllSpace : Bytes → Type 0
AllSpace = All (λ c. is_space c ≡ true)

abbrev pub StartsDense : Bytes → Type 0
StartsDense [] = Unit
StartsDense (c ∷ s) = is_space c ≡ false

-- The last character, if there is one, is no space.
abbrev pub EndsDense : Bytes → Type 0
EndsDense [] = Unit
EndsDense (c ∷ []) = is_space c ≡ false
EndsDense (c ∷ d ∷ s) = EndsDense (d ∷ s)

-- `core` is `s` without the space at its two ends.
pub record TrimOf (s core : Bytes) : Type 0 where
  pub before : Bytes
  pub behind : Bytes
  pub splits : s ≡ before ++ core ++ behind
  pub before_space : AllSpace before
  pub behind_space : AllSpace behind
  pub starts : StartsDense core
  pub ends : EndsDense core
