-- ===== src/Tools/Trim/Ends.antt =====
-- What strtrim (src/tools.cpp) leaves out at the two ends of a string.
use correct_gps.Base.{
  ◌≤◌, ◌<◌, ◌≡◌, refl, [], ◌∷◌, ◌++◌, Bytes, ◌⊎◌, inl, inr, length, Bool-cases, ap, ◌∙◌, Run, ok,
  fault, out_of_bounds, overlapping,
}
use correct_gps.Tools.Chars.{is_space}
use correct_gps.Tools.Trim.{skip_spaces, AllSpace, StartsDense, EndsDense, TrimOf}

record LeftTrim (s core : Bytes) : Type 0 where
  before : Bytes
  splits : s ≡ before ++ core
  space : AllSpace before
  starts : StartsDense core

skip_spaces-LeftTrim : (s : Bytes) → LeftTrim s (skip_spaces s)
unfolding skip_spaces
skip_spaces-LeftTrim [] = record { before = []; splits = refl; space = tt; starts = tt }
skip_spaces-LeftTrim (c ∷ s) = elim (Bool-cases (is_space c)) [
  | inl space ↦
      let r = skip_spaces-LeftTrim s in
      rw (space, skip_spaces)
        (record {
          before = c ∷ r.before;
          splits = ap (◌∷◌ c) r.splits;
          space = (space, r.space);
          starts = r.starts;
        })
  | inr dense ↦
      rw (dense, skip_spaces) (record { before = []; splits = refl; space = tt; starts = dense })
]

record RightTrim (s core : Bytes) : Type 0 where
  behind : Bytes
  splits : s ≡ core ++ behind
  space : AllSpace behind
  ends : EndsDense core

-- What strtrimr gives for a text.
data RightTrims (t : Bytes) : Run Bytes → Type 0 where
  blank : AllSpace t → RightTrims t (fault out_of_bounds)
  cut : (core : Bytes) → RightTrim t core → RightTrims t (ok core)

EndsDense-suffix : (b s : Bytes) → EndsDense (b ++ s) → EndsDense s
EndsDense-suffix [] s h = h
EndsDense-suffix (c ∷ []) [] h = tt
EndsDense-suffix (c ∷ []) (d ∷ s) h = h
EndsDense-suffix (c ∷ d ∷ b) s h = EndsDense-suffix (d ∷ b) s h

-- What strtrim gives for a string. A string of space only has it read in front of the string. Else
-- it leaves out the space at both ends and nothing else, but where there is space at the start, and
-- no more of it than of the text that is left, strcpy copies between regions that overlap.
pub data Trims (s : Bytes) : Run Bytes → Type 0 where
  all_space : AllSpace s → Trims s (fault out_of_bounds)
  trimmed :
      (core : Bytes) (w : TrimOf s core)
      → (length w.before ≡ 0) ⊎ (length core < length w.before)
      → Trims s (ok core)
  overlaps :
      (core : Bytes) (w : TrimOf s core)
      → 0 < length w.before
      → length w.before ≤ length core
      → Trims s (fault overlapping)

module _ (s t : Bytes) (r : RightTrim s t) where
  left : LeftTrim t (skip_spaces t)
  left = skip_spaces-LeftTrim t

  both : TrimOf s (skip_spaces t)
  both = record {
    before = left.before;
    behind = r.behind;
    splits = r.splits ∙ ap (λ k. k ++ r.behind) left.splits;
    before_space = left.space;
    behind_space = r.space;
    starts = left.starts;
    ends = EndsDense-suffix left.before (skip_spaces t) (rw left.splits at r.ends);
  }
