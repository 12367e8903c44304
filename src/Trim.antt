-- ===== src/Trim.antt =====
-- The blanks around a line: util/util-string.c (`strLeftTrim`, `strRightTrim`, `strTrim`) and
-- hub/hub-util.c (`ohubTrimLeft`, `ohubTrimRight`, `ohubTrim`). A string is the list of its characters.
pub mod Ends
use okscada.Prelude.{ℕ, Bool, true, false, ◌&&◌, ◌||◌, List, [], ◌∷◌, ◌==◌, if◌then◌else◌}

-- `BLANK`.
abbrev pub blank : ℕ → Bool
blank c = c == 32 || (c == 9 || (c == 10 || c == 13))

-- The characters that `ohubTrimLeft` and `ohubTrimRight` pass over: the backspace is one of them.
abbrev pub ohub_blank : ℕ → Bool
ohub_blank c = c == 32 || (c == 9 || (c == 13 || (c == 10 || c == 8)))

module _ (p : ℕ → Bool) where
  unfoldable pub skip_blanks : List ℕ → List ℕ
  skip_blanks [] = []
  skip_blanks (c ∷ s) = let rest = skip_blanks s in if p c then rest else c ∷ s

  abbrev pub cut : Bool → ℕ → List ℕ → List ℕ
  cut true c [] = []
  cut false c [] = c ∷ []
  cut b c (x ∷ s) = c ∷ x ∷ s

  unfoldable pub cut_blanks : List ℕ → List ℕ
  cut_blanks [] = []
  cut_blanks (c ∷ s) = cut (p c) c (cut_blanks s)

-- `strLeftTrim`.
abbrev pub str_left_trim : List ℕ → List ℕ
str_left_trim s = skip_blanks blank s

-- `strRightTrim`.
abbrev pub str_right_trim : List ℕ → List ℕ
str_right_trim s = cut_blanks blank s

-- `strTrim`: the start first.
unfoldable pub str_trim : List ℕ → List ℕ
str_trim s = cut_blanks blank (skip_blanks blank s)

-- `ohubTrimLeft`.
abbrev pub ohub_trim_left : List ℕ → List ℕ
ohub_trim_left s = skip_blanks ohub_blank s

-- `ohubTrimRight`.
abbrev pub ohub_trim_right : List ℕ → List ℕ
ohub_trim_right s = cut_blanks ohub_blank s

-- `ohubTrim`: the end first.
unfoldable pub ohub_trim : List ℕ → List ℕ
ohub_trim s = ohub_trim_left (ohub_trim_right s)
