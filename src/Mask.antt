-- ===== src/Mask.antt =====
-- util/util-string.c: `strMask`, the test of a string against a mask with stars.
-- A string is the list of its bytes, none of them 0.
pub mod Sound
use okscada.Prelude.{
  ℕ, zero, suc, ◌+◌, Bool, true, false, ◌&&◌, List, [], ◌∷◌, Option, none, some, length, ◌==◌,
  if◌then◌else◌,
}
use okscada.Prelude.CString.{bytes_eq}

abbrev pub star : ℕ
star = 42

-- What is ahead of the first star, and what follows from the star on.
unfoldable pub literal : List ℕ → List ℕ × List ℕ
literal [] = ([], [])
literal (c ∷ r) = let (lit, rest) = literal r in if c == star then ([], c ∷ r) else (c ∷ lit, rest)

-- The string behind the piece that it starts with, as `strncmp` tells.
unfoldable pub behind : List ℕ → List ℕ → Option (List ℕ)
behind [] s = some s
behind (c ∷ lit) [] = none
behind (c ∷ lit) (b ∷ s) = let rest = behind lit s in if c == b then rest else none

unfoldable pub skip_stars : List ℕ → List ℕ
skip_stars [] = []
skip_stars (c ∷ r) = let rest = skip_stars r in if c == star then rest else c ∷ r

-- The string behind the first place where the piece stands; the end of the string is no such place.
unfoldable pub search : List ℕ → List ℕ → Option (List ℕ)
search lit [] = none
search lit (b ∷ s) =
    let later = search lit s in elim (behind lit (b ∷ s)) [ none ↦ later | some t ↦ some t ]

abbrev pub is_empty : List ℕ → Bool
is_empty [] = true
is_empty (c ∷ s) = false

-- The loop of `strMask`, on fuel for the mask: each turn but the last one passes over a star.
unfoldable pub str_mask : ℕ → List ℕ → List ℕ → Bool
str_mask zero s r = false
str_mask (suc fuel) s r =
    let (lit, rest) = literal r in
    let r' = skip_stars rest in
    let (lit', rest') = literal r' in
    if bytes_eq r (star ∷ [])
    then true
    else if is_empty rest
    then bytes_eq r s
    else elim (behind lit s) [
      | none ↦ false
      | some t ↦
          if is_empty r'
          then true
          else elim (search lit' t) [ none ↦ false | some u ↦ str_mask fuel u rest' ]
    ]
