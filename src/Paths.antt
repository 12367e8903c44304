-- ===== src/Paths.antt =====
-- hub/hub-util.c: paths, the variables in them, and the blanks around a line. A string is the list of
-- its characters without the 0, and the buffers are large enough.
pub mod Subst
pub mod Parts
use okscada.Prelude.{
  ℕ, zero, suc, ◌+◌, Bool, true, false, not, ◌&&◌, ◌||◌, List, [], ◌∷◌, ◌++◌, Option, none, some,
  length, ◌==◌, if◌then◌else◌,
}

abbrev pub path_sep : ℕ
path_sep = 47

abbrev pub dollar : ℕ
dollar = 36

-- What stands ahead of the last separator, and behind it (`rindex`).
unfoldable pub last_sep : List ℕ → Option (List ℕ × List ℕ)
last_sep [] = none
last_sep (c ∷ s) = elim (last_sep s) [
  | some (a, b) ↦ some (c ∷ a, b)
  | none ↦ if c == path_sep then some ([], s) else none
]

-- `ohubNameOfPath`.
unfoldable pub name_of_path : List ℕ → List ℕ
name_of_path s = elim (last_sep s) [ none ↦ s | some (a, b) ↦ b ]

-- `ohubDirOfPath`.
unfoldable pub dir_of_path : List ℕ → List ℕ
dir_of_path s = elim (last_sep s) [ none ↦ s | some (a, b) ↦ a ]

abbrev pub starts_with : ℕ → List ℕ → Bool
starts_with c [] = false
starts_with c (x ∷ s) = x == c

abbrev pub is_empty : List ℕ → Bool
is_empty [] = true
is_empty (x ∷ s) = false

unfoldable pub ends_with : ℕ → List ℕ → Bool
ends_with c [] = false
ends_with c (x ∷ s) = if is_empty s then x == c else ends_with c s

-- `ohubMergePath`; a null argument is the empty string.
unfoldable pub merge_path : List ℕ → List ℕ → List ℕ
merge_path dir name =
    if starts_with path_sep name || is_empty dir
    then name
    else if is_empty name
    then dir
    else if ends_with path_sep dir
    then dir ++ name
    else dir ++ path_sep ∷ name

-- The characters up to the first that fails the test, and the rest.
pub span : (ℕ → Bool) → List ℕ → List ℕ × List ℕ
span p [] = ([], [])
span p (c ∷ s) = let (a, b) = span p s in if p c then (c ∷ a, b) else ([], c ∷ s)

-- `is_alnum` is `isalnum` and `getenv` is the environment.
module _ (is_alnum : ℕ → Bool) (getenv : List ℕ → Option (List ℕ)) where
  abbrev pub is_name : ℕ → Bool
  is_name c = is_alnum c || c == 95

  abbrev pub value : List ℕ → List ℕ
  value name = elim (getenv name) [ none ↦ [] | some v ↦ v ]

  -- `${name}`; a brace that is not closed is copied.
  abbrev pub braced : List ℕ → List ℕ × List ℕ → List ℕ × List ℕ
  braced s (name, []) = (dollar ∷ 123 ∷ [], s)
  braced s (name, c ∷ rest) = (value name, rest)

  abbrev pub named : List ℕ × List ℕ → List ℕ × List ℕ
  named (name, rest) = (value name, rest)

  -- One turn of the loop at a `$`: what is written, and what is left.
  abbrev pub at_dollar : List ℕ → List ℕ × List ℕ
  at_dollar [] = (dollar ∷ [], [])
  at_dollar (c ∷ s) =
      if c == dollar
      then (dollar ∷ [], s)
      else if c == 123
      then braced s (span (λ x. not (x == 125)) s)
      else if is_name c
      then named (span is_name (c ∷ s))
      else (dollar ∷ [], c ∷ s)

  abbrev pub turn : ℕ → List ℕ → List ℕ × List ℕ
  turn c s = if c == dollar then at_dollar s else (c ∷ [], s)

  -- The loop of `ohubSubstEnv`, on fuel.
  pub subst_loop : ℕ → List ℕ → List ℕ
  subst_loop zero s = []
  subst_loop (suc n) [] = []
  subst_loop (suc n) (c ∷ s) = (turn c s).0 ++ subst_loop n (turn c s).1

  -- `ohubSubstEnv`. A turn reads at least one character.
  unfoldable pub subst_env : List ℕ → List ℕ
  subst_env s = subst_loop (length s) s

  -- `ohubUnrollPath`; `root` is `ohub_common_root`.
  unfoldable pub unroll_path : List ℕ → List ℕ → List ℕ
  unroll_path root src = if is_empty src then [] else subst_env (merge_path root (subst_env src))
