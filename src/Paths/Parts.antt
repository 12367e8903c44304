-- ===== src/Paths/Parts.antt =====
-- A path that is put together is taken apart again.
use okscada.Prelude.{
  ℕ, ◌≡◌, refl, true, false, List, [], ◌∷◌, ◌++◌, none, some, ◌==◌, arith, Bool-cases, Option-cases,
  ◌≢◌, inl, inr,
}
use okscada.Paths.{
  path_sep, last_sep, name_of_path, dir_of_path, merge_path, starts_with, is_empty, ends_with,
}

sep_first : (c : ℕ) (s : List ℕ) → c == path_sep ≡ true → last_sep (c ∷ s) ≢ none
unfolding last_sep
sep_first c s f e = elim (Option-cases (last_sep s)) [
  | inl g ↦ grind (arith, f, e, g)
  | inr ((a, b), g) ↦ grind (arith, f, e, g)
]

no_start : (name : List ℕ) → last_sep name ≡ none → starts_with path_sep name ≡ false
unfolding last_sep
no_start [] e = refl
no_start (c ∷ s) e = elim (Bool-cases (c == path_sep)) [
  | inl f ↦ absurd (sep_first c s f e)
  | inr f ↦ f
]

last_sep-join :
    (dir name : List ℕ)
    → last_sep name ≡ none
    → last_sep (dir ++ path_sep ∷ name) ≡ some (dir, name)
unfolding last_sep
last_sep-join [] name e = rw e refl
last_sep-join (c ∷ dir) name e = rw (last_sep-join dir name e) refl

-- A file name that is not empty and has no separator is the name of the path that it is merged
-- into, and the directory, which is not empty and does not end with a separator, is its directory.
pub merge_path-parts :
    (dir name : List ℕ)
    → is_empty dir ≡ false
    → ends_with path_sep dir ≡ false
    → is_empty name ≡ false
    → last_sep name ≡ none
    → (name_of_path (merge_path dir name) ≡ name) × (dir_of_path (merge_path dir name) ≡ dir)
unfolding name_of_path dir_of_path merge_path
merge_path-parts dir name d s n e =
    rw (no_start name e, d, n, s, name_of_path, dir_of_path, last_sep-join dir name e) (refl, refl)
