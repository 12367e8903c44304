-- ===== src/Tree/Map.antt =====
-- The finite map that both kinds of tree stand for.
use okscada.Prelude.{ℕ, Bool, true, Option, none, some, ◌==◌, if◌then◌else◌}

-- What `treeAdd` and `treeNumAdd` promise of a map, given what it holds for the key: a key that is
-- not there is added, and one that is there must have the same value.
unfoldable pub add_key :
    {K : Type 0} → (K → K → Bool) → (K → Option ℕ) → K → ℕ → Option ℕ → (K → Option ℕ) × Bool
add_key eq m key v none = (λ j. if eq j key then some v else m j, true)
add_key eq m key v (some w) = (m, w == v)
