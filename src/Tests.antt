-- ===== src/Tests.antt =====
-- Runs of the components on small inputs.
use okscada.Prelude.{
  ℕ, ◌<◌, ◌≡◌, ◌↔◌, refl, true, false, List, [], ◌∷◌, some, take, arith, ◌==◌, if◌then◌else◌,
}
use okscada.Prelude.CString.{StringCompare, bytes_eq, bytes_eq_iff}
use okscada.Tree.{Tree, new_tree, numeric_fence, tree_num_add, tree_num_add_or_set}
use okscada.Tree.Map.{add_key}
use okscada.Tree.Numeric.{IsNumeric, num_lookup}
use okscada.Tree.Refine.{tree_num_add_refines, tree_num_add_or_set_refines, fresh-IsNumeric}
use okscada.Tree.Text.{tree_add}
use okscada.Tree.Text.Sound.{IsText, text_lookup}
use okscada.Tree.Text.Refine.{fresh-IsText}
use okscada.Tree.Text.Bounds.{Fits, tree_add_refines}
use okscada.Ooid.{init_factory, find_ooid_by_name, find_name_by_ooid}
use okscada.Ooid.Inv.{Inv, init_factory-Inv, all_memory}
use okscada.Ooid.Names.{find_ooid_by_name_roundtrip}

-- A `strcmp` that tells equal from different.
abbrev pub differs : List ℕ → List ℕ → ℕ
differs a b = if bytes_eq a b then 0 else 1

pub differs_iff : (a b : List ℕ) → (differs a b ≡ 0) ↔ (a ≡ b)
differs_iff a b = ground (arith, bytes_eq_iff a b)

abbrev pub compare_bytes : StringCompare
compare_bytes = record {
  strcmp = differs;
  strncmp = λ a b n. differs (take n a) (take n b);
  strcmp_iff = differs_iff;
  strncmp_iff = λ a b n. differs_iff (take n a) (take n b);
}

abbrev empty_numeric : Tree
empty_numeric = new_tree numeric_fence

abbrev one_number : Tree
one_number = (tree_num_add true empty_numeric 77 5).0

one_number-IsNumeric : IsNumeric one_number
one_number-IsNumeric =
    (tree_num_add_refines empty_numeric 77 5 77 fresh-IsNumeric (omega arith) (omega arith)
      (omega arith)).0

tree_num_add_refines_example :
    let (u, rc) = tree_num_add true empty_numeric 77 5 in
    let (m, ok) = add_key ◌==◌ (num_lookup empty_numeric) 77 5 (num_lookup empty_numeric 77) in
    IsNumeric u × (num_lookup u 77 ≡ m 77) × (rc ≡ ok)
tree_num_add_refines_example =
    tree_num_add_refines empty_numeric 77 5 77 fresh-IsNumeric (omega arith) (omega arith)
      (omega arith)

tree_num_add_or_set_refines_example :
    let (u, rc) = tree_num_add_or_set true empty_numeric 77 6 in
    IsNumeric u
    × (num_lookup u 77 ≡ (if 77 == 77 then some 6 else num_lookup empty_numeric 77))
    × (rc ≡ true)
tree_num_add_or_set_refines_example =
    tree_num_add_or_set_refines empty_numeric 77 6 77 fresh-IsNumeric (omega arith) (omega arith)
      (omega arith)

abbrev path : List ℕ
path = 97 ∷ 98 ∷ []

abbrev pub one_path : Tree
one_path = (tree_add compare_bytes true true (new_tree 0) path 1).0

fresh-Fits : Fits (new_tree 0)
fresh-Fits = record { in_buffer = omega arith; no_overrun = refl }

pub one_path-IsText : IsText one_path
one_path-IsText =
    (tree_add_refines compare_bytes (new_tree 0) path path 1 fresh-IsText fresh-Fits
      (omega arith, (omega arith, tt)) (omega arith) (omega arith)).0

tree_add_refines_example :
    let (u, rc) = tree_add compare_bytes true true (new_tree 0) path 1 in
    let (m, ok) =
      add_key bytes_eq
        (text_lookup compare_bytes (new_tree 0))
        path
        1
        (text_lookup compare_bytes (new_tree 0) path) in
    IsText u × Fits u × (text_lookup compare_bytes u path ≡ m path) × (rc ≡ ok)
tree_add_refines_example =
    tree_add_refines compare_bytes (new_tree 0) path path 1 fresh-IsText fresh-Fits
      (omega arith, (omega arith, tt)) (omega arith) (omega arith)

find_ooid_by_name_roundtrip_example :
    let (g, o) = find_ooid_by_name compare_bytes all_memory init_factory path true in
    Inv compare_bytes g
    × Fits g.by_path
    × (0 < o)
    × ((find_name_by_ooid g o).1 ≡ some path)
    × ((find_ooid_by_name compare_bytes all_memory g path false).1 ≡ o)
find_ooid_by_name_roundtrip_example =
    find_ooid_by_name_roundtrip compare_bytes init_factory path false
      (init_factory-Inv compare_bytes) fresh-Fits (omega arith, (omega arith, tt)) (omega arith)
      (omega arith) (omega arith) (omega arith)
