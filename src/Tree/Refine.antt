-- ===== src/Tree/Refine.antt =====
-- `treeNumFind`, `treeNumAdd` and `treeNumAddOrSet` against a map from 32-bit keys.
use okscada.Prelude.{
  ℕ, ◌^◌, ◌<◌, ◌≡◌, refl, ◌∙◌, inl, inr, true, none, some, length, arith, ◌==◌, if◌then◌else◌,
  Option-cases,
}
use okscada.Tree.{
  Tree, numeric_fence, tree_num_find, tree_num_add, tree_num_add_or_set, num_append, ushort_mod,
  new_tree, tree_alloc, num_probe, num_root,
}
use okscada.Prelude.Int.{negsuc}
use okscada.Tree.Fresh.{fresh-IsSound, fresh-descend}
use okscada.Tree.Map.{add_key}
use okscada.Tree.Set.{find_set-cases}
use okscada.Tree.Numeric.{
  IsNumeric, Updated, num_lookup, sized, sized-IsNumeric, sized-Updated, num_lookup-sized,
  num_append-Updated, find-sized, guard-IsNumeric,
}

append-sized :
    (t : Tree) (m key v : ℕ)
    → IsNumeric t
    → key < 2 ^ 32
    → length t.e_arr < ushort_mod
    → num_lookup t key ≡ none
    → let (u, rc) = num_append true (sized t t.e_lim m) key v in Updated t u key v × (rc ≡ true)
append-sized t m key v w h room z =
    let (x, ok) =
      num_append-Updated (sized t t.e_lim m) key v (sized-IsNumeric t _ m w) h
        (unfold sized in room) (num_lookup-sized t t.e_lim m key ∙ z) in
    (sized-Updated t _ t.e_lim m key v x, ok)

-- On a well-formed numeric tree that has fewer than 65536 slots, with memory to grow it, the insertion
-- of a 32-bit key leaves a well-formed numeric tree. A key that the map had not is added with its value and
-- the result is OK; one that it had leaves the map as it was, and the result is OK just when its value is the one given. Every other 32-bit
-- key keeps what it had.
pub tree_num_add_refines :
    (t : Tree) (key v j : ℕ)
    → IsNumeric t
    → key < 2 ^ 32
    → j < 2 ^ 32
    → length t.e_arr < ushort_mod
    → let (u, rc) = tree_num_add true t key v in
      let (m, ok) = add_key ◌==◌ (num_lookup t) key v (num_lookup t key) in
      IsNumeric u × (num_lookup u j ≡ m j) × (rc ≡ ok)
unfolding tree_num_add add_key
tree_num_add_refines t key v j w h l room =
    let (m, e) = find-sized t key w in
    rw (guard-IsNumeric t w, e)
      (elim (Option-cases (num_lookup t key)) [
        | inl z ↦
            let (x, ok) = append-sized t m key v w h room z in rw z (x.numeric, x.lookups j l, ok)
        | inr (x, z) ↦ rw z (sized-IsNumeric t t.e_lim m w, num_lookup-sized t t.e_lim m j, refl)
      ])

-- On a well-formed numeric tree `treeNumFind` returns what the map holds for the key. The tree stays
-- well-formed, and no key's value is changed by the search.
pub tree_num_find_refines :
    (t : Tree) (key j : ℕ)
    → IsNumeric t
    → let (u, r) = tree_num_find t key in
      IsNumeric u × (r ≡ num_lookup t key) × (num_lookup u j ≡ num_lookup t j)
tree_num_find_refines t key j w =
    let (m, e) = find-sized t key w in
    rw e (sized-IsNumeric t t.e_lim m w, refl, num_lookup-sized t t.e_lim m j)

-- On a well-formed numeric tree that has fewer than 65536 slots, with memory to grow it,
-- `treeNumAddOrSet` of a 32-bit key succeeds. The tree stays well-formed, and the map holds the value for
-- the key and, for each other 32-bit key, what it held before.
pub tree_num_add_or_set_refines :
    (t : Tree) (key v j : ℕ)
    → IsNumeric t
    → key < 2 ^ 32
    → j < 2 ^ 32
    → length t.e_arr < ushort_mod
    → let (u, rc) = tree_num_add_or_set true t key v in
      IsNumeric u × (num_lookup u j ≡ (if j == key then some v else num_lookup t j)) × (rc ≡ true)
unfolding tree_num_add_or_set
tree_num_add_or_set_refines t key v j w h l room = elim (find_set-cases t key v w h) [
  | inl (u, e, x) ↦ rw (guard-IsNumeric t w, e) (x.numeric, x.lookups j l, refl)
  | inr (m, e, z) ↦
      let (x, done) = append-sized t m key v w h room z in
      rw (guard-IsNumeric t w, e) (x.numeric, x.lookups j l, done)
]

pub fresh-IsNumeric : IsNumeric (new_tree numeric_fence)
fresh-IsNumeric = record {
  sound = fresh-IsSound numeric_fence;
  numeric = refl;
  good = refl;
  keys = λ i a b. absurd (omega arith);
}

pub fresh-num_lookup : (j : ℕ) → num_lookup (new_tree numeric_fence) j ≡ none
unfolding num_lookup
fresh-num_lookup j = rw (fresh-descend (num_probe j) numeric_fence (num_root j))

-- `treeAlloc (NUMERIC_TREE)` gives an empty map.
pub tree_alloc-IsNumeric :
    (j : ℕ) → (t : Tree) × (tree_alloc (negsuc 0) ≡ some t) × IsNumeric t × (num_lookup t j ≡ none)
unfolding tree_alloc
tree_alloc-IsNumeric j = (new_tree numeric_fence, refl, fresh-IsNumeric, fresh-num_lookup j)
