-- ===== src/Tree/Full.antt =====
-- The numeric tree at its capacity: node numbers are 16 bits wide.
use okscada.Prelude.{
  ℕ, ◌+◌, ◌%◌, ◌≡◌, refl, ◌∙◌, ap, inl, inr, true, false, none, some, length, arith, Option-cases,
  Bool-cases, ltb,
}
use okscada.Tree.{
  Tree, descend, num_probe, num_root, tree_num_add, num_append, num_branch_insert, ushort_mod,
  array_growth,
}
use okscada.Tree.Walk.{TreeNode, found, no_links}
use okscada.Tree.Walk.Append.{appended, node-appended}
use okscada.Tree.Insert.{descend-appended, descend-Matches}
use okscada.Tree.Numeric.{
  IsNumeric, num_lookup, sized, sized-IsNumeric, num_lookup-sized, find-sized, guard-IsNumeric,
}

-- A node that no link leads to is not found.
lookup-appended :
    (t : Tree) (n : TreeNode) (j : ℕ)
    → IsNumeric t
    → n.link ≡ no_links
    → num_lookup (record t { e_arr = appended t.e_arr n }) j ≡ num_lookup t j
unfolding num_lookup
lookup-appended t n j w f =
    rw
      (descend-appended t n w.sound f (num_root j) (omega arith) (num_probe j) (num_root j)
        (omega arith))
      (elim (Option-cases (found (descend (num_probe j) t (num_root j)))) [
        | inl z ↦ rw z
        | inr (i, e) ↦
            let (_, b, _) =
              descend-Matches (num_probe j) t (num_root j) i w.sound (omega arith) e in
            rw e (ap (λ m. some m.val) (node-appended t.e_arr n i b))
      ])

num_append_full :
    (t : Tree) (key v j : ℕ)
    → IsNumeric t
    → length t.e_arr ≡ ushort_mod
    → let (u, rc) = num_append true t key v in (rc ≡ false) × (num_lookup u j ≡ num_lookup t j)
unfolding num_append num_branch_insert sized
num_append_full t key v j w full = elim (Bool-cases (ltb (length t.e_arr) t.e_lim)) [
  | inl fits ↦ rw (fits, num_append) (rw (wraps) (refl, lookup-appended t n j w refl))
  | inr grows ↦
      rw (grows, num_append)
        (rw (wraps) (
          refl,
          lookup-appended (sized t (t.e_lim + array_growth) t.max_lev) n j (sized-IsNumeric t _ _ w)
                refl
              ∙ num_lookup-sized t _ _ j,
        ))
]
  where
    n : TreeNode
    n = record { val = v; key = key; len = 0; link = no_links }

    wraps : length t.e_arr % ushort_mod ≡ 0
    wraps = omega arith

-- With 65536 slots filled, a key that is not there cannot be added, and no key is lost.
pub tree_num_add_full :
    (t : Tree) (key v j : ℕ)
    → IsNumeric t
    → num_lookup t key ≡ none
    → length t.e_arr ≡ ushort_mod
    → let (u, rc) = tree_num_add true t key v in (rc ≡ false) × (num_lookup u j ≡ num_lookup t j)
unfolding tree_num_add
tree_num_add_full t key v j w e full =
    let (m, f) = find-sized t key w in
    let (a, b) =
      num_append_full (sized t t.e_lim m) key v j (sized-IsNumeric t _ m w)
        (unfold sized in full) in
    rw (guard-IsNumeric t w, f, e) (a, b ∙ num_lookup-sized t t.e_lim m j)
