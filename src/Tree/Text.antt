-- ===== src/Tree/Text.antt =====
-- `treeFind` and `treeAdd`: the hash tree of strings.
pub mod Sound
pub mod Refine
pub mod Bounds
use okscada.Prelude.{
  ℕ, zero, suc, ◌+◌, ◌%◌, Bool, true, false, ◌||◌, List, [], ◌∷◌, ◌++◌, Option, none, some, length,
  get_or, ltb, leb, ◌==◌, if◌then◌else◌,
}
use okscada.Prelude.CString.{str_at, StringCompare}
use okscada.Tree.{
  Tree, buffer_growth, numeric_fence, settle, descend, failed, insert_at, ushort_mod, grow_array,
}
use okscada.Tree.Walk.{TreeNode, node, no_links, nchars}

-- The slot of `root` for a string: its first byte, or the terminator of the empty string.
abbrev pub str_root : List ℕ → ℕ
str_root [] = 0
str_root (b ∷ bs) = b % nchars

-- `strchr (str, tp->fence)`, as an offset; a fence of 0 is none.
pub fence_at : ℕ → List ℕ → Option ℕ
fence_at fence [] = none
fence_at fence (b ∷ bs) =
    let rest : Option ℕ = elim (fence_at fence bs) [ none ↦ none | some i ↦ some (suc i) ] in
    if fence == 0 then none else if b == fence then some 0 else rest

-- The field `len` of a new node.
unfoldable pub signif_len : ℕ → List ℕ → ℕ
signif_len fence str = elim (fence_at fence str) [ none ↦ 0 | some i ↦ i ]

-- The buffer has room for the string, or grows once, by a fixed amount; `mem` says whether `oxrenew` finds the
-- memory. The string and its terminator may be longer than the grown buffer, and are copied all the same.
abbrev pub grow_buffer : Bool → Tree → ℕ → Option Tree
grow_buffer mem t len =
    if leb t.s_lim (length t.s_buf + len + 2)
    then (if mem
        then some (record t {
          s_lim = t.s_lim + buffer_growth;
          overrun = t.overrun || ltb (t.s_lim + buffer_growth) (length t.s_buf + len + 1);
        })
        else none)
    else some t

module _ (c : StringCompare) where
  -- `strncmp` up to the length of the node's string that counts, or `strcmp`.
  abbrev pub str_probe : List ℕ → List ℕ → ℕ → ℕ → ℕ
  str_probe buf str key len =
      if len == 0 then c.strcmp str (str_at buf key) else c.strncmp str (str_at buf key) len

  -- `treeFind`.
  pub tree_find : Tree → List ℕ → Tree × Option ℕ
  tree_find t str =
      if t.bad || t.fence == numeric_fence
      then (t, none)
      else settle t (descend (str_probe t.s_buf str) t (str_root str))

  -- `treeBranchInsert` of a tree of strings.
  pub str_branch_insert : Tree → ℕ → Tree × Bool
  str_branch_insert t new_no =
      if new_no == 0 || t.bad
      then (t, false)
      else (let str = str_at t.s_buf (node t.e_arr new_no).key in
          insert_at (str_probe t.s_buf str) t (str_root str) new_no)

  -- The new node, once the string stands in the buffer at `off`.
  pub str_append_node : Bool → Tree → ℕ → List ℕ → ℕ → Tree × Bool
  str_append_node mem t off str v = elim (grow_array mem t) [
    | none ↦ failed t
    | some t' ↦
        let n : TreeNode = record {
          val = v;
          key = off;
          len = signif_len t'.fence str;
          link = no_links;
        } in
        str_branch_insert (record t' { e_arr = t'.e_arr ++ n ∷ [] }) (length t'.e_arr % ushort_mod)
  ]

  -- The part of `treeAdd` behind the search. `buf_mem` and `arr_mem` are the two allocations.
  pub str_append : Bool → Bool → Tree → List ℕ → ℕ → Tree × Bool
  str_append buf_mem arr_mem t str v = elim (grow_buffer buf_mem t (length str)) [
    | none ↦ failed t
    | some t' ↦
        str_append_node arr_mem (record t' { s_buf = t'.s_buf ++ (str ++ 0 ∷ []) })
          (length t'.s_buf) str v
  ]

  abbrev pub add_found : Bool → Bool → List ℕ → ℕ → Tree × Option ℕ → Tree × Bool
  add_found buf_mem arr_mem str v (t, none) = str_append buf_mem arr_mem t str v
  add_found buf_mem arr_mem str v (t, some w) = (t, w == v)

  -- `treeAdd`. OK is `true`.
  pub tree_add : Bool → Bool → Tree → List ℕ → ℕ → Tree × Bool
  tree_add buf_mem arr_mem t str v =
      if t.bad || t.fence == numeric_fence
      then (t, false)
      else add_found buf_mem arr_mem str v (tree_find t str)
