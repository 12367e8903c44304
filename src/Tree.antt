-- ===== src/Tree.antt =====
-- util/util-tree.c and include/optikus/tree.h: the hash tree from strings or numbers to numbers.
-- `Walk` holds the node array and the descent along the links; `Numeric` and `Text` prove what the
-- two kinds of tree do. A null `tree_t`, for which each operation returns ERROR or FALSE, is not a
-- value of the model; `treeFree` gives the memory back and has no result.
pub mod Walk
pub mod Insert
pub mod Numeric
pub mod Set
pub mod Map
pub mod Fresh
pub mod Refine
pub mod Full
pub mod Text
use okscada.Prelude.{
  ℕ, zero, suc, ◌+◌, ◌-◌, ◌%◌, ◌^◌, Bool, true, false, not, ◌||◌, List, [], ◌∷◌, ◌++◌, Option, none,
  some, length, get_or, set, drop, replicate, ltb, leb, ◌==◌, if◌then◌else◌,
}
use okscada.Prelude.Int.{ℤ, pos, negsuc}
use Walk.{TreeNode, null_node, node, no_links, nchars, Outcome, hit, miss, lost, walk, set_link}

-- `TreeBody_t`. `s_buf` and `e_arr` are the filled parts of the two buffers, so that `s_end` and
-- `e_end` are their lengths; slot 0 of `e_arr` counts as filled. `overrun` is no field of the source: it says that
-- `treeAdd` has copied a string past the end of `s_buf`.
pub record Tree : Type 0 where
  pub fence : ℕ
  pub s_buf : List ℕ
  pub s_lim : ℕ
  pub e_arr : List TreeNode
  pub e_lim : ℕ
  pub root : List ℕ
  pub bad : Bool
  pub max_lev : ℕ
  pub overrun : Bool

abbrev pub array_growth : ℕ
array_growth = 100

abbrev pub buffer_growth : ℕ
buffer_growth = 1024

-- `(char) NUMERIC_TREE`, as a byte.
abbrev pub numeric_fence : ℕ
numeric_fence = 255

abbrev pub new_tree : ℕ → Tree
new_tree fence = record {
  fence = fence;
  s_buf = [];
  s_lim = 0;
  e_arr = null_node ∷ [];
  e_lim = 0;
  root = replicate nchars 0;
  bad = false;
  max_lev = 0;
  overrun = false;
}

-- `treeAlloc`. -1 is NUMERIC_TREE; the fence is stored in a `char`.
pub tree_alloc : ℤ → Option Tree
tree_alloc (pos n) = if ltb n nchars then some (new_tree n) else none
tree_alloc (negsuc n) = if n == 0 then some (new_tree numeric_fence) else none

-- `treeGetDepth`.
pub tree_get_depth : Tree → ℕ
tree_get_depth t = t.max_lev

-- `if (lev > tp->max_lev) tp->max_lev = lev;`
abbrev pub note_level : Tree → ℕ → Tree
note_level t lev = record t { max_lev = if ltb t.max_lev lev then lev else t.max_lev }

-- The tree and `*val` that a search returns.
abbrev pub settle : Tree → Outcome → Tree × Option ℕ
settle t (hit i lev) = (note_level t lev, some (node t.e_arr i).val)
settle t (miss pno k lev) = (note_level t lev, none)
settle t lost = (t, none)

-- `key - e[no].key` as a `uint_t`.
abbrev pub num_probe : ℕ → ℕ → ℕ → ℕ
num_probe key node_key len = (key + 2 ^ 32 - node_key) % 2 ^ 32

abbrev pub num_root : ℕ → ℕ
num_root key = key % nchars

-- The walk from the root slot; as many rounds as there are slots are enough.
abbrev pub descend : (ℕ → ℕ → ℕ) → Tree → ℕ → Outcome
descend probe t slot = walk probe (length t.e_arr) t.e_arr (get_or t.root slot 0) 0 0 0

-- `treeNumFind`, which is `treeNumFindInternal` with a null `new_val`.
pub tree_num_find : Tree → ℕ → Tree × Option ℕ
tree_num_find t key =
    if t.bad || not (t.fence == numeric_fence)
    then (t, none)
    else settle t (descend (num_probe key) t (num_root key))

-- `e[no].val = *new_val`, where the search ended at a node; and whether it did.
abbrev pub store_val : Tree → Outcome → ℕ → Tree × Bool
store_val t (hit i lev) v =
    let n = node t.e_arr i in
    (note_level (record t { e_arr = set t.e_arr i (record n { val = v }) }) lev, true)
store_val t (miss pno k lev) v = (note_level t lev, false)
store_val t lost v = (t, false)

-- `treeNumFindInternal` with a `new_val`; the flag is its result.
pub tree_num_find_set : Tree → ℕ → ℕ → Tree × Bool
tree_num_find_set t key v =
    if t.bad || not (t.fence == numeric_fence)
    then (t, false)
    else store_val t (descend (num_probe key) t (num_root key)) v

-- `goto FAIL`.
abbrev pub failed : Tree → Tree × Bool
failed t = (record t { bad = true }, false)

-- The end of the walk in `treeBranchInsert`: an equal node is an error.
abbrev pub hang : Tree → ℕ → Outcome → Tree × Bool
hang t new_no (hit i lev) = (note_level t lev, false)
hang t new_no (miss pno k lev) =
    (note_level (record t { e_arr = set_link t.e_arr pno k new_no }) lev, true)
hang t new_no lost = (t, false)

-- The new branch goes into the root slot if that is empty, and else where the walk ends.
abbrev pub insert_at : (ℕ → ℕ → ℕ) → Tree → ℕ → ℕ → Tree × Bool
insert_at probe t slot new_no =
    if get_or t.root slot 0 == 0
    then (record t { root = set t.root slot new_no }, true)
    else hang t new_no (descend probe t slot)

-- A node number is a `ushort_t`.
abbrev pub ushort_mod : ℕ
ushort_mod = 2 ^ 16

-- The array has room for one more node, or grows; `mem` says whether `oxrenew` finds the memory.
abbrev pub grow_array : Bool → Tree → Option Tree
grow_array mem t =
    if ltb (length t.e_arr) t.e_lim
    then some t
    else if mem
    then some (record t { e_lim = t.e_lim + array_growth })
    else none

-- `treeBranchInsert` of a numeric tree.
pub num_branch_insert : Tree → ℕ → Tree × Bool
num_branch_insert t new_no =
    if new_no == 0 || t.bad
    then (t, false)
    else (let key = (node t.e_arr new_no).key in insert_at (num_probe key) t (num_root key) new_no)

-- The part of `treeNumAddInternal` behind the search.
pub num_append : Bool → Tree → ℕ → ℕ → Tree × Bool
num_append mem t key v = elim (grow_array mem t) [
  | none ↦ failed t
  | some t' ↦
      let n : TreeNode = record { val = v; key = key; len = 0; link = no_links } in
      num_branch_insert (record t' { e_arr = t'.e_arr ++ n ∷ [] }) (length t'.e_arr % ushort_mod)
]

-- `treeNumAdd` behind its search: a key that is there already must have the same value.
abbrev pub num_add_found : Bool → ℕ → ℕ → Tree × Option ℕ → Tree × Bool
num_add_found mem key v (t, none) = num_append mem t key v
num_add_found mem key v (t, some w) = (t, w == v)

-- `treeNumAdd`, which is `treeNumAddInternal` without `force`. OK is `true`.
pub tree_num_add : Bool → Tree → ℕ → ℕ → Tree × Bool
tree_num_add mem t key v =
    if t.bad || not (t.fence == numeric_fence)
    then (t, false)
    else num_add_found mem key v (tree_num_find t key)

-- `treeNumAddOrSet` behind its search.
abbrev pub num_set_found : Bool → ℕ → ℕ → Tree × Bool → Tree × Bool
num_set_found mem key v (t, true) = (t, true)
num_set_found mem key v (t, false) = num_append mem t key v

-- `treeNumAddOrSet`, which is `treeNumAddInternal` with `force`.
pub tree_num_add_or_set : Bool → Tree → ℕ → ℕ → Tree × Bool
tree_num_add_or_set mem t key v =
    if t.bad || not (t.fence == numeric_fence)
    then (t, false)
    else num_set_found mem key v (tree_num_find_set t key v)
