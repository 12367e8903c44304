-- ===== src/Tree/Text/Bounds.antt =====
-- `treeAdd` and the end of its buffer of strings, which grows once and by a fixed amount.
use okscada.Prelude.{
  ℕ, ◌+◌, ◌≤◌, ◌<◌, ◌≡◌, true, false, ◌||◌, List, [], ◌∷◌, ◌++◌, Option, none, some, length,
  length-append, ltb, leb, ◌==◌, get_or, arith, Bool-cases, inl, inr,
}
use okscada.Prelude.CString.{IsCStr, StringCompare, bytes_eq, str_at}
use okscada.Tree.{Tree, numeric_fence, settle, hang, descend, insert_at, ushort_mod}
use okscada.Tree.Map.{add_key}
use okscada.Tree.Walk.{Outcome, hit, miss, lost, node}
use okscada.Tree.Text.{
  str_root, str_probe, tree_find, str_branch_insert, str_append_node, str_append, tree_add,
  add_found,
}
use okscada.Tree.Text.Sound.{IsText, text_lookup}
use okscada.Tree.Text.Refine.{tree_add_lookups}

-- The strings are in the buffer, and none has been copied past its end.
pub record Fits (t : Tree) : Type 0 where
  pub in_buffer : length t.s_buf ≤ t.s_lim
  pub no_overrun : t.overrun ≡ false

-- The longest string that the growth of the buffer is sure to hold.
abbrev pub max_str : ℕ
max_str = 1023

settle-Fits : (t : Tree) (o : Outcome) → Fits t → Fits (settle t o).0
settle-Fits t (hit i lev) f = record { in_buffer = f.in_buffer; no_overrun = f.no_overrun }
settle-Fits t (miss pno k lev) f = record { in_buffer = f.in_buffer; no_overrun = f.no_overrun }
settle-Fits t lost f = f

hang-Fits : (t : Tree) (n : ℕ) (o : Outcome) → Fits t → Fits (hang t n o).0
hang-Fits t n (hit i lev) f = record { in_buffer = f.in_buffer; no_overrun = f.no_overrun }
hang-Fits t n (miss pno k lev) f = record { in_buffer = f.in_buffer; no_overrun = f.no_overrun }
hang-Fits t n lost f = f

insert_at-Fits :
    (probe : ℕ → ℕ → ℕ) (t : Tree) (slot n : ℕ) → Fits t → Fits (insert_at probe t slot n).0
insert_at-Fits probe t slot n f = elim (Bool-cases (get_or t.root slot 0 == 0)) [
  | inl e ↦ rw e (record { in_buffer = f.in_buffer; no_overrun = f.no_overrun })
  | inr e ↦ rw e (hang-Fits t n (descend probe t slot) f)
]

module _ (c : StringCompare) where
  pub tree_find-Fits : (t : Tree) (str : List ℕ) → Fits t → Fits (tree_find c t str).0
  unfolding tree_find
  tree_find-Fits t str f = elim (Bool-cases (t.bad || t.fence == numeric_fence)) [
    | inl e ↦ rw e f
    | inr e ↦ rw e (settle-Fits t (descend (str_probe c t.s_buf str) t (str_root str)) f)
  ]

  str_branch_insert-Fits : (t : Tree) (n : ℕ) → Fits t → Fits (str_branch_insert c t n).0
  unfolding str_branch_insert
  str_branch_insert-Fits t n f = elim (Bool-cases (n == 0 || t.bad)) [
    | inl e ↦ rw e f
    | inr e ↦ rw e (
        let str = str_at t.s_buf (node t.e_arr n).key in
        insert_at-Fits (str_probe c t.s_buf str) t (str_root str) n f)
  ]

  str_append_node-Fits :
      (t : Tree) (off : ℕ) (str : List ℕ) (v : ℕ)
      → Fits t
      → Fits (str_append_node c true t off str v).0
  unfolding str_append_node
  str_append_node-Fits t off str v f = elim (Bool-cases (ltb (length t.e_arr) t.e_lim)) [
    | inl e ↦
        rw (e, str_append_node)
          (str_branch_insert-Fits _ _
            (record { in_buffer = f.in_buffer; no_overrun = f.no_overrun }))
    | inr e ↦
        rw (e, str_append_node)
          (str_branch_insert-Fits _ _
            (record { in_buffer = f.in_buffer; no_overrun = f.no_overrun }))
  ]

  str_append-Fits :
      (t : Tree) (str : List ℕ) (v : ℕ)
      → Fits t
      → length str ≤ max_str
      → Fits (str_append c true true t str v).0
  unfolding str_append
  str_append-Fits t str v f h =
      let l = length-append t.s_buf (str ++ 0 ∷ []) in
      let l' = length-append str (0 ∷ []) in
      elim (Bool-cases (leb t.s_lim (length t.s_buf + length str + 2))) [
        | inl e ↦
            rw (e, str_append)
              (str_append_node-Fits _ _ str v (record {
                in_buffer = omega (arith, l, l', f.in_buffer, h);
                no_overrun = let b = f.in_buffer in let o = f.no_overrun in ground (arith, b, o, h);
              }))
        | inr e ↦
            rw (e, str_append)
              (str_append_node-Fits _ _ str v
                (record { in_buffer = ground (arith, l, l', e); no_overrun = f.no_overrun }))
      ]

  pub tree_add-Fits :
      (t : Tree) (str : List ℕ) (v : ℕ)
      → Fits t
      → length str ≤ max_str
      → Fits (tree_add c true true t str v).0
  unfolding tree_add
  tree_add-Fits t str v f h = elim (Bool-cases (t.bad || t.fence == numeric_fence)) [
    | inl e ↦ rw e f
    | inr e ↦ rw e (found-Fits (tree_find c t str) (tree_find-Fits t str f))
  ]
    where
      found-Fits : (p : Tree × Option ℕ) → Fits p.0 → Fits (add_found c true true str v p).0
      found-Fits (u, none) g = str_append-Fits u str v g h
      found-Fits (u, some w) g = g

  -- On a well-formed tree of strings that has fewer than 65536 slots and strings within their buffer, with memory to
  -- grow it, the insertion of a string without a 0 of at most 1023 bytes leaves such a tree, and copies nothing past
  -- the end of the buffer. A string that the map had not is added with its value and the result is OK; one that it
  -- had leaves the map as it was, and the result is OK just when its value is the one given. Every
  -- other string keeps what it had.
  pub tree_add_refines :
      (t : Tree) (str s : List ℕ) (v : ℕ)
      → IsText t
      → Fits t
      → IsCStr str
      → length str ≤ max_str
      → length t.e_arr < ushort_mod
      → let (u, rc) = tree_add c true true t str v in
        let (m, ok) = add_key bytes_eq (text_lookup c t) str v (text_lookup c t str) in
        IsText u × Fits u × (text_lookup c u s ≡ m s) × (rc ≡ ok)
  tree_add_refines t str s v w f h short room =
      let (a, b, d) = tree_add_lookups c t str s v w h room in
      (a, tree_add-Fits t str v f short, b, d)
