-- ===== src/Tree/Text/Refine.antt =====
-- `treeFind` and `treeAdd` against a map from strings.
use okscada.Prelude.{
  ℕ, ◌+◌, ◌<◌, ◌≡◌, refl, ◌∙◌, inl, inr, Bool, true, false, ◌||◌, List, [], ◌∷◌, ◌++◌, none, length,
  ltb, leb, arith, ◌==◌, if◌then◌else◌, Option-cases, Bool-cases,
}
use okscada.Prelude.CString.{IsCStr, StringCompare, bytes_eq}
use okscada.Tree.{
  Tree, descend, numeric_fence, ushort_mod, settle, array_growth, buffer_growth, new_tree,
}
use okscada.Tree.Map.{add_key}
use okscada.Tree.Walk.{Outcome, hit, miss, lost, found}
use okscada.Tree.Fresh.{fresh-IsSound, fresh-descend}
use okscada.Tree.Numeric.{value}
use okscada.Tree.Text.{
  str_root, str_probe, tree_find, tree_add, str_append, str_append_node, signif_len, fence_at,
}
use okscada.Tree.Text.Sound.{IsText, text_lookup, TextUpdated, str_branch_insert-TextUpdated}

-- The limits of the buffers and the depth statistics are no part of the map.
unfoldable pub resized : Tree → ℕ → ℕ → ℕ → Tree
resized t a b m = record t { s_lim = a; e_lim = b; max_lev = m }

pub resized-IsText : (t : Tree) (a b m : ℕ) → IsText t → IsText (resized t a b m)
unfolding resized
resized-IsText t a b m w = record {
  sound = record { up = w.sound.up; root_size = w.sound.root_size; roots = w.sound.roots };
  plain = w.plain;
  good = w.good;
  lens = w.lens;
  keys = w.keys;
}

-- Neither is an overrun.
unfoldable overran : Tree → Bool → Tree
overran t b = record t { overrun = b }

overran-IsText : (t : Tree) (b : Bool) → IsText t → IsText (overran t b)
unfolding overran
overran-IsText t b w = record {
  sound = record { up = w.sound.up; root_size = w.sound.root_size; roots = w.sound.roots };
  plain = w.plain;
  good = w.good;
  lens = w.lens;
  keys = w.keys;
}

guard-IsText : (t : Tree) → IsText t → (t.bad || t.fence == numeric_fence) ≡ false
guard-IsText t w = ground (arith, w.good, w.plain)

signif_len_plain : (fence : ℕ) (str : List ℕ) → fence ≡ 0 → signif_len fence str ≡ 0
unfolding signif_len fence_at
signif_len_plain fence [] z = refl
signif_len_plain fence (b ∷ bs) z = ground arith

pub fresh-IsText : IsText (new_tree 0)
fresh-IsText = record {
  sound = fresh-IsSound 0;
  plain = refl;
  good = refl;
  lens = λ i a b. absurd (omega arith);
  keys = λ i a b. absurd (omega arith);
}

module _ (c : StringCompare) where
  pub lookup-resized :
      (t : Tree) (a b m : ℕ) (s : List ℕ) → text_lookup c (resized t a b m) s ≡ text_lookup c t s
  unfolding text_lookup resized
  lookup-resized t a b m s = refl

  resized-Updated :
      (t u : Tree) (a b m : ℕ) (str : List ℕ) (v : ℕ)
      → TextUpdated c (resized t a b m) u str v
      → TextUpdated c t u str v
  unfolding text_lookup resized
  resized-Updated t u a b m str v x = record { text = x.text; lookups = x.lookups }

  overran-Updated :
      (t u : Tree) (b : Bool) (str : List ℕ) (v : ℕ)
      → TextUpdated c (overran t b) u str v
      → TextUpdated c t u str v
  unfolding text_lookup overran
  overran-Updated t u b str v x = record { text = x.text; lookups = x.lookups }

  settle-resized :
      (t : Tree) (o : Outcome)
      → (m : ℕ) × (settle t o ≡ (resized t t.s_lim t.e_lim m, value t (found o)))
  unfolding resized
  settle-resized t (hit i lev) = (if ltb t.max_lev lev then lev else t.max_lev, refl)
  settle-resized t (miss pno k lev) = (if ltb t.max_lev lev then lev else t.max_lev, refl)
  settle-resized t lost = (t.max_lev, refl)

  pub find-resized :
      (t : Tree) (str : List ℕ)
      → IsText t
      → (m : ℕ) × (tree_find c t str ≡ (resized t t.s_lim t.e_lim m, text_lookup c t str))
  unfolding tree_find text_lookup
  find-resized t str w =
      rw (guard-IsText t w) (settle-resized t (descend (str_probe c t.s_buf str) t (str_root str)))

  module _ (t : Tree) (str : List ℕ) (v : ℕ) (w : IsText t) (h : IsCStr str)
      (room : length t.e_arr < ushort_mod) (e : text_lookup c t str ≡ none) where
    append_node-Updated :
        let (u, rc) =
          str_append_node c true
            (record t { s_buf = t.s_buf ++ (str ++ 0 ∷ []) })
            (length t.s_buf)
            str
            v in
        TextUpdated c t u str v × (rc ≡ true)
    unfolding str_append_node resized text_lookup
    append_node-Updated = elim (Bool-cases (ltb (length t.e_arr) t.e_lim)) [
      | inl fits ↦
          rw (fits, str_append_node, signif_len_plain t.fence str w.plain)
            (str_branch_insert-TextUpdated c t str v w h room e)
      | inr full ↦
          let t' = resized t t.s_lim (t.e_lim + array_growth) t.max_lev in
          let (x, done) =
            str_branch_insert-TextUpdated c t' str v (resized-IsText t _ _ _ w) h room e in
          rw (full, str_append_node, signif_len_plain t.fence str w.plain)
            (resized-Updated t _ _ _ _ str v x, done)
    ]

  -- A string that the tree lacks.
  append-Updated :
      (t : Tree) (str : List ℕ) (v : ℕ)
      → IsText t
      → IsCStr str
      → length t.e_arr < ushort_mod
      → text_lookup c t str ≡ none
      → let (u, rc) = str_append c true true t str v in TextUpdated c t u str v × (rc ≡ true)
  unfolding str_append resized text_lookup overran
  append-Updated t str v w h room e =
      elim (Bool-cases (leb t.s_lim (length t.s_buf + length str + 2))) [
        | inl full ↦
            let b = t.overrun || ltb (t.s_lim + buffer_growth) (length t.s_buf + length str + 1) in
            let r = resized t (t.s_lim + buffer_growth) t.e_lim t.max_lev in
            let (x, done) =
              append_node-Updated (overran r b) str v
                (overran-IsText r b (resized-IsText t _ _ _ w)) h room e in
            rw (full, str_append)
              (resized-Updated t _ _ _ _ str v (overran-Updated r _ b str v x), done)
        | inr fits ↦ rw (fits, str_append) (append_node-Updated t str v w h room e)
      ]

  append-resized :
      (t : Tree) (m : ℕ) (str : List ℕ) (v : ℕ)
      → IsText t
      → IsCStr str
      → length t.e_arr < ushort_mod
      → text_lookup c t str ≡ none
      → let (u, rc) = str_append c true true (resized t t.s_lim t.e_lim m) str v in
        TextUpdated c t u str v × (rc ≡ true)
  append-resized t m str v w h room e =
      let t' = resized t t.s_lim t.e_lim m in
      let (x, done) =
        append-Updated t' str v (resized-IsText t _ _ m w) h (unfold resized in room)
          (lookup-resized t _ _ m str ∙ e) in
      (resized-Updated t _ _ _ m str v x, done)

  -- `treeAdd` with regard to the map alone, also where the buffer was overrun.
  pub tree_add_lookups :
      (t : Tree) (str s : List ℕ) (v : ℕ)
      → IsText t
      → IsCStr str
      → length t.e_arr < ushort_mod
      → let (u, rc) = tree_add c true true t str v in
        let (m, ok) = add_key bytes_eq (text_lookup c t) str v (text_lookup c t str) in
        IsText u × (text_lookup c u s ≡ m s) × (rc ≡ ok)
  unfolding tree_add add_key
  tree_add_lookups t str s v w h room =
      let (m, f) = find-resized t str w in
      rw (guard-IsText t w, f)
        (elim (Option-cases (text_lookup c t str)) [
          | inl z ↦
              let (x, done) = append-resized t m str v w h room z in
              rw z (x.text, x.lookups s, done)
          | inr (x, z) ↦ rw z (resized-IsText t _ _ m w, lookup-resized t _ _ m s, refl)
        ])

  -- On a well-formed tree of strings `treeFind` returns what the map holds for the string. The tree
  -- stays well-formed, and no string's value is changed by the search.
  pub tree_find_refines :
      (t : Tree) (str s : List ℕ)
      → IsText t
      → let (u, r) = tree_find c t str in
        IsText u × (r ≡ text_lookup c t str) × (text_lookup c u s ≡ text_lookup c t s)
  tree_find_refines t str s w =
      let (m, f) = find-resized t str w in
      rw f (resized-IsText t _ _ m w, refl, lookup-resized t _ _ m s)

  pub fresh-text_lookup : (s : List ℕ) → text_lookup c (new_tree 0) s ≡ none
  unfolding text_lookup
  fresh-text_lookup s = rw (fresh-descend (str_probe c [] s) 0 (str_root s))
