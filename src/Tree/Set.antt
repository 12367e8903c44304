-- ===== src/Tree/Set.antt =====
-- `treeNumFindInternal` with a new value: the node that the search found gets it.
use okscada.Prelude.{
  ℕ, ◌^◌, ◌<◌, ◌≡◌, refl, sym, ap, ◌≢◌, ◌⊎◌, inl, inr, Bool, true, false, Option, none, some,
  length, get_or, arith, ==_false, ==_refl,
}
use native.Mathlib.Decide.{ℕ_discrete}
use okscada.Tree.{Tree, descend, num_probe, num_root, tree_num_find_set, store_val}
use okscada.Tree.Walk.{Outcome, hit, miss, lost, found}
use okscada.Tree.Walk.Store.{
  stored, node-stored_self, node-stored_ne, length-stored, key-stored, stored-LinksUp, walk-stored,
}
use okscada.Tree.Insert.{descend-Matches}
use okscada.Tree.Numeric.{IsNumeric, Updated, num_lookup, value, sized, guard-IsNumeric}

module _ (t : Tree) (i v m : ℕ) (w : IsNumeric t) (b : i < length t.e_arr) where
  abbrev with_value : Tree
  with_value = record t { e_arr = stored t.e_arr i v; max_lev = m }

  with_value-IsNumeric : IsNumeric with_value
  with_value-IsNumeric = record {
    sound = record {
      up = stored-LinksUp t.e_arr i v b w.sound.up;
      root_size = w.sound.root_size;
      roots = λ l h. rw (length-stored t.e_arr i v) (w.sound.roots l h);
    };
    numeric = w.numeric;
    good = w.good;
    keys =
        λ k a h. rw (key-stored t.e_arr i v k b) (w.keys k a (rw (length-stored t.e_arr i v) at h));
  }

  descend-with_value : (q : ℕ → ℕ → ℕ) (s : ℕ) → descend q with_value s ≡ descend q t s
  descend-with_value q s =
      rw (length-stored t.e_arr i v)
        (walk-stored t.e_arr i v q b (length t.e_arr) (get_or t.root s 0) 0 0 0)

  value-with_value : (o : Option ℕ) → o ≢ some i → value with_value o ≡ value t o
  value-with_value none ne = refl
  value-with_value (some k) ne =
      ap (λ n. some n.val) (node-stored_ne t.e_arr i v k (λ e. ne (ap some (sym e))))

  -- The node of another key is another node.
  found_ne :
      (key j : ℕ)
      → j ≢ key
      → key < 2 ^ 32
      → j < 2 ^ 32
      → found (descend (num_probe key) t (num_root key)) ≡ some i
      → found (descend (num_probe j) t (num_root j)) ≢ some i
  found_ne key j ne h l e e' =
      let (a, _, p) = descend-Matches (num_probe key) t (num_root key) i w.sound (omega arith) e in
      let (_, _, q) = descend-Matches (num_probe j) t (num_root j) i w.sound (omega arith) e' in
      let k = w.keys i a b in ne (omega arith)

  pub with_value-Updated :
      (key : ℕ)
      → key < 2 ^ 32
      → found (descend (num_probe key) t (num_root key)) ≡ some i
      → Updated t with_value key v
  unfolding num_lookup
  with_value-Updated key h e = record {
    numeric = with_value-IsNumeric;
    lookups = λ j l. elim (ℕ_discrete j key) [
      | yes z ↦
          rw (z, ==_refl key, descend-with_value (num_probe key) (num_root key), e)
            (ap (λ n. some n.val) (node-stored_self t.e_arr i v b))
      | no ne ↦
          rw (==_false j key ne, descend-with_value (num_probe j) (num_root j))
            (value-with_value _ (found_ne key j ne h l e))
    ];
  }

-- The search finds the key and stores the value, or changes nothing but the statistics.
abbrev pub SetCases : Tree → ℕ → ℕ → Tree × Bool → Type 0
SetCases t key v r =
    ((u : Tree) × (r ≡ (u, true)) × Updated t u key v)
    ⊎ ((m : ℕ) × (r ≡ (sized t t.e_lim m, false)) × (num_lookup t key ≡ none))

store-cases :
    (t : Tree) (key v : ℕ) (o : Outcome)
    → IsNumeric t
    → key < 2 ^ 32
    → descend (num_probe key) t (num_root key) ≡ o
    → SetCases t key v (store_val t o v)
unfolding num_lookup sized
store-cases t key v (hit i lev) w h e =
    let f : found (descend (num_probe key) t (num_root key)) ≡ some i = ap found e in
    let (_, b, _) = descend-Matches (num_probe key) t (num_root key) i w.sound (omega arith) f in
    inl (_, refl, with_value-Updated t i v _ w b key h f)
store-cases t key v (miss pno k lev) w h e = inr (_, refl, ap (λ o. value t (found o)) e)
store-cases t key v lost w h e = inr (t.max_lev, refl, ap (λ o. value t (found o)) e)

pub find_set-cases :
    (t : Tree) (key v : ℕ)
    → IsNumeric t
    → key < 2 ^ 32
    → SetCases t key v (tree_num_find_set t key v)
unfolding tree_num_find_set
find_set-cases t key v w h =
    rw (guard-IsNumeric t w)
      (store-cases t key v (descend (num_probe key) t (num_root key)) w h refl)
