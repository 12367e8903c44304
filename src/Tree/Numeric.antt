-- ===== src/Tree/Numeric.antt =====
-- The numeric tree refines a finite map from 32-bit keys to values.
use okscada.Prelude.{
  ℕ, ◌+◌, ◌%◌, ◌^◌, ◌<◌, ◌≡◌, refl, ◌∙◌, ap, ◌≢◌, inl, inr, true, false, not, ◌||◌, Option, none,
  some, length, arith, ◌==◌, if◌then◌else◌, ==_false, ==_refl, Option-cases, Bool-cases, ltb,
}
use native.Mathlib.Decide.{ℕ_discrete, dec_lt}
use okscada.Tree.{
  Tree, descend, num_probe, num_root, numeric_fence, tree_num_find, num_append, num_branch_insert,
  settle, ushort_mod, array_growth,
}
use okscada.Tree.Walk.{TreeNode, node, Outcome, hit, miss, lost, found, nchars, no_links}
use okscada.Tree.Insert.{IsSound, Inserted, descend-Matches, insert_at-Inserted}
use okscada.Tree.Walk.Append.{appended, appended-Extends}

-- The value of the node that a search found.
abbrev pub value : Tree → Option ℕ → Option ℕ
value t none = none
value t (some i) = some (node t.e_arr i).val

-- The map that a numeric tree stands for.
unfoldable pub num_lookup : Tree → ℕ → Option ℕ
num_lookup t key = value t (found (descend (num_probe key) t (num_root key)))

pub record IsNumeric (t : Tree) : Type 0 where
  pub sound : IsSound t
  pub numeric : t.fence ≡ numeric_fence
  pub good : t.bad ≡ false
  pub keys : (i : ℕ) → 0 < i → i < length t.e_arr → (node t.e_arr i).key < 2 ^ 32

num_probe_self : (key len : ℕ) → num_probe key key len ≡ 0
num_probe_self key len = omega arith

num_probe_ne : (key j len : ℕ) → key < 2 ^ 32 → j < 2 ^ 32 → j ≢ key → num_probe j key len ≢ 0
num_probe_ne key j len h l ne = omega arith

value-settle : (t : Tree) (w : Outcome) → (settle t w).1 ≡ value t (found w)
value-settle t (hit i lev) = refl
value-settle t (miss pno k lev) = refl
value-settle t lost = refl

-- The guard of every numeric operation.
pub guard-IsNumeric : (t : Tree) → IsNumeric t → (t.bad || not (t.fence == numeric_fence)) ≡ false
guard-IsNumeric t v = ground (arith, v.good, v.numeric)

pub tree_num_find_lem :
    (t : Tree) (key : ℕ) → IsNumeric t → (tree_num_find t key).1 ≡ num_lookup t key
unfolding num_lookup tree_num_find
tree_num_find_lem t key v =
    rw (guard-IsNumeric t v) (value-settle t (descend (num_probe key) t (num_root key)))

-- A search that the new node does not match keeps its value, too.
pub value-Inserted :
    (q : ℕ → ℕ → ℕ) (t u : Tree) (slot : ℕ) (n : TreeNode) (probe : ℕ → ℕ → ℕ) (s : ℕ)
    → IsSound t
    → s < nchars
    → Inserted probe t u slot n
    → q n.key n.len ≢ 0
    → value u (found (descend q u s)) ≡ value t (found (descend q t s))
value-Inserted q t u slot n probe s v m x ne = elim (Option-cases (found (descend q t s))) [
  | inl e ↦ rw (x.others q s m ne, e)
  | inr (j, e) ↦
      let (a, b, _) = descend-Matches q t s j v m e in
      rw (x.others q s m ne, e) (ap some (x.extends.same_val j a b))
]

-- `u` is `t` with one more key, or with another value for it.
pub record Updated (t u : Tree) (key v : ℕ) : Type 0 where
  pub numeric : IsNumeric u
  pub lookups :
      (j : ℕ) → j < 2 ^ 32 → num_lookup u j ≡ (if j == key then some v else num_lookup t j)

keys-Inserted :
    (t u : Tree) (slot : ℕ) (n : TreeNode) (probe : ℕ → ℕ → ℕ)
    → IsNumeric t
    → Inserted probe t u slot n
    → n.key < 2 ^ 32
    → (i : ℕ) → 0 < i
    → i < length u.e_arr
    → (node u.e_arr i).key < 2 ^ 32
keys-Inserted t u slot n probe v x h i a b = elim (dec_lt i (length t.e_arr)) [
  | yes l ↦ rw (x.extends.same_key i a l) (v.keys i a l)
  | no g ↦ let e : i ≡ length t.e_arr = omega (arith, x.extends.size) in rw (e, x.extends.last) h
]

Inserted-Updated :
    (t u : Tree) (n : TreeNode)
    → IsNumeric t
    → n.key < 2 ^ 32
    → Inserted (num_probe n.key) t u (num_root n.key) n
    → Updated t u n.key n.val
unfolding num_lookup
Inserted-Updated t u n v h x = record {
  numeric = record {
    sound = x.sound;
    numeric = x.same_fence ∙ v.numeric;
    good = x.same_bad ∙ v.good;
    keys = keys-Inserted t u (num_root n.key) n (num_probe n.key) v x h;
  };
  lookups = λ j l. elim (ℕ_discrete j n.key) [
    | yes e ↦ rw (e, ==_refl n.key, x.self) (ap (λ m. some m.val) x.extends.last)
    | no ne ↦ rw (==_false j n.key ne) (
        value-Inserted (num_probe j) t u (num_root n.key) n (num_probe n.key) (num_root j) v.sound
          (omega arith) x (num_probe_ne n.key j n.len h l ne))
  ];
}

-- The allocation limit and the depth statistics are no part of the map.
unfoldable pub sized : Tree → ℕ → ℕ → Tree
sized t l m = record t { e_lim = l; max_lev = m }

pub sized-IsNumeric : (t : Tree) (l m : ℕ) → IsNumeric t → IsNumeric (sized t l m)
unfolding sized
sized-IsNumeric t l m v = record {
  sound = record { up = v.sound.up; root_size = v.sound.root_size; roots = v.sound.roots };
  numeric = v.numeric;
  good = v.good;
  keys = v.keys;
}

pub sized-Updated : (t u : Tree) (l m key v : ℕ) → Updated (sized t l m) u key v → Updated t u key v
unfolding num_lookup sized
sized-Updated t u l m key v x = record { numeric = x.numeric; lookups = x.lookups }

pub value-none : (t : Tree) (o : Option ℕ) → value t o ≡ none → o ≡ none
value-none t none e = refl
value-none t (some i) e = cc

pub insert_guard : (t : Tree) (i : ℕ) → i ≢ 0 → t.bad ≡ false → (i == 0 || t.bad) ≡ false
insert_guard t i nz good = ground arith

num_branch_insert-Updated :
    (t : Tree) (n : TreeNode)
    → IsNumeric t
    → n.link ≡ no_links
    → n.key < 2 ^ 32
    → length t.e_arr < ushort_mod
    → num_lookup t n.key ≡ none
    → let (u, rc) =
        num_branch_insert (record t { e_arr = appended t.e_arr n }) (length t.e_arr % ushort_mod) in
      Updated t u n.key n.val × (rc ≡ true)
unfolding num_lookup num_branch_insert
num_branch_insert-Updated t n w f h room e =
    let pos = w.sound.up.nonempty in
    let small : length t.e_arr % ushort_mod ≡ length t.e_arr = omega arith in
    let (x, ok) =
      insert_at-Inserted t n w.sound f (num_root n.key) (omega arith) (num_probe n.key)
        (num_probe_self n.key n.len)
        (value-none t (found (descend (num_probe n.key) t (num_root n.key))) e) in
    rw
      (
        small,
        insert_guard t (length t.e_arr) (omega arith) w.good,
        (appended-Extends t.e_arr n f).last,
      )
      (Inserted-Updated t _ n w h x, ok)

-- A fresh node for a key that the tree lacks, while a `ushort_t` can number it.
pub num_append-Updated :
    (t : Tree) (key v : ℕ)
    → IsNumeric t
    → key < 2 ^ 32
    → length t.e_arr < ushort_mod
    → num_lookup t key ≡ none
    → let (u, rc) = num_append true t key v in Updated t u key v × (rc ≡ true)
unfolding num_append sized num_lookup
num_append-Updated t key v w h room e = elim (Bool-cases (ltb (length t.e_arr) t.e_lim)) [
  | inl fits ↦ rw (fits, num_append) (num_branch_insert-Updated t n w refl h room e)
  | inr full ↦
      rw (full, num_append)
        (let r =
            num_branch_insert-Updated (sized t (t.e_lim + array_growth) t.max_lev) n
              (sized-IsNumeric t _ _ w) refl h room e in
          (sized-Updated t _ _ _ key v r.0, r.1))
]
  where
    n : TreeNode
    n = record { val = v; key = key; len = 0; link = no_links }

-- A search changes nothing but the depth statistics.
settle-sized :
    (t : Tree) (w : Outcome) → (m : ℕ) × (settle t w ≡ (sized t t.e_lim m, value t (found w)))
unfolding sized
settle-sized t (hit i lev) = (if ltb t.max_lev lev then lev else t.max_lev, refl)
settle-sized t (miss pno k lev) = (if ltb t.max_lev lev then lev else t.max_lev, refl)
settle-sized t lost = (t.max_lev, refl)

pub find-sized :
    (t : Tree) (key : ℕ)
    → IsNumeric t
    → (m : ℕ) × (tree_num_find t key ≡ (sized t t.e_lim m, num_lookup t key))
unfolding num_lookup tree_num_find
find-sized t key v =
    rw (guard-IsNumeric t v) (settle-sized t (descend (num_probe key) t (num_root key)))

pub num_lookup-sized : (t : Tree) (l m j : ℕ) → num_lookup (sized t l m) j ≡ num_lookup t j
unfolding num_lookup sized
num_lookup-sized t l m j = refl
