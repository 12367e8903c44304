-- ===== src/Tree/Insert.antt =====
-- `treeBranchInsert` for any comparison: what the insertion of a new node does to every search.
use okscada.Prelude.{
  ℕ, ◌<◌, ◌≡◌, refl, sym, ◌∙◌, ◌≢◌, ◌⊎◌, inl, inr, true, length, get_or, set, arith, ==_false, some,
  none, length-set, get_or-set_self, get_or-set_ne,
}
use native.Mathlib.Decide.{ℕ_discrete}
use okscada.Tree.{Tree, descend, insert_at}
use okscada.Tree.Walk.{TreeNode, node, Outcome, hit, miss, lost, found, nchars, no_links}
use okscada.Tree.Walk.Links.{LinksUp, HasFuel-root, walk-ne-lost, walk-Matches, walk-agree}
use okscada.Tree.Walk.Insert.{
  Extends, Extends-LinksUp, walk-other, walk_self, new_found, missed_from, walk_null,
}
use okscada.Tree.Walk.Append.{
  appended, appended-Extends, length-appended, walk-appended, walk-EndsAt, hung_at, hung-Extends,
  link-hung,
}

-- The links lead upwards, and each of the 256 root slots is empty or leads into the array.
pub record IsSound (t : Tree) : Type 0 where
  pub up : LinksUp t.e_arr
  pub root_size : length t.root ≡ nchars
  pub roots : (l : ℕ) → l < nchars → get_or t.root l 0 < length t.e_arr

-- `u` is `t` with node `n` behind it: `probe` from `slot` finds the node, and every comparison that
-- the node does not match finds what it found before.
pub record Inserted (probe : ℕ → ℕ → ℕ) (t u : Tree) (slot : ℕ) (n : TreeNode) : Type 0 where
  pub sound : IsSound u
  pub extends : Extends t.e_arr u.e_arr n
  pub self : found (descend probe u slot) ≡ some (length t.e_arr)
  pub others :
      (q : ℕ → ℕ → ℕ) (s : ℕ)
      → s < nchars
      → q n.key n.len ≢ 0
      → found (descend q u s) ≡ found (descend q t s)
  pub same_fence : u.fence ≡ t.fence
  pub same_bad : u.bad ≡ t.bad
  pub same_buf : u.s_buf ≡ t.s_buf

pub descend-ne-lost :
    (q : ℕ → ℕ → ℕ) (t : Tree) (s : ℕ) → IsSound t → s < nchars → descend q t s ≢ lost
descend-ne-lost q t s v h =
    walk-ne-lost q t.e_arr v.up (length t.e_arr) (get_or t.root s 0) 0 0 0
      (HasFuel-root t.e_arr (get_or t.root s 0) v.up.nonempty (v.roots s h))

missed :
    (w : Outcome)
    → w ≢ lost
    → found w ≡ none
    → (pno : ℕ) × (k : ℕ) × (lev : ℕ) × (w ≡ miss pno k lev)
missed (hit i lev) h e = cc
missed (miss pno k lev) h e = (pno, k, lev, refl)
missed lost h e = absurd (h refl)

module _ (t : Tree) (n : TreeNode) (v : IsSound t) (f : n.link ≡ no_links) (slot : ℕ)
    (h : slot < nchars) where
  abbrev with_node : Tree
  with_node = record t { e_arr = appended t.e_arr n }

  -- The walk of the insertion, over the array that holds the new node, is the walk of the search.
  pub descend-appended :
      (q : ℕ → ℕ → ℕ) (s : ℕ) → s < nchars → descend q with_node s ≡ descend q t s
  descend-appended q s m = rw (length-appended t.e_arr n) (
      walk-appended t.e_arr n q v.up (length t.e_arr) (get_or t.root s 0) 0 0 0
        (HasFuel-root t.e_arr (get_or t.root s 0) v.up.nonempty (v.roots s m)))

  module _ (u : Tree) (x : Extends t.e_arr u.e_arr n) where
    roots-Extends :
        (s : ℕ)
        → s < nchars
        → (get_or u.root s 0 ≡ get_or t.root s 0) ⊎ (get_or u.root s 0 ≡ length t.e_arr)
        → get_or u.root s 0 < length u.e_arr
    roots-Extends s m (inl e) = omega (arith, v.roots s m, x.size)
    roots-Extends s m (inr e) = omega (arith, x.size)

    descend_same :
        (q : ℕ → ℕ → ℕ) (s : ℕ)
        → s < nchars
        → q n.key n.len ≢ 0
        → get_or u.root s 0 ≡ get_or t.root s 0
        → found (descend q u s) ≡ found (descend q t s)
    descend_same q s m ne e =
        rw (x.size, e)
          (walk-other t.e_arr u.e_arr n v.up x q (length t.e_arr) (get_or t.root s 0) 0 0 0 0 0 0 ne
            (HasFuel-root t.e_arr (get_or t.root s 0) v.up.nonempty (v.roots s m)))

    descend_new :
        (q : ℕ → ℕ → ℕ) (s : ℕ)
        → q n.key n.len ≢ 0
        → get_or u.root s 0 ≡ length t.e_arr
        → get_or t.root s 0 ≡ 0
        → found (descend q u s) ≡ found (descend q t s)
    descend_new q s ne e z =
        rw (x.size) (
          missed_from t.e_arr u.e_arr n v.up x q (length t.e_arr) (get_or u.root s 0) 0 0 0 ne
            v.up.nonempty e)
        ∙ sym (walk_null t.e_arr u.e_arr n v.up x q t.e_arr (length t.e_arr) _ 0 0 0 z)

  abbrev rooted : Tree
  rooted = record with_node { root = set t.root slot (length t.e_arr) }

  root-rooted_self : get_or rooted.root slot 0 ≡ length t.e_arr
  root-rooted_self = get_or-set_self t.root slot _ 0 (omega (arith, v.root_size))

  root-rooted_ne : (s : ℕ) → slot ≢ s → get_or rooted.root s 0 ≡ get_or t.root s 0
  root-rooted_ne s ne = get_or-set_ne t.root slot s _ 0 ne

  rooted_roots :
      (s : ℕ)
      → (get_or rooted.root s 0 ≡ get_or t.root s 0) ⊎ (get_or rooted.root s 0 ≡ length t.e_arr)
  rooted_roots s = elim (ℕ_discrete slot s) [
    | yes e ↦ inr (rw (← e) root-rooted_self)
    | no ne ↦ inl (root-rooted_ne s ne)
  ]

  rooted_others :
      get_or t.root slot 0 ≡ 0
      → (q : ℕ → ℕ → ℕ) (s : ℕ) → s < nchars
      → q n.key n.len ≢ 0
      → found (descend q rooted s) ≡ found (descend q t s)
  rooted_others z q s m ne = elim (ℕ_discrete slot s) [
    | yes e ↦
        descend_new rooted (appended-Extends t.e_arr n f) q s ne (rw (← e) root-rooted_self)
          (rw (← e) z)
    | no d ↦ descend_same rooted (appended-Extends t.e_arr n f) q s m ne (root-rooted_ne s d)
  ]

  rooted-Inserted :
      (probe : ℕ → ℕ → ℕ)
      → probe n.key n.len ≡ 0
      → get_or t.root slot 0 ≡ 0
      → Inserted probe t rooted slot n
  rooted-Inserted probe m z =
      let x = appended-Extends t.e_arr n f in
      record {
        sound = record {
          up = Extends-LinksUp t.e_arr rooted.e_arr n v.up x;
          root_size = length-set t.root slot (length t.e_arr) ∙ v.root_size;
          roots = λ s l. roots-Extends rooted x s l (rooted_roots s);
        };
        extends = x;
        self =
            rw (length-appended t.e_arr n, root-rooted_self)
              (new_found t.e_arr rooted.e_arr n v.up x probe (length t.e_arr) 0 0 0 m);
        others = rooted_others z;
        same_fence = refl;
        same_bad = refl;
        same_buf = refl;
      }

  abbrev hung : ℕ → ℕ → ℕ → Tree
  hung pno k m = record t { e_arr = hung_at t.e_arr n pno k; max_lev = m }

  hung-Inserted :
      (probe : ℕ → ℕ → ℕ) (pno k lev m : ℕ)
      → probe n.key n.len ≡ 0
      → get_or t.root slot 0 ≢ 0
      → descend probe t slot ≡ miss pno k lev
      → Inserted probe t (hung pno k m) slot n
  hung-Inserted probe pno k lev m p nz w =
      let start = HasFuel-root t.e_arr (get_or t.root slot 0) v.up.nonempty (v.roots slot h) in
      let ends =
        walk-EndsAt probe t.e_arr v.up (length t.e_arr) (get_or t.root slot 0) 0 0 0 pno k lev nz
          start w in
      let x = hung-Extends t.e_arr n v.up pno k ends f in
      record {
        sound = record {
          up = Extends-LinksUp t.e_arr (hung_at t.e_arr n pno k) n v.up x;
          root_size = v.root_size;
          roots = λ s l. roots-Extends (hung pno k m) x s l (inl refl);
        };
        extends = x;
        self = rw (x.size) (
            walk_self t.e_arr (hung_at t.e_arr n pno k) n v.up x probe (length t.e_arr)
              (get_or t.root slot 0) 0 0 0 pno k lev p nz start w
              (link-hung t.e_arr n v.up pno k ends));
        others = λ q s l ne. descend_same (hung pno k m) x q s l ne refl;
        same_fence = refl;
        same_bad = refl;
        same_buf = refl;
      }

  -- Where the search has found nothing, the insertion succeeds.
  pub insert_at-Inserted :
      (probe : ℕ → ℕ → ℕ)
      → probe n.key n.len ≡ 0
      → found (descend probe t slot) ≡ none
      → let (u, rc) = insert_at probe with_node slot (length t.e_arr) in
        Inserted probe t u slot n × (rc ≡ true)
  insert_at-Inserted probe p e = elim (ℕ_discrete (get_or t.root slot 0) 0) [
    | yes z ↦ rw z (rooted-Inserted probe p z, refl)
    | no nz ↦
        let (pno, k, lev, w) = missed (descend probe t slot) (descend-ne-lost probe t slot v h) e in
        rw (==_false _ 0 nz, descend-appended probe slot h, w)
          (hung-Inserted probe pno k lev _ p nz w, refl)
  ]

pub descend-Matches :
    (q : ℕ → ℕ → ℕ) (t : Tree) (s j : ℕ)
    → IsSound t
    → s < nchars
    → found (descend q t s) ≡ some j
    → (0 < j) × (j < length t.e_arr) × (q (node t.e_arr j).key (node t.e_arr j).len ≡ 0)
descend-Matches q t s j v h e =
    walk-Matches q t.e_arr v.up (length t.e_arr) (get_or t.root s 0) 0 0 0 j
      (HasFuel-root t.e_arr (get_or t.root s 0) v.up.nonempty (v.roots s h)) e

pub descend-agree :
    (p q : ℕ → ℕ → ℕ) (t : Tree) (s : ℕ)
    → IsSound t
    → ((i : ℕ)
        → 0 < i
        → i < length t.e_arr
        → p (node t.e_arr i).key (node t.e_arr i).len ≡ q (node t.e_arr i).key (node t.e_arr i).len)
    → s < nchars
    → descend p t s ≡ descend q t s
descend-agree p q t s v same h =
    walk-agree p q t.e_arr v.up same (length t.e_arr) (get_or t.root s 0) 0 0 0
      (HasFuel-root t.e_arr (get_or t.root s 0) v.up.nonempty (v.roots s h))
