-- ===== src/Tree/Walk/Store.antt =====
-- Writing the value of a node changes no walk.
use okscada.Prelude.{
  ℕ, zero, suc, ◌+◌, ◌<◌, ◌≡◌, refl, ap, ◌≢◌, List, length, get_or, set, arith, length-set,
  get_or-set_self, get_or-set_ne,
}
use native.Mathlib.Decide.{ℕ_discrete}
use okscada.Tree.Walk.{TreeNode, null_node, node, branch, walk}
use okscada.Tree.Walk.Links.{LinksUp}

module _ (e : List TreeNode) (i v : ℕ) where
  abbrev pub stored : List TreeNode
  stored = set e i (record (node e i) { val = v })

  pub node-stored_self : i < length e → node stored i ≡ record (node e i) { val = v }
  node-stored_self h = get_or-set_self e i _ null_node h

  pub node-stored_ne : (j : ℕ) → i ≢ j → node stored j ≡ node e j
  node-stored_ne j ne = get_or-set_ne e i j _ null_node ne

  pub length-stored : length stored ≡ length e
  length-stored = length-set e i (record (node e i) { val = v })

  -- Only the value of node `i` differs.
  pub node-stored :
      (j : ℕ) → i < length e → (w : ℕ) × (node stored j ≡ record (node e j) { val = w })
  node-stored j h = elim (ℕ_discrete i j) [
    | yes z ↦ (v, rw (← z) (node-stored_self h))
    | no ne ↦ ((node e j).val, node-stored_ne j ne)
  ]

  pub link-stored : (j : ℕ) → i < length e → (node stored j).link ≡ (node e j).link
  link-stored j h = ap (λ m. m.link) (node-stored j h).1

  pub key-stored : (j : ℕ) → i < length e → (node stored j).key ≡ (node e j).key
  key-stored j h = ap (λ m. m.key) (node-stored j h).1

  len-stored : (j : ℕ) → i < length e → (node stored j).len ≡ (node e j).len
  len-stored j h = ap (λ m. m.len) (node-stored j h).1

  pub stored-LinksUp : i < length e → LinksUp e → LinksUp stored
  stored-LinksUp h up = record {
    nonempty = omega (arith, length-stored, up.nonempty);
    up = λ j k a b m.
        rw (link-stored j h, length-stored) (up.up j k a (omega (arith, length-stored)) m);
    four = λ j a b. rw (link-stored j h) (up.four j a (omega (arith, length-stored)));
  }

  pub walk-stored :
      (probe : ℕ → ℕ → ℕ)
      → i < length e
      → (fuel j a b c : ℕ) → walk probe fuel stored j a b c ≡ walk probe fuel e j a b c
  unfolding walk
  walk-stored probe h zero j a b c = refl
  walk-stored probe h (suc fuel) j a b c = ground (
    arith,
    key-stored j h,
    len-stored j h,
    link-stored j h,
    walk-stored probe h fuel (get_or (node e j).link (branch probe (node e j)) 0) j
        (branch probe (node e j)) (c + 1),
  )
