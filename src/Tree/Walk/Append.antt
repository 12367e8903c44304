-- ===== src/Tree/Walk/Append.antt =====
-- A node put at the end of the array, and hung into the null link where a walk has ended.
use okscada.Prelude.{
  ℕ, zero, suc, ◌+◌, ◌<◌, ◌≡◌, refl, ◌∙◌, ap, ◌≢◌, ◌⊎◌, inl, inr, List, [], ◌∷◌, ◌++◌, length,
  get_or, set, arith, length-append, length-set, get_or-append_left, get_or-append_last,
  get_or-set_self, get_or-set_ne,
}
use native.Mathlib.Decide.{ℕ_discrete}
use okscada.Tree.Walk.{TreeNode, null_node, node, branch, walk, miss, nlinks, no_links, set_link}
use okscada.Tree.Walk.Links.{LinksUp, HasFuel, next-HasFuel}
use okscada.Tree.Walk.Insert.{Extends}

module _ (e : List TreeNode) (n : TreeNode) where
  abbrev pub appended : List TreeNode
  appended = e ++ n ∷ []

  pub node-appended : (i : ℕ) → i < length e → node appended i ≡ node e i
  node-appended i h = get_or-append_left e (n ∷ []) i null_node h

  pub length-appended : length appended ≡ suc (length e)
  length-appended = omega (arith, length-append e (n ∷ []))

  pub appended-Extends : n.link ≡ no_links → Extends e appended n
  appended-Extends f = record {
    size = length-appended;
    last = get_or-append_last e n null_node;
    fresh = f;
    same_key = λ i _ h. ap (λ m. m.key) (node-appended i h);
    same_len = λ i _ h. ap (λ m. m.len) (node-appended i h);
    same_val = λ i _ h. ap (λ m. m.val) (node-appended i h);
    same_size = λ i _ h. ap (λ m. length m.link) (node-appended i h);
    links = λ i k _ h m. inl (ap (λ m. get_or m.link k 0) (node-appended i h));
  }

  -- A walk in the old part does not see the new node.
  pub walk-appended :
      (probe : ℕ → ℕ → ℕ)
      → LinksUp e
      → (fuel i a b c : ℕ) → HasFuel fuel e i
      → walk probe (suc fuel) appended i a b c ≡ walk probe fuel e i a b c
  unfolding walk
  walk-appended probe up zero i a b c h = absurd (omega arith)
  walk-appended probe up (suc fuel) i a b c (inl (z, h)) = ground arith
  walk-appended probe up (suc fuel) i a b c (inr (pos, l, h)) =
      let hj = next-HasFuel probe e up fuel i (omega arith) (inr (pos, l, h)) in
      ground (
        arith,
        node-appended i l,
        walk-appended probe up fuel (get_or (node e i).link (branch probe (node e i)) 0) i
            (branch probe (node e i)) (c + 1) hj,
      )

-- A walk that does not begin at the null link ends, if it finds nothing, at a null link of a node.
pub record EndsAt (e : List TreeNode) (pno k : ℕ) : Type 0 where
  pub above : 0 < pno
  pub below : pno < length e
  pub one_of : k < nlinks
  pub null : get_or (node e pno).link k 0 ≡ 0

pub walk-EndsAt :
    (probe : ℕ → ℕ → ℕ) (e : List TreeNode)
    → LinksUp e
    → (fuel i a b c pno k lev : ℕ) → i ≢ 0
    → HasFuel fuel e i
    → walk probe fuel e i a b c ≡ miss pno k lev
    → EndsAt e pno k
unfolding walk
walk-EndsAt probe e up zero i a b c pno k lev nz h w = absurd (omega arith)
walk-EndsAt probe e up (suc fuel) i a b c pno k lev nz (inl (z, h)) w = absurd (nz z)
walk-EndsAt probe e up (suc zero) i a b c pno k lev nz (inr (pos, l, h)) w = ground arith
walk-EndsAt probe e up (suc (suc fuel)) i a b c pno k lev nz (inr (pos, l, h)) w =
    let b' = branch probe (node e i) in
    let j = get_or (node e i).link b' 0 in
    let hj = next-HasFuel probe e up (suc fuel) i nz (inr (pos, l, h)) in
    elim (ℕ_discrete j 0) [
      | yes z ↦ ground arith
      | no nj ↦ ground (arith, walk-EndsAt probe e up (suc fuel) j i b' (c + 1) pno k lev nj hj)
    ]

abbrev pub hung_at : List TreeNode → TreeNode → ℕ → ℕ → List TreeNode
hung_at e n pno k = set_link (appended e n) pno k (length e)

module _ (e : List TreeNode) (n : TreeNode) (up : LinksUp e) (pno k : ℕ) (x : EndsAt e pno k) where
  length-hung : length (hung_at e n pno k) ≡ suc (length e)
  length-hung = omega (arith, length-set (appended e n) pno, length-appended e n)

  node-hung_ne : (i : ℕ) → i < length e → pno ≢ i → node (hung_at e n pno k) i ≡ node e i
  node-hung_ne i h ne = get_or-set_ne (appended e n) pno i _ null_node ne ∙ node-appended e n i h

  node-hung_self :
      node (hung_at e n pno k) pno
      ≡ record (node e pno) { link = set (node e pno).link k (length e) }
  node-hung_self =
      get_or-set_self (appended e n) pno _ null_node (omega (arith, x.below, length-appended e n))
      ∙ ap {B = TreeNode} (λ m. record m { link = set m.link k (length e) })
          (node-appended e n pno x.below)

  node-hung_last : node (hung_at e n pno k) (length e) ≡ n
  node-hung_last =
      get_or-set_ne (appended e n) pno (length e) _ null_node (omega (arith, x.below))
      ∙ get_or-append_last e n null_node

  pub link-hung : get_or (node (hung_at e n pno k) pno).link k 0 ≡ length e
  link-hung =
      ap (λ m. get_or m.link k 0) node-hung_self
      ∙ get_or-set_self (node e pno).link k (length e) 0
          (omega (arith, up.four pno x.above x.below, x.one_of))

  links-hung :
      (i j : ℕ)
      → 0 < i
      → i < length e
      → j < nlinks
      → (get_or (node (hung_at e n pno k) i).link j 0 ≡ get_or (node e i).link j 0)
        ⊎ ((get_or (node e i).link j 0 ≡ 0)
            × (get_or (node (hung_at e n pno k) i).link j 0 ≡ length e))
  links-hung i j h l m = elim (ℕ_discrete pno i) [
    | no ne ↦ inl (ap (λ m. get_or m.link j 0) (node-hung_ne i l ne))
    | yes z ↦ elim (ℕ_discrete k j) [
      | yes w ↦ inr (rw (← z, ← w) x.null, rw (← z, ← w) link-hung)
      | no ne ↦ inl (
          rw (← z) (
            ap (λ m. get_or m.link j 0) node-hung_self
            ∙ get_or-set_ne (node e pno).link k j (length e) 0 ne))
    ]
  ]

  -- Only the links of a node change.
  node-hung :
      (i : ℕ)
      → i < length e
      → (l : List ℕ) × (length l ≡ length (node e i).link)
        × (node (hung_at e n pno k) i ≡ record (node e i) { link = l })
  node-hung i h = elim (ℕ_discrete pno i) [
    | no ne ↦ ((node e i).link, refl, node-hung_ne i h ne)
    | yes z ↦ (
      set (node e i).link k (length e),
      length-set (node e i).link k (length e),
      rw (← z) node-hung_self,
    )
  ]

  pub hung-Extends : n.link ≡ no_links → Extends e (hung_at e n pno k) n
  hung-Extends f = record {
    size = length-hung;
    last = node-hung_last;
    fresh = f;
    same_key = λ i _ h. ap (λ m. m.key) (node-hung i h).2;
    same_len = λ i _ h. ap (λ m. m.len) (node-hung i h).2;
    same_val = λ i _ h. ap (λ m. m.val) (node-hung i h).2;
    same_size = λ i _ h. ap (λ m. length m.link) (node-hung i h).2 ∙ (node-hung i h).1;
    links = links-hung;
  }
