-- ===== src/Tree/Walk/Insert.antt =====
-- What a new node at the end of the array changes: the walks that match it end there, and all other
-- walks find what they found before.
use okscada.Prelude.{
  ℕ, zero, suc, ◌+◌, ◌<◌, ◌≡◌, refl, sym, ◌∙◌, ap, ◌≢◌, ◌⊎◌, inl, inr, List, length, get_or, arith,
  some, none,
}
use native.Mathlib.Decide.{ℕ_discrete}
use okscada.Tree.Walk.{TreeNode, node, branch, walk, miss, found, nlinks, no_links}
use okscada.Tree.Walk.Links.{IsUp, LinksUp, HasFuel, next-HasFuel}

-- `e'` is `e` with node `n` behind it, whose index stands in links that were null.
pub record Extends (e e' : List TreeNode) (n : TreeNode) : Type 0 where
  pub size : length e' ≡ suc (length e)
  pub last : node e' (length e) ≡ n
  pub fresh : n.link ≡ no_links
  pub same_key : (i : ℕ) → 0 < i → i < length e → (node e' i).key ≡ (node e i).key
  pub same_len : (i : ℕ) → 0 < i → i < length e → (node e' i).len ≡ (node e i).len
  pub same_val : (i : ℕ) → 0 < i → i < length e → (node e' i).val ≡ (node e i).val
  pub same_size : (i : ℕ) → 0 < i → i < length e → length (node e' i).link ≡ length (node e i).link
  pub links :
      (i k : ℕ)
      → 0 < i
      → i < length e
      → k < nlinks
      → (get_or (node e' i).link k 0 ≡ get_or (node e i).link k 0)
        ⊎ ((get_or (node e i).link k 0 ≡ 0) × (get_or (node e' i).link k 0 ≡ length e))

no_links_null : (k : ℕ) → k < nlinks → get_or no_links k 0 ≡ 0
no_links_null zero h = refl
no_links_null (suc zero) h = refl
no_links_null (suc (suc zero)) h = refl
no_links_null (suc (suc (suc zero))) h = refl
no_links_null (suc (suc (suc (suc k)))) h = absurd (omega arith)

module _ (e e' : List TreeNode) (n : TreeNode) (up : LinksUp e) (x : Extends e e' n) where
  links_up :
      (i k : ℕ)
      → i < length e ⊎ (i ≡ length e)
      → 0 < i
      → k < nlinks
      → IsUp e' i (get_or (node e' i).link k 0)
  links_up i k (inl l) h m = ground (arith, x.links i k h l m, up.up i k h l m, x.size)
  links_up i k (inr z) h m = inl (ground (arith, x.last, x.fresh, no_links_null k m))

  link_lengths : (i : ℕ) → i < length e ⊎ (i ≡ length e) → 0 < i → length (node e' i).link ≡ nlinks
  link_lengths i (inl l) h = x.same_size i h l ∙ up.four i h l
  link_lengths i (inr z) h = ground (arith, x.last, x.fresh)

  below_or_last : (i : ℕ) → i < length e' → i < length e ⊎ (i ≡ length e)
  below_or_last i h = grind (arith, x.size)

  pub Extends-LinksUp : LinksUp e'
  Extends-LinksUp = record {
    nonempty = omega (arith, x.size);
    up = λ i k h l m. links_up i k (below_or_last i l) h m;
    four = λ i h l. link_lengths i (below_or_last i l) h;
  }

  module _ (probe : ℕ → ℕ → ℕ) where
    pub new_found :
        (fuel pno k lev : ℕ)
        → probe n.key n.len ≡ 0
        → found (walk probe (suc fuel) e' (length e) pno k lev) ≡ some (length e)
    unfolding walk
    new_found fuel pno k lev h = ground (arith, x.last, up.nonempty)

    new_missed :
        (fuel pno k lev : ℕ)
        → probe n.key n.len ≢ 0
        → found (walk probe (suc (suc fuel)) e' (length e) pno k lev) ≡ none
    unfolding walk
    new_missed fuel pno k lev h =
        ground (arith, x.last, x.fresh, up.nonempty, no_links_null (branch probe n))

    -- A node that is no match sends the walk on to its link.
    walk_step :
        (e : List TreeNode) (fuel i a b c : ℕ)
        → i ≢ 0
        → probe (node e i).key (node e i).len ≢ 0
        → walk probe (suc fuel) e i a b c
          ≡ walk probe fuel e
              (get_or (node e i).link (branch probe (node e i)) 0)
              i
              (branch probe (node e i))
              (c + 1)
    unfolding walk
    walk_step e fuel i a b c nz ne = ground arith

    same_branch :
        (i : ℕ) → 0 < i → i < length e → branch probe (node e' i) ≡ branch probe (node e i)
    same_branch i h l = rw (x.same_key i h l, x.same_len i h l)

    pub walk_null :
        (e : List TreeNode) (fuel i a b c : ℕ) → i ≡ 0 → found (walk probe fuel e i a b c) ≡ none
    unfolding walk
    walk_null e zero i a b c z = refl
    walk_null e (suc fuel) i a b c z = ground arith

    walk_match :
        (e : List TreeNode) (fuel i a b c : ℕ)
        → i ≢ 0
        → probe (node e i).key (node e i).len ≡ 0
        → found (walk probe (suc fuel) e i a b c) ≡ some i
    unfolding walk
    walk_match e fuel i a b c nz z = ground arith

    pub missed_from :
        (fuel i a b c : ℕ)
        → probe n.key n.len ≢ 0
        → 0 < fuel
        → i ≡ length e
        → found (walk probe (suc fuel) e' i a b c) ≡ none
    missed_from zero i a b c ne h z = elim h [ ]
    missed_from (suc fuel) i a b c ne h z = rw z (new_missed fuel a b c ne)

    -- One link further, if the walks agree from there on.
    follow :
        (fuel j' j a b c a' b' c' : ℕ)
        → (j' ≡ j) ⊎ ((j ≡ 0) × (j' ≡ length e))
        → probe n.key n.len ≢ 0
        → HasFuel fuel e j
        → found (walk probe (suc fuel) e' j a b c) ≡ found (walk probe fuel e j a' b' c')
        → found (walk probe (suc fuel) e' j' a b c) ≡ found (walk probe fuel e j a' b' c')
    follow fuel j' j a b c a' b' c' (inl s) ne h agree = rw s agree
    follow fuel j' j a b c a' b' c' (inr (z, w)) ne h agree =
        missed_from fuel j' a b c ne (omega arith) w ∙ sym (walk_null e fuel j a' b' c' z)

    -- A walk that the new node does not match finds what it found before.
    pub walk-other :
        (fuel i a b c a' b' c' : ℕ)
        → probe n.key n.len ≢ 0
        → HasFuel fuel e i
        → found (walk probe (suc fuel) e' i a b c) ≡ found (walk probe fuel e i a' b' c')
    walk-other zero i a b c a' b' c' ne h = absurd (omega arith)
    walk-other (suc fuel) i a b c a' b' c' ne (inl (z, h)) =
        walk_null e' (suc (suc fuel)) i a b c z ∙ sym (walk_null e (suc fuel) i a' b' c' z)
    walk-other (suc fuel) i a b c a' b' c' ne (inr (pos, l, h)) =
        let k = branch probe (node e i) in
        let j = get_or (node e i).link k 0 in
        let hj = next-HasFuel probe e up fuel i (omega arith) (inr (pos, l, h)) in
        elim (ℕ_discrete (probe (node e i).key (node e i).len) 0) [
          | yes z ↦
              walk_match e' (suc fuel) i a b c (omega arith)
                (rw (x.same_key i pos l, x.same_len i pos l) z)
              ∙ sym (walk_match e fuel i a' b' c' (omega arith) z)
          | no nz ↦
              ap found (
                walk_step e' (suc fuel) i a b c (omega arith)
                  (rw (x.same_key i pos l, x.same_len i pos l) nz))
              ∙ rw (same_branch i pos l) (
                  follow fuel (get_or (node e' i).link k 0) j i k (c + 1) i k (c' + 1)
                    (x.links i k pos l (omega arith)) ne hj
                    (walk-other fuel j i k (c + 1) i k (c' + 1) ne hj))
              ∙ sym (ap found (walk_step e fuel i a' b' c' (omega arith) nz))
        ]

    missed_no_match :
        (fuel i a b c pno k lev : ℕ)
        → i ≢ 0
        → probe (node e i).key (node e i).len ≡ 0
        → walk probe (suc fuel) e i a b c ≡ miss pno k lev
        → ⊥
    unfolding walk
    missed_no_match fuel i a b c pno k lev nz z h = ground arith

    same_link :
        (i k : ℕ)
        → 0 < i
        → i < length e
        → k < nlinks
        → get_or (node e i).link k 0 ≢ 0
        → get_or (node e' i).link k 0 ≡ get_or (node e i).link k 0
    same_link i k h l m nz = ground (arith, x.links i k h l m)

    -- The walk stood at the null link that now leads to the new node.
    arrive :
        (fuel j i b c pno k lev : ℕ)
        → probe n.key n.len ≡ 0
        → j ≡ 0
        → walk probe fuel e j i b c ≡ miss pno k lev
        → get_or (node e' pno).link k 0 ≡ length e
        → found (walk probe (suc fuel) e' (get_or (node e' i).link b 0) i b c) ≡ some (length e)
    unfolding walk
    arrive zero j i b c pno k lev m z e₁ e₂ = cc
    arrive (suc fuel) j i b c pno k lev m z e₁ e₂ = ground (arith, x.last, up.nonempty)

    -- A walk that ended at the link where the new node now stands ends at the new node.
    pub walk_self :
        (fuel i a b c pno k lev : ℕ)
        → probe n.key n.len ≡ 0
        → i ≢ 0
        → HasFuel fuel e i
        → walk probe fuel e i a b c ≡ miss pno k lev
        → get_or (node e' pno).link k 0 ≡ length e
        → found (walk probe (suc fuel) e' i a b c) ≡ some (length e)
    walk_self zero i a b c pno k lev m nz h e₁ e₂ = absurd (omega arith)
    walk_self (suc fuel) i a b c pno k lev m nz (inl (z, h)) e₁ e₂ = absurd (nz z)
    walk_self (suc fuel) i a b c pno k lev m nz (inr (pos, l, h)) e₁ e₂ =
        let b' = branch probe (node e i) in
        let j = get_or (node e i).link b' 0 in
        let hj = next-HasFuel probe e up fuel i nz (inr (pos, l, h)) in
        elim (ℕ_discrete (probe (node e i).key (node e i).len) 0) [
          | yes z ↦ absurd (missed_no_match fuel i a b c pno k lev nz z e₁)
          | no ne ↦
              let e₃ = sym (walk_step e fuel i a b c nz ne) ∙ e₁ in
              ap found (
                walk_step e' (suc fuel) i a b c nz (rw (x.same_key i pos l, x.same_len i pos l) ne))
              ∙ rw (same_branch i pos l) (elim (ℕ_discrete j 0) [
                | yes z ↦ arrive fuel j i b' (c + 1) pno k lev m z e₃ e₂
                | no nj ↦
                    rw (same_link i b' pos l (omega arith) nj)
                      (walk_self fuel j i b' (c + 1) pno k lev m nj hj e₃ e₂)
              ])
        ]
