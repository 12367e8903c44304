-- ===== src/Tree/Walk/Links.antt =====
-- The links of the node array lead upwards, so that every walk ends.
use okscada.Prelude.{
  ℕ, zero, suc, ◌+◌, ◌<◌, ◌≡◌, refl, ◌≢◌, ◌⊎◌, inl, inr, List, length, get_or, some, arith,
}
use okscada.Tree.Walk.{TreeNode, node, branch, walk, lost, found, nlinks}

-- A link is null, or leads to a node of the array above its own.
abbrev pub IsUp : List TreeNode → ℕ → ℕ → Type 0
IsUp e i j = (j ≡ 0) ⊎ ((i < j) × (j < length e))

pub record LinksUp (e : List TreeNode) : Type 0 where
  pub nonempty : 0 < length e
  pub up : (i k : ℕ) → 0 < i → i < length e → k < nlinks → IsUp e i (get_or (node e i).link k 0)
  pub four : (i : ℕ) → 0 < i → i < length e → length (node e i).link ≡ nlinks

-- Index `i` is null or a node, and the fuel lasts from there to the end of the array.
abbrev pub HasFuel : ℕ → List TreeNode → ℕ → Type 0
HasFuel fuel e i = ((i ≡ 0) × (0 < fuel)) ⊎ ((0 < i) × (i < length e) × (length e < fuel + i))

pub HasFuel-root :
    (e : List TreeNode) (i : ℕ) → 0 < length e → i < length e → HasFuel (length e) e i
HasFuel-root e zero h l = inl (refl, h)
HasFuel-root e (suc i) h l = inr (omega arith, l, omega arith)

module _ (probe : ℕ → ℕ → ℕ) (e : List TreeNode) (up : LinksUp e) where
  pub next-HasFuel :
      (fuel i : ℕ)
      → i ≢ 0
      → HasFuel (suc fuel) e i
      → HasFuel fuel e (get_or (node e i).link (branch probe (node e i)) 0)
  next-HasFuel fuel i nz (inl (z, h)) = absurd (nz z)
  next-HasFuel fuel i nz (inr (pos, l, h)) =
      elim (up.up i (branch probe (node e i)) pos l (omega arith)) [
        | inl z ↦ inl (z, omega arith)
        | inr (a, b) ↦ inr (omega arith, b, omega arith)
      ]

  -- Fuel for the length of the array is enough.
  pub walk-ne-lost :
      (fuel i pno k lev : ℕ) → HasFuel fuel e i → walk probe fuel e i pno k lev ≢ lost
  unfolding walk
  walk-ne-lost zero i pno k lev h = ground arith
  walk-ne-lost (suc fuel) i pno k lev h = ground (
    arith,
    next-HasFuel fuel i,
    walk-ne-lost fuel (get_or (node e i).link (branch probe (node e i)) 0) i
        (branch probe (node e i)) (lev + 1),
  )

  -- A walk that finds a node ends at a node of the array that matches.
  pub walk-Matches :
      (fuel i pno k lev j : ℕ)
      → HasFuel fuel e i
      → found (walk probe fuel e i pno k lev) ≡ some j
      → (0 < j) × (j < length e) × (probe (node e j).key (node e j).len ≡ 0)
  unfolding walk
  walk-Matches zero i pno k lev j h w = absurd (omega arith)
  walk-Matches (suc fuel) i pno k lev j (inl (z, h)) w = ground arith
  walk-Matches (suc fuel) i pno k lev j (inr (pos, l, h)) w = ground (
    arith,
    walk-Matches fuel (get_or (node e i).link (branch probe (node e i)) 0) i
        (branch probe (node e i)) (lev + 1) j (next-HasFuel fuel i (omega arith) (inr (pos, l, h))),
  )

-- Two comparisons that agree on the nodes of the array make the same walk.
pub walk-agree :
    (p q : ℕ → ℕ → ℕ) (e : List TreeNode)
    → LinksUp e
    → ((i : ℕ)
        → 0 < i
        → i < length e
        → p (node e i).key (node e i).len ≡ q (node e i).key (node e i).len)
    → (fuel i a b c : ℕ) → HasFuel fuel e i
    → walk p fuel e i a b c ≡ walk q fuel e i a b c
unfolding walk
walk-agree p q e up same zero i a b c h = refl
walk-agree p q e up same (suc fuel) i a b c (inl (z, h)) = ground arith
walk-agree p q e up same (suc fuel) i a b c (inr (pos, l, h)) = ground (
  arith,
  same i pos l,
  walk-agree p q e up same fuel (get_or (node e i).link (branch q (node e i)) 0) i
      (branch q (node e i)) (c + 1) (next-HasFuel q e up fuel i (omega arith) (inr (pos, l, h))),
)
