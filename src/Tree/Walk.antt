-- ===== src/Tree/Walk.antt =====
-- util/util-tree.c: the node array and the walk down a chain of links, which the search and the
-- insertion share.
pub mod Links
pub mod Insert
pub mod Append
pub mod Store
use okscada.Prelude.{
  ℕ, zero, suc, ◌+◌, ◌%◌, List, [], ◌∷◌, Option, none, some, get_or, set, ◌==◌, if◌then◌else◌,
}

-- `TreeNode_t`. `key` is the number itself, or the offset of the string in the string buffer.
pub record TreeNode : Type 0 where
  pub val : ℕ
  pub key : ℕ
  pub len : ℕ
  pub link : List ℕ

abbrev pub nlinks : ℕ
nlinks = 4

abbrev pub nchars : ℕ
nchars = 256

-- The links of a new node.
abbrev pub no_links : List ℕ
no_links = 0 ∷ 0 ∷ 0 ∷ 0 ∷ []

-- Slot 0 of the array is never a node: index 0 is the null link.
abbrev pub null_node : TreeNode
null_node = record { val = 0; key = 0; len = 0; link = no_links }

abbrev pub node : List TreeNode → ℕ → TreeNode
node e i = get_or e i null_node

-- Where a walk ends: at a node that matches, or at the empty link `k` of node `pno`, each with the
-- number of levels passed. `lost` means that the fuel ran out.
pub data Outcome : Type 0 where
  hit : ℕ → ℕ → Outcome
  miss : ℕ → ℕ → ℕ → Outcome
  lost : Outcome

abbrev pub found : Outcome → Option ℕ
found (hit i lev) = some i
found (miss pno k lev) = none
found lost = none

-- `probe` compares the sought item with a node's `key` and `len`: 0 for a match, and otherwise a
-- number whose two low bits choose the link to follow.
module _ (probe : ℕ → ℕ → ℕ) where
  abbrev pub branch : TreeNode → ℕ
  branch n = probe n.key n.len % nlinks

  -- `while (no) { … }`, from node `i`, which is link `k` of node `pno`.
  unfoldable pub walk : ℕ → List TreeNode → ℕ → ℕ → ℕ → ℕ → Outcome
  walk zero e i pno k lev = lost
  walk (suc fuel) e i pno k lev =
      let n = node e i in
      let rest = walk fuel e (get_or n.link (branch n) 0) i (branch n) (lev + 1) in
      if i == 0 then miss pno k lev else if probe n.key n.len == 0 then hit i lev else rest

-- `e[pno].link[k] = i`.
abbrev pub set_link : List TreeNode → ℕ → ℕ → ℕ → List TreeNode
set_link e pno k i = let n = node e pno in set e pno (record n { link = set n.link k i })
