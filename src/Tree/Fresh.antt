-- ===== src/Tree/Fresh.antt =====
-- A tree as `treeAlloc` makes it.
use okscada.Prelude.{ℕ, zero, suc, ◌≡◌, refl, get_or, replicate, length-replicate, arith}
use okscada.Tree.{new_tree, descend}
use okscada.Tree.Walk.{miss, nchars, walk}
use okscada.Tree.Insert.{IsSound}

zeros-get : (n i : ℕ) → get_or {A = ℕ} (replicate n 0) i 0 ≡ 0
zeros-get zero i = refl
zeros-get (suc n) zero = refl
zeros-get (suc n) (suc i) = zeros-get n i

pub fresh-IsSound : (fence : ℕ) → IsSound (new_tree fence)
fresh-IsSound fence = record {
  up = record {
    nonempty = omega arith;
    up = λ i k a b _. absurd (omega arith);
    four = λ i a b. absurd (omega arith);
  };
  root_size = length-replicate {A = ℕ} nchars 0;
  roots = λ l _. rw (zeros-get nchars l) (omega arith);
}

pub fresh-descend : (q : ℕ → ℕ → ℕ) (fence s : ℕ) → descend q (new_tree fence) s ≡ miss 0 0 0
unfolding walk
fresh-descend q fence s = rw (zeros-get nchars s)
