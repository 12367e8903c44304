-- ===== src/Quarks/Desc/Range.antt =====
-- The indices against the dimensions of a quark.
use okscada.Prelude.{
  ℕ, zero, suc, ◌+◌, ◌*◌, ◌%◌, ◌^◌, ◌≤◌, ◌<◌, ◌≡◌, refl, subst, ◌∙◌, true, false, List, Option,
  none, some, get_or, set, ◌==◌, arith, Bool-cases, inl, inr, ◌↔◌, ◌⊎◌, ==_iff,
}
use okscada.Ooid.{int_mod, ulong_mod, of_int}
use okscada.Quarks.{Quark}
use okscada.Quarks.Desc.{out_of_range, moved_off, crunch}

-- An index passes just when the dimension and it are 0, or it is less than a dimension that is not negative.
pub out_of_range_iff :
    (n k : ℕ)
    → n < 2 ^ 32
    → k < 2 ^ 32
    → (out_of_range n k ≡ false) ↔ (((n ≡ 0) × (k ≡ 0)) ⊎ ((n < 2 ^ 31) × (k < n)))
unfolding out_of_range
out_of_range_iff n k a b = ground (arith, a, b)

-- The index at a place passes the test.
abbrev pub Fit : Quark → List ℕ → ℕ → Type 0
Fit q ind j = out_of_range (get_or q.dim j 0) (get_or ind j 0) ≡ false

-- The sum of the products of the indices and the coefficients, from `i` on.
unfoldable pub shift : ℕ → ℕ → List ℕ → List ℕ → ℕ
shift zero i ind coef = 0
shift (suc n) i ind coef =
    of_int (get_or ind i 0 * get_or coef i 0 % int_mod) + shift n (suc i) ind coef

unfoldable pub off_of : ℕ → ℕ → List ℕ → List ℕ → ℕ → ℕ
off_of zero i ind coef off = off
off_of (suc n) i ind coef off =
    off_of n (suc i) ind coef (moved_off off (get_or ind i 0) (get_or coef i 0))

unfoldable pub placed : ℕ → ℕ → List ℕ → List ℕ → List ℕ
placed zero i ind l = l
placed (suc n) i ind l = placed n (suc i) ind (set l i (get_or ind i 0))

pub off_of-shift :
    (n i : ℕ) (ind coef : List ℕ) (off : ℕ)
    → off_of n i ind coef off % ulong_mod ≡ (off + shift n i ind coef) % ulong_mod
unfolding off_of shift
off_of-shift zero i ind coef off = omega arith
off_of-shift (suc n) i ind coef off =
    let a = of_int (get_or ind i 0 * get_or coef i 0 % int_mod) in
    off_of-shift n (suc i) ind coef (moved_off off (get_or ind i 0) (get_or coef i 0))
    ∙ wrap off a (shift n (suc i) ind coef)
  where
    wrap : (off a b : ℕ) → ((off + a) % ulong_mod + b) % ulong_mod ≡ (off + (a + b)) % ulong_mod
    wrap off a b = omega arith

-- What the loop over `n` indices from `i` on does.
abbrev pub Crunched : ℕ → ℕ → List ℕ → Quark → Quark × Option ℕ → Type 0
Crunched n i ind q (q', none) =
    ((j : ℕ) → i ≤ j → j < i + n → Fit q ind j)
    × (q' ≡ record q { off = off_of n i ind q.coef q.off; ind = placed n i ind q.ind })
Crunched n i ind q (q', some j) =
    (i ≤ j)
    × (j < i + n)
    × (out_of_range (get_or q.dim j 0) (get_or ind j 0) ≡ true)
    × ((k : ℕ) → i ≤ k → k < j → Fit q ind k)
    × (q'.ooid ≡ q.ooid)
    × (q'.phys_addr ≡ q.phys_addr)

-- The first place and those behind it.
first_or_later :
    (P : ℕ → Type 0) (i n : ℕ)
    → P i
    → ((j : ℕ) → suc i ≤ j → j < n → P j)
    → (j : ℕ) → i ≤ j
    → j < n
    → P j
first_or_later P i n p h j a b = elim (Bool-cases (i == j)) [
  | inl e ↦ subst P ((==_iff i j).0 e) p
  | inr e ↦ h j (ground (arith, e, a)) b
]

abbrev pub stepped : ℕ → List ℕ → Quark → Quark
stepped i ind q = record q {
  off = moved_off q.off (get_or ind i 0) (get_or q.coef i 0);
  ind = set q.ind i (get_or ind i 0);
}

Crunched-next :
    (n i : ℕ) (ind : List ℕ) (q : Quark) (r : Quark × Option ℕ)
    → Fit q ind i
    → Crunched n (suc i) ind (stepped i ind q) r
    → Crunched (suc n) i ind q r
unfolding off_of placed
Crunched-next n i ind q (q', none) e (h, s) =
    (λ j a b. first_or_later (Fit q ind) i (suc i + n) e h j a (omega (arith, b)), s)
Crunched-next n i ind q (q', some k) e (a, b, o, h, s, t) =
    (omega (arith, a), omega (arith, b), o, first_or_later (Fit q ind) i k e h, s, t)

pub crunch-Crunched : (n i : ℕ) (ind : List ℕ) (q : Quark) → Crunched n i ind q (crunch n i ind q)
unfolding crunch off_of placed
crunch-Crunched zero i ind q = (λ j a b. absurd (omega (arith, a, b)), refl)
crunch-Crunched (suc n) i ind q =
    elim (Bool-cases (out_of_range (get_or q.dim i 0) (get_or ind i 0))) [
      | inl e ↦
          rw e (omega arith, omega arith, e, λ k a b. absurd (omega (arith, a, b)), refl, refl)
      | inr e ↦ rw e (Crunched-next n i ind q _ e (crunch-Crunched n (suc i) ind (stepped i ind q)))
    ]
