-- ===== src/Subj/Access/Permitted.antt =====
-- The table of osubjEverWrite as a set of addresses.
use okscada.Prelude.{
  ℕ, suc, ◌+◌, ◌≤◌, ◌≡◌, ◌≢◌, refl, sym, ap, subst, ◌∙◌, Bool, true, false, ◌&&◌, List, [], ◌∷◌,
  Option, none, some, inl, inr, ltb, ◌==◌, if◌then◌else◌, arith, Bool-cases,
}
use okscada.Subj.Access.{holds, replace_first, or_error, ever_write, no_ever_write}

abbrev one : ℕ → ℕ → ℕ
one x y = if y == x then 1 else 0

-- How many slots hold an address.
abbrev pub count : ℕ → List ℕ → ℕ
count x [] = 0
count x (y ∷ ys) = one x y + count x ys

-- No address but 0 has two slots.
pub record IsDistinct (t : List ℕ) : Type 0 where
  pub once : (x : ℕ) → count (suc x) t ≤ 1

holds-count : (x : ℕ) (t : List ℕ) → holds x t ≡ ltb 0 (count x t)
holds-count x [] = refl
holds-count x (y ∷ ys) = ground (arith, holds-count x ys)

abbrev Replaced : ℕ → ℕ → List ℕ → Option (List ℕ) → Type 0
Replaced old new t none = count old t ≡ 0
Replaced old new t (some u) = (x : ℕ) → count x u + one x old ≡ count x t + one x new

Replaced-next :
    (old new x : ℕ) (xs : List ℕ) (o : Option (List ℕ))
    → (x == old) ≡ false
    → Replaced old new xs o
    → Replaced old new (x ∷ xs) (elim o [ none ↦ none | some ys ↦ some (x ∷ ys) ])
Replaced-next old new x xs none e h = ground (arith, e, h)
Replaced-next old new x xs (some ys) e h = λ z. omega (arith, h z)

replace_first-Replaced : (old new : ℕ) (t : List ℕ) → Replaced old new t (replace_first old new t)
replace_first-Replaced old new [] = refl
replace_first-Replaced old new (x ∷ xs) = elim (Bool-cases (x == old)) [
  | inl e ↦ rw e (λ z. ground (arith, e))
  | inr e ↦
      rw e (
        Replaced-next old new x xs (replace_first old new xs) e (replace_first-Replaced old new xs))
]

-- The outcome of a call for an address: the set with the address put in or taken out, or the table
-- as it was, which had not the address and, for a call to put it in, no empty slot.
abbrev pub Permits : ℕ → Bool → List ℕ → List ℕ × Bool → Type 0
Permits adr enable t (u, true) =
    IsDistinct u × ((x : ℕ) → holds (suc x) u ≡ (if suc x == adr then enable else holds (suc x) t))
Permits adr enable t (u, false) = (u ≡ t) × (holds adr t ≡ false) × ((enable && holds 0 t) ≡ false)

eq_of : (a b : ℕ) → (a == b) ≡ true → a ≡ b
eq_of a b e = ground (arith, e)

not_held : (x : ℕ) (t : List ℕ) → holds x t ≡ false → count x t ≡ 0
not_held x t h = ground (arith, sym (holds-count x t) ∙ h)

none_held : (x : ℕ) (t : List ℕ) → count x t ≡ 0 → holds x t ≡ false
none_held x t h = holds-count x t ∙ ap (ltb 0) h

-- The counts of an address that is put in, of one that is taken out, and of the others.
raised :
    (x adr : ℕ) (t u : List ℕ)
    → count adr t ≡ 0
    → count (suc x) t ≤ 1
    → count (suc x) u ≡ count (suc x) t + one (suc x) adr
    → (count (suc x) u ≤ 1)
      × (ltb 0 (count (suc x) u) ≡ (if suc x == adr then true else ltb 0 (count (suc x) t)))
raised x adr t u z d e = elim (Bool-cases (suc x == adr)) [
  | inl b ↦ (ground (arith, b, z, e), ground (arith, b, z, e))
  | inr b ↦ (ground (arith, b, e, d), ground (arith, b, e))
]

lowered :
    (x adr : ℕ) (t u : List ℕ)
    → count (suc x) t ≤ 1
    → count (suc x) u + one (suc x) adr ≡ count (suc x) t
    → (count (suc x) u ≤ 1)
      × (ltb 0 (count (suc x) u) ≡ (if suc x == adr then false else ltb 0 (count (suc x) t)))
lowered x adr t u d e = elim (Bool-cases (suc x == adr)) [
  | inl b ↦ (ground (arith, b, d, e), ground (arith, b, d, e))
  | inr b ↦ (ground (arith, b, e, d), ground (arith, b, e))
]

-- A table whose counts went up, or down, by one address.
abbrev Raised : ℕ → List ℕ → List ℕ → Type 0
Raised adr t u = (x : ℕ) → count (suc x) u ≡ count (suc x) t + one (suc x) adr

abbrev Lowered : ℕ → List ℕ → List ℕ → Type 0
Lowered adr t u = (x : ℕ) → count (suc x) u + one (suc x) adr ≡ count (suc x) t

put_in-Permits :
    (adr : ℕ) (t u : List ℕ)
    → IsDistinct t
    → count adr t ≡ 0
    → Raised adr t u
    → Permits adr true t (u, true)
put_in-Permits adr t u d z r = (
  record { once = λ x. (raised x adr t u z (d.once x) (r x)).0 },
  λ x.
      holds-count (suc x) u
      ∙ (raised x adr t u z (d.once x) (r x)).1
      ∙ ap (λ b. if suc x == adr then true else b) (sym (holds-count (suc x) t)),
)

take_out-Permits :
    (adr : ℕ) (t u : List ℕ) → IsDistinct t → Lowered adr t u → Permits adr false t (u, true)
take_out-Permits adr t u d r = (
  record { once = λ x. (lowered x adr t u (d.once x) (r x)).0 },
  λ x.
      holds-count (suc x) u
      ∙ (lowered x adr t u (d.once x) (r x)).1
      ∙ ap (λ b. if suc x == adr then false else b) (sym (holds-count (suc x) t)),
)

empty_slot : (x : ℕ) → one (suc x) 0 ≡ 0
empty_slot x = ground arith

put_in :
    (adr : ℕ) (t : List ℕ) (o : Option (List ℕ))
    → IsDistinct t
    → holds adr t ≡ false
    → Replaced 0 adr t o
    → Permits adr true t (or_error t o)
put_in adr t none d h r = (refl, h, none_held 0 t r)
put_in adr t (some u) d h r =
    put_in-Permits adr t u d (not_held adr t h) (λ x. omega (arith, r (suc x), empty_slot x))

take_out :
    (adr : ℕ) (t : List ℕ) (o : Option (List ℕ))
    → adr ≢ 0
    → IsDistinct t
    → Replaced adr 0 t o
    → Permits adr false t (or_error t o)
take_out adr t none z d r = (refl, none_held adr t r, refl)
take_out adr t (some u) z d r =
    take_out-Permits adr t u d (λ x. omega (arith, r (suc x), empty_slot x))

already_in :
    (adr x : ℕ) (t : List ℕ)
    → holds adr t ≡ true
    → holds (suc x) t ≡ (if suc x == adr then true else holds (suc x) t)
already_in adr x t h = elim (Bool-cases (suc x == adr)) [
  | inl e ↦ rw e (subst (λ z. holds z t ≡ true) (sym (eq_of (suc x) adr e)) h)
  | inr e ↦ rw e refl
]

-- On a table without duplicates, osubjEverWrite of an address returns OK with a table without duplicates that
-- permits this address just when it is enabled, and every other address as before; or it returns
-- ERROR and leaves the table as it was, which had not the address and, for one to be enabled, no
-- empty slot.
pub ever_write-Permits :
    (adr : ℕ) (enable : Bool) (t : List ℕ)
    → adr ≢ 0
    → IsDistinct t
    → Permits adr enable t (ever_write adr enable t)
unfolding ever_write
ever_write-Permits adr true t z d = elim (Bool-cases (holds adr t)) [
  | inl h ↦ rw h (d, λ x. already_in adr x t h)
  | inr h ↦ rw h (put_in adr t (replace_first 0 adr t) d h (replace_first-Replaced 0 adr t))
]
ever_write-Permits adr false t z d =
    take_out adr t (replace_first adr 0 t) z d (replace_first-Replaced adr 0 t)

-- The table that the subject starts with.
pub no_ever_write-IsDistinct : IsDistinct no_ever_write
no_ever_write-IsDistinct = record { once = λ x. ground arith }
