-- ===== src/Subj/Monitors/Relink.antt =====
-- What setting the links around a record does to the records before and behind it.
use okscada.Prelude.{
  ℕ, ◌≡◌, inl, inr, refl, sym, ap, ◌∙◌, subst, Bool, true, false, [], ◌∷◌, ◌++◌, Option, none, some,
  if◌then◌else◌, arith, Bool-cases,
}
use okscada.Subj.Monitors.{
  Monitor, Heap, change, with_next, with_prev, set_next, set_prev, freed, points_to,
}
use okscada.Subj.Monitors.Segs.{
  Entries, is_in, Distinct, Seg, Seg-change, Seg-set_prev, Seg-set_next, Seg-append, apart,
  true_ne_false,
}

abbrev at_in : Option ℕ → Entries → Bool
at_in none xs = false
at_in (some p) xs = is_in p xs

Seg-set_prev_apart :
    (h : Heap) (o v pv f : Option ℕ) (xs : Entries) (l e : Option ℕ)
    → at_in o xs ≡ false
    → Seg h pv f xs l e
    → Seg (set_prev h o v) pv f xs l e
Seg-set_prev_apart h none v pv f xs l e n s = s
Seg-set_prev_apart h (some p) v pv f xs l e n s = Seg-change h p (with_prev v) pv f xs l e n s

Seg-set_next_apart :
    (h : Heap) (o v pv f : Option ℕ) (xs : Entries) (l e : Option ℕ)
    → at_in o xs ≡ false
    → Seg h pv f xs l e
    → Seg (set_next h o v) pv f xs l e
Seg-set_next_apart h none v pv f xs l e n s = s
Seg-set_next_apart h (some p) v pv f xs l e n s = Seg-change h p (with_next v) pv f xs l e n s

points_self : (a : ℕ) → points_to (some a) a ≡ true
points_self a = ground arith

points_apart :
    (o : Option ℕ) (a : ℕ) (ys : Entries)
    → at_in o ys ≡ true
    → is_in a ys ≡ false
    → points_to o a ≡ false
points_apart none a ys i n = refl
points_apart (some p) a ys i n = ground (arith, apart a p ys n i)

-- The last record of a segment with records is one of them, and so is the first.
pub last_in :
    (h : Heap) (pv f : Option ℕ) (a : ℕ) (m : Monitor) (xs : Entries) (l e : Option ℕ)
    → Seg h pv f ((a, m) ∷ xs) l e
    → (b : ℕ) × (l ≡ some b) × (is_in b ((a, m) ∷ xs) ≡ true)
last_in h pv f a m [] l e (q, nx, i, (r, t)) = (a, t, ground arith)
last_in h pv f a m ((c, k) ∷ xs) l e (q, nx, i, s) =
    let (b, r, j) = last_in h (some a) nx c k xs l e s in (b, r, ground (arith, j))

choose : {A : Type 0} (b : Bool) (x y : A) → b ≡ true → (if b then x else y) ≡ x
choose b x y e = rw e refl

skip : {A : Type 0} (b : Bool) (x y : A) → b ≡ false → (if b then x else y) ≡ y
skip b x y e = rw e refl

points_eq : (o : Option ℕ) (a : ℕ) → o ≡ some a → points_to o a ≡ true
points_eq o a e = ap (λ x. points_to x a) e ∙ points_self a

points_ne :
    (o : Option ℕ) (a b : ℕ) (ys : Entries)
    → o ≡ some b
    → is_in b ys ≡ true
    → is_in a ys ≡ false
    → points_to o a ≡ false
points_ne o a b ys e i n = ap (λ x. points_to x a) e ∙ points_apart (some b) a ys i n

pub head_in : (c : ℕ) (k : Monitor) (xs : Entries) → is_in c ((c, k) ∷ xs) ≡ true
head_in c k xs = ground arith

-- The records behind a removed one: the first is linked back to the one before.
pub behind :
    (h : Heap) (a : ℕ) (pv nx : Option ℕ) (ys : Entries) (l : Option ℕ)
    → Distinct ys
    → is_in a ys ≡ false
    → Seg h (some a) nx ys l none
    → Seg (set_prev h nx pv) pv nx ys (if points_to l a then pv else l) none
behind h a pv nx [] l d n (q, r) = (q, choose (points_to l a) pv l (points_eq l a r))
behind h a pv nx ((c, k) ∷ ys) l (n', d) n s =
    let (b, r, j) = last_in h (some a) nx c k ys l none s in
    subst (λ z. Seg (set_prev h nx pv) pv nx ((c, k) ∷ ys) z none)
      (sym (skip (points_to l a) pv l (points_ne l a b ((c, k) ∷ ys) r j n)))
      (subst (λ z. Seg (set_prev h z pv) pv nx ((c, k) ∷ ys) l none) (sym s.0)
        (Seg-set_prev h (some a) pv nx c k ys l none n' s))

-- The records before a removed one: the last is linked to the one behind.
before :
    (h : Heap) (a : ℕ) (pv nx f : Option ℕ) (xs : Entries)
    → Distinct xs
    → is_in a xs ≡ false
    → Seg h none f xs pv (some a)
    → Seg (set_next h pv nx) none (if points_to f a then nx else f) xs pv nx
before h a pv nx f [] d n (q, r) = (choose (points_to f a) nx f (points_eq f a q), r)
before h a pv nx f ((c, k) ∷ xs) d n s =
    let (b, r, j) = last_in h none f c k xs pv (some a) s in
    subst (λ z. Seg (set_next h pv nx) none z ((c, k) ∷ xs) pv nx)
      (sym (skip (points_to f a) nx f (points_ne f a c ((c, k) ∷ xs) s.0 (head_in c k xs) n)))
      (subst (λ z. Seg (set_next h z nx) none f ((c, k) ∷ xs) z nx) (sym r)
        (Seg-set_next h none f c k xs b (some a) nx d
          (subst (λ z. Seg h none f ((c, k) ∷ xs) z (some a)) r s)))

first_apart :
    (h : Heap) (pv nx : Option ℕ) (xs ys : Entries) (l : Option ℕ)
    → ((p : ℕ) → is_in p ys ≡ true → is_in p xs ≡ false)
    → Seg h pv nx ys l none
    → at_in nx xs ≡ false
first_apart h pv nx xs [] l o (q, r) = ap (λ z. at_in z xs) q
first_apart h pv nx xs ((c, k) ∷ ys) l o s = ap (λ z. at_in z xs) s.0 ∙ o c (head_in c k ys)

last_apart :
    (h : Heap) (pv f e : Option ℕ) (xs ys : Entries)
    → ((p : ℕ) → is_in p ys ≡ true → is_in p xs ≡ false)
    → Seg h none f xs pv e
    → at_in pv ys ≡ false
last_apart h pv f e [] ys o (q, r) = ap (λ z. at_in z ys) r
last_apart h pv f e ((c, k) ∷ xs) ys o s =
    let (b, r, j) = last_in h none f c k xs pv e s in
    ap (λ z. at_in z ys) r
    ∙ elim (Bool-cases (is_in b ys)) [ inl i ↦ absurd (true_ne_false (sym j ∙ o b i)) | inr i ↦ i ]

-- The removal of the record at `a`.
pub unlink :
    (h : Heap) (a : ℕ) (pv nx f l : Option ℕ) (xs ys : Entries)
    → Distinct xs
    → Distinct ys
    → ((p : ℕ) → is_in p ys ≡ true → is_in p xs ≡ false)
    → is_in a xs ≡ false
    → is_in a ys ≡ false
    → Seg h none f xs pv (some a)
    → Seg h (some a) nx ys l none
    → Seg
        (change (set_next (set_prev h nx pv) pv nx) a freed)
        none
        (if points_to f a then nx else f)
        (xs ++ ys)
        (if points_to l a then pv else l)
        none
unlink h a pv nx f l xs ys dx dy o nx_a ny_a s t =
    let h₁ = set_prev h nx pv in
    let h₂ = set_next h₁ pv nx in
    Seg-append (change h₂ a freed) none (if points_to f a then nx else f) xs ys pv
      (if points_to l a then pv else l) nx none
      (Seg-change h₂ a freed none (if points_to f a then nx else f) xs pv nx nx_a (
        before h₁ a pv nx f xs dx nx_a (
          Seg-set_prev_apart h nx pv none f xs pv (some a) (first_apart h (some a) nx xs ys l o t)
            s)))
      (Seg-change h₂ a freed pv nx ys (if points_to l a then pv else l) none ny_a (
        Seg-set_next_apart h₁ pv nx pv nx ys (if points_to l a then pv else l) none
          (last_apart h pv f (some a) xs ys o s) (behind h a pv nx ys l dy ny_a t)))
