-- ===== src/Subj/Monitors/Segs.antt =====
-- The records in memory that stand for a list of monitors, and what the changes of the links do to them.
use okscada.Prelude.{
  ℕ, ◌≡◌, ◌≢◌, refl, sym, ap, ◌∙◌, subst, Bool, true, false, ◌||◌, List, [], ◌∷◌, ◌++◌, Option,
  some, ◌==◌, arith,
}
use okscada.Subj.Monitors.{Monitor, Node, Heap, change, with_next, with_prev}

-- The addresses of the records, with their contents.
abbrev pub Entries : Type 0
Entries = List (ℕ × Monitor)

abbrev pub is_in : ℕ → Entries → Bool
is_in p [] = false
is_in p ((a, m) ∷ xs) = a == p || is_in p xs

abbrev pub Distinct : Entries → Type 0
Distinct [] = Unit {0}
Distinct ((a, m) ∷ xs) = (is_in a xs ≡ false) × Distinct xs

abbrev pub IsAt : Heap → Monitor → ℕ → Option ℕ → Option ℕ → Type 0
IsAt h m a nx pv = h a ≡ some (record { mon = m; next = nx; prev = pv })

-- From `f` the links lead through the records of `xs` to `e`; the first one's link back is
-- `pv`, and `l` is the last one, or `pv` if there is none.
abbrev pub Seg : Heap → Option ℕ → Option ℕ → Entries → Option ℕ → Option ℕ → Type 0
Seg h pv f [] l e = (f ≡ e) × (l ≡ pv)
Seg h pv f ((a, m) ∷ xs) l e =
    (f ≡ some a) × (nx : Option ℕ) × IsAt h m a nx pv × Seg h (some a) nx xs l e

pub change-ne : (h : Heap) (p x : ℕ) (f : Option Node → Option Node) → x ≢ p → change h p f x ≡ h x
change-ne h p x f n = ground (arith, n)

pub change-eq : (h : Heap) (p : ℕ) (f : Option Node → Option Node) → change h p f p ≡ f (h p)
change-eq h p f = ground arith

ne_of : (a p : ℕ) (b : Bool) → (a == p || b) ≡ false → (a ≢ p) × (b ≡ false)
ne_of a p b e = ground (arith, e)

-- A change elsewhere.
pub Seg-change :
    (h : Heap) (p : ℕ) (g : Option Node → Option Node) (pv f : Option ℕ) (xs : Entries)
    (l e : Option ℕ)
    → is_in p xs ≡ false
    → Seg h pv f xs l e
    → Seg (change h p g) pv f xs l e
Seg-change h p g pv f [] l e n s = s
Seg-change h p g pv f ((a, m) ∷ xs) l e n (q, nx, i, s) =
    let (d, n') = ne_of a p (is_in p xs) n in
    (q, nx, change-ne h p a g d ∙ i, Seg-change h p g (some a) nx xs l e n' s)

-- The first of a segment is linked back to another record.
pub Seg-set_prev :
    (h : Heap) (pv pv' f : Option ℕ) (a : ℕ) (m : Monitor) (xs : Entries) (l e : Option ℕ)
    → is_in a xs ≡ false
    → Seg h pv f ((a, m) ∷ xs) l e
    → Seg (change h a (with_prev pv')) pv' f ((a, m) ∷ xs) l e
Seg-set_prev h pv pv' f a m xs l e n (q, nx, i, s) = (
  q,
  nx,
  change-eq h a (with_prev pv') ∙ ap (with_prev pv') i,
  Seg-change h a (with_prev pv') (some a) nx xs l e n s,
)

same_address : (a b : ℕ) (r : Bool) → some b ≡ some a → (a == b || r) ≡ true
same_address a b r q = ground (arith, q)

pub in_next : (a b : ℕ) (r : Bool) → r ≡ true → (a == b || r) ≡ true
in_next a b r q = ground (arith, q)

pub last_is_in :
    (h : Heap) (pv f : Option ℕ) (a : ℕ) (m : Monitor) (xs : Entries) (b : ℕ) (e : Option ℕ)
    → Seg h pv f ((a, m) ∷ xs) (some b) e
    → is_in b ((a, m) ∷ xs) ≡ true
last_is_in h pv f a m [] b e (q, nx, i, s) = same_address a b false s.1
last_is_in h pv f a m ((c, k) ∷ xs) b e (q, nx, i, s) =
    in_next a b (is_in b ((c, k) ∷ xs)) (last_is_in h (some a) nx c k xs b e s)

pub true_ne_false : true ≢ false
true_ne_false e = cc

pub apart : (a b : ℕ) (xs : Entries) → is_in a xs ≡ false → is_in b xs ≡ true → a ≢ b
apart a b xs n i q = true_ne_false (sym i ∙ subst (λ x. is_in x xs ≡ false) q n)

some_eq : (a b : ℕ) → some a ≡ some b → a ≡ b
some_eq a b q = cc

linked_on :
    (h : Heap) (m : Monitor) (a b : ℕ) (nx e' pv : Option ℕ)
    → b ≡ a
    → IsAt h m a nx pv
    → IsAt (change h b (with_next e')) m a e' pv
linked_on h m a b nx e' pv q i =
    subst (λ x. IsAt (change h x (with_next e')) m a e' pv) (sym q)
      (change-eq h a (with_next e') ∙ ap (with_next e') i)

-- The last of a segment is linked to another record.
pub Seg-set_next :
    (h : Heap) (pv f : Option ℕ) (a : ℕ) (m : Monitor) (xs : Entries) (b : ℕ) (e e' : Option ℕ)
    → Distinct ((a, m) ∷ xs)
    → Seg h pv f ((a, m) ∷ xs) (some b) e
    → Seg (change h b (with_next e')) pv f ((a, m) ∷ xs) (some b) e'
Seg-set_next h pv f a m [] b e e' d (q, nx, i, s) =
    (q, e', linked_on h m a b nx e' pv (some_eq b a s.1) i, (refl, s.1))
Seg-set_next h pv f a m ((c, k) ∷ xs) b e e' (n, d) (q, nx, i, s) = (
  q,
  nx,
  change-ne h b a (with_next e') (apart a b ((c, k) ∷ xs) n (last_is_in h (some a) nx c k xs b e s))
      ∙ i,
  Seg-set_next h (some a) nx c k xs b e e' d s,
)

-- Two segments in a row are one.
pub Seg-append :
    (h : Heap) (pv f : Option ℕ) (xs ys : Entries) (mid l l' e : Option ℕ)
    → Seg h pv f xs mid l'
    → Seg h mid l' ys l e
    → Seg h pv f (xs ++ ys) l e
Seg-append h pv f [] ys mid l l' e (q, r) t =
    subst (λ x. Seg h x f ys l e) r (subst (λ x. Seg h mid x ys l e) (sym q) t)
Seg-append h pv f ((a, m) ∷ xs) ys mid l l' e (q, nx, i, s) t =
    (q, nx, i, Seg-append h (some a) nx xs ys mid l l' e s t)

pub Seg-split :
    (h : Heap) (pv f : Option ℕ) (xs ys : Entries) (l e : Option ℕ)
    → Seg h pv f (xs ++ ys) l e
    → (mid : Option ℕ) × (l' : Option ℕ) × Seg h pv f xs mid l' × Seg h mid l' ys l e
Seg-split h pv f [] ys l e s = (pv, f, (refl, refl), s)
Seg-split h pv f ((a, m) ∷ xs) ys l e (q, nx, i, s) =
    let (mid, l', s₁, s₂) = Seg-split h (some a) nx xs ys l e s in (mid, l', (q, nx, i, s₁), s₂)

pub is_in-append : (p : ℕ) (xs ys : Entries) → is_in p (xs ++ ys) ≡ (is_in p xs || is_in p ys)
is_in-append p [] ys = refl
is_in-append p ((a, m) ∷ xs) ys = ground (arith, is_in-append p xs ys)

not_first :
    (a p : ℕ) (xs ys : Entries)
    → is_in a ys ≡ false
    → is_in p ys ≡ true
    → is_in p xs ≡ false
    → (a == p || is_in p xs) ≡ false
not_first a p xs ys n i o = ground (arith, apart a p ys n i, o)

-- Records at different addresses, in two parts.
pub Distinct-split :
    (xs ys : Entries)
    → Distinct (xs ++ ys)
    → Distinct xs × Distinct ys × ((p : ℕ) → is_in p ys ≡ true → is_in p xs ≡ false)
Distinct-split [] ys d = (tt, d, λ p. λ i. refl)
Distinct-split ((a, m) ∷ xs) ys (n, d) =
    let (d₁, d₂, o) = Distinct-split xs ys d in
    let z = is_in-append a xs ys in
    ((ground (arith, z, n), d₁), d₂, λ p. λ i. not_first a p xs ys (ground (arith, z, n)) i (o p i))

pub Distinct-remove :
    (xs : Entries) (a : ℕ) (m : Monitor) (ys : Entries)
    → Distinct (xs ++ (a, m) ∷ ys)
    → Distinct (xs ++ ys)
Distinct-remove [] a m ys (n, d) = d
Distinct-remove ((b, k) ∷ xs) a m ys (n, d) = (
  ground (arith, is_in-append b xs ys, is_in-append b xs ((a, m) ∷ ys), n),
  Distinct-remove xs a m ys d,
)

pub Distinct-add :
    (xs : Entries) (a : ℕ) (m : Monitor)
    → is_in a xs ≡ false
    → Distinct xs
    → Distinct (xs ++ (a, m) ∷ [])
Distinct-add [] a m n d = (refl, tt)
Distinct-add ((b, k) ∷ xs) a m n (o, d) = (
  ground (arith, is_in-append b xs ((a, m) ∷ []), n, o),
  Distinct-add xs a m (ne_of b a (is_in a xs) n).1 d,
)
