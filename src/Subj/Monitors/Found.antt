-- ===== src/Subj/Monitors/Found.antt =====
-- What the searches along the links find.
use okscada.Prelude.{
  ℕ, suc, ◌+◌, ◌≡◌, ◌⊎◌, inl, inr, refl, sym, ap, ◌∙◌, subst, Bool, true, false, ◌||◌, [], ◌∷◌,
  ◌++◌, Option, none, some, length, ◌==◌, arith, Bool-cases,
}
use okscada.Subj.Monitors.{Monitor, Node, Heap, Monitors, follow, find_forward, find_backward}
use okscada.Subj.Monitors.Segs.{Entries, IsAt, Seg}
use okscada.Subj.Monitors.Links.{Links}

abbrev pub has : ℕ → Entries → Bool
has ooid [] = false
has ooid ((a, m) ∷ xs) = m.ooid == ooid || has ooid xs

-- An entry for an ooid, with what is before and behind it.
pub record Entry (xs : Entries) (ooid p : ℕ) : Type 0 where
  pub front : Entries
  pub back : Entries
  pub mon : Monitor
  pub parts : xs ≡ front ++ (p, mon) ∷ back
  pub named : mon.ooid ≡ ooid

abbrev pub Found : Heap → Entries → ℕ → Option (ℕ × Node) → Type 0
Found h xs ooid none = has ooid xs ≡ false
Found h xs ooid (some (p, nd)) = (h p ≡ some nd) × Entry xs ooid p

Entry-here : (xs : Entries) (a ooid : ℕ) (m : Monitor) → m.ooid ≡ ooid → Entry ((a, m) ∷ xs) ooid a
Entry-here xs a ooid m e = record { front = []; back = xs; mon = m; parts = refl; named = e }

Entry-later :
    (xs : Entries) (a ooid p : ℕ) (m : Monitor) → Entry xs ooid p → Entry ((a, m) ∷ xs) ooid p
Entry-later xs a ooid p m w = record {
  front = (a, m) ∷ w.front;
  back = w.back;
  mon = w.mon;
  parts = ap (λ z. (a, m) ∷ z) w.parts;
  named = w.named;
}

Found-next :
    (h : Heap) (xs : Entries) (ooid a : ℕ) (m : Monitor) (o : Option (ℕ × Node))
    → (m.ooid == ooid) ≡ false
    → Found h xs ooid o
    → Found h ((a, m) ∷ xs) ooid o
Found-next h xs ooid a m none e w = ground (arith, e, w)
Found-next h xs ooid a m (some (p, nd)) e (i, w) = (i, Entry-later xs a ooid p m w)

eq_of : (a b : ℕ) → (a == b) ≡ true → a ≡ b
eq_of a b e = ground (arith, e)

follow-forward :
    (h : Heap) (ooid : ℕ) (pv f : Option ℕ) (xs : Entries) (l : Option ℕ)
    → Seg h pv f xs l none
    → Found h xs ooid (follow (λ nd. nd.next) h ooid (length xs) f)
follow-forward h ooid pv f [] l s = refl
follow-forward h ooid pv f ((a, m) ∷ xs) l (q, nx, i, s) =
    rw (q, i)
      (elim (Bool-cases (m.ooid == ooid)) [
        | inl e ↦ rw e (i, Entry-here xs a ooid m (eq_of m.ooid ooid e))
        | inr e ↦ rw e (
            Found-next h xs ooid a m (follow (λ nd. nd.next) h ooid (length xs) nx) e
              (follow-forward h ooid (some a) nx xs l s))
      ])

pub find_forward-Found :
    (s : Monitors) (xs : Entries) (ooid : ℕ)
    → Links s xs
    → Found s.heap xs ooid (find_forward ooid s)
find_forward-Found s xs ooid w =
    subst (λ n. Found s.heap xs ooid (follow (λ nd. nd.next) s.heap ooid n s.first_mon))
      (sym w.counted) (follow-forward s.heap ooid none s.first_mon xs s.last_mon w.seg)

-- Back from the last record, to the one found or to the record before the segment.
Back : Heap → Entries → ℕ → Option ℕ → ℕ → Option (ℕ × Node) → Type 0
Back h xs ooid pv k o =
    ((p : ℕ) × (nd : Node) × (o ≡ some (p, nd)) × (h p ≡ some nd) × Entry xs ooid p)
    ⊎ ((has ooid xs ≡ false) × (o ≡ follow (λ nd. nd.prev) h ooid k pv))

refuel :
    (h : Heap) (ooid n n' : ℕ) (l : Option ℕ)
    → n ≡ n'
    → follow (λ nd. nd.prev) h ooid n l ≡ follow (λ nd. nd.prev) h ooid n' l
refuel h ooid n n' l e = ap (λ z. follow (λ nd. nd.prev) h ooid z l) e

follow-hit :
    (h : Heap) (ooid k a : ℕ) (m : Monitor) (nx pv : Option ℕ)
    → IsAt h m a nx pv
    → (m.ooid == ooid) ≡ true
    → follow (λ nd. nd.prev) h ooid (suc k) (some a)
      ≡ some (a, record { mon = m; next = nx; prev = pv })
follow-hit h ooid k a m nx pv i e = rw (i, follow) (rw e refl)

follow-miss :
    (h : Heap) (ooid k a : ℕ) (m : Monitor) (nx pv : Option ℕ)
    → IsAt h m a nx pv
    → (m.ooid == ooid) ≡ false
    → follow (λ nd. nd.prev) h ooid (suc k) (some a) ≡ follow (λ nd. nd.prev) h ooid k pv
follow-miss h ooid k a m nx pv i e = rw (i, follow) (rw e refl)

follow-backward :
    (h : Heap) (ooid : ℕ) (pv f : Option ℕ) (xs : Entries) (l e : Option ℕ) (k : ℕ)
    → Seg h pv f xs l e
    → Back h xs ooid pv k (follow (λ nd. nd.prev) h ooid (length xs + k) l)
unfolding Back
follow-backward h ooid pv f [] l e k (q, r) =
    inr (refl, refuel h ooid (0 + k) k l (omega arith) ∙ ap (follow (λ nd. nd.prev) h ooid k) r)
follow-backward h ooid pv f ((a, m) ∷ xs) l e k (q, nx, i, s) =
    let fuel = refuel h ooid (suc (length xs) + k) (length xs + suc k) l (omega arith) in
    elim (follow-backward h ooid (some a) nx xs l e (suc k) s) [
      | inl (p, nd, o, j, w) ↦ inl (p, nd, fuel ∙ o, j, Entry-later xs a ooid p m w)
      | inr (n, o) ↦ elim (Bool-cases (m.ooid == ooid)) [
        | inl b ↦ inl (
          a,
          record { mon = m; next = nx; prev = pv },
          fuel ∙ o ∙ follow-hit h ooid k a m nx pv i b,
          i,
          Entry-here xs a ooid m (eq_of m.ooid ooid b),
        )
        | inr b ↦ inr (ground (arith, b, n), fuel ∙ o ∙ follow-miss h ooid k a m nx pv i b)
      ]
    ]

Back-Found :
    (h : Heap) (xs : Entries) (ooid : ℕ) (o : Option (ℕ × Node))
    → Back h xs ooid none 0 o
    → Found h xs ooid o
unfolding Back
Back-Found h xs ooid o (inl (p, nd, e, j, w)) = subst (Found h xs ooid) (sym e) (j, w)
Back-Found h xs ooid o (inr (n, e)) = subst (Found h xs ooid) (sym e) n

pub find_backward-Found :
    (s : Monitors) (xs : Entries) (ooid : ℕ)
    → Links s xs
    → Found s.heap xs ooid (find_backward ooid s)
find_backward-Found s xs ooid w =
    let c : s.mon_qty ≡ length xs = w.counted in
    Back-Found s.heap xs ooid (find_backward ooid s) (
      subst (λ n. Back s.heap xs ooid none 0 (follow (λ nd. nd.prev) s.heap ooid n s.last_mon))
        (omega (arith, c))
        (follow-backward s.heap ooid none s.first_mon xs s.last_mon none 0 w.seg))
