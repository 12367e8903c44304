-- ===== src/Subj/Poll/Kept.antt =====
-- osubjMonitoring keeps the list of monitors in order.
use okscada.Prelude.{
  ℕ, ◌≡◌, inl, inr, refl, sym, ap, ◌∙◌, subst, Bool, true, false, not, ◌||◌, [], ◌∷◌, ◌++◌, Option,
  none, some, length, length-append, ◌==◌, arith, Bool-cases,
}
use okscada.Subj.{Memory}
use okscada.Subj.Monitors.{Monitor, Heap, Monitors}
use okscada.Subj.Monitors.Segs.{
  Entries, is_in, Distinct, Seg, Seg-append, Seg-split, Distinct-split, is_in-append, true_ne_false,
}
use okscada.Subj.Monitors.Links.{IsWithin}
use okscada.Subj.Monitors.Found.{has}
use okscada.Subj.Monitors.Handlers.{Unique, Inv, has-append}
use okscada.Subj.Monitors.Registered.{IsWithin-behind}
use okscada.Subj.Poll.{Settings, start_poll, or_first_mon, poll, monitoring}
use okscada.Subj.Poll.Walk.{poll-Walked}

Seg-frame :
    (h h' : Heap) (pv f : Option ℕ) (xs : Entries) (l e : Option ℕ)
    → ((q : ℕ) → is_in q xs ≡ true → h' q ≡ h q)
    → Seg h pv f xs l e
    → Seg h' pv f xs l e
Seg-frame h h' pv f [] l e same s = s
Seg-frame h h' pv f ((a, m) ∷ xs) l e same (q, nx, i, s) = (
  q,
  nx,
  same a (ground arith) ∙ i,
  Seg-frame h h' (some a) nx xs l e (λ z. λ y. same z (ground (arith, y))) s,
)

Distinct-join :
    (xs ys zs : Entries)
    → ((q : ℕ) → is_in q zs ≡ is_in q ys)
    → Distinct (xs ++ ys)
    → Distinct zs
    → Distinct (xs ++ zs)
Distinct-join [] ys zs same d e = e
Distinct-join ((a, m) ∷ xs) ys zs same (n, d) e = (
  is_in-append a xs zs ∙ ap (λ b. is_in a xs || b) (same a) ∙ sym (is_in-append a xs ys) ∙ n,
  Distinct-join xs ys zs same d e,
)

Unique-join :
    (xs ys zs : Entries)
    → ((o : ℕ) → has o zs ≡ has o ys)
    → Unique (xs ++ ys)
    → Unique zs
    → Unique (xs ++ zs)
Unique-join [] ys zs same d e = e
Unique-join ((a, m) ∷ xs) ys zs same (n, d) e = (
  has-append m.ooid xs zs
      ∙ ap (λ b. has m.ooid xs || b) (same m.ooid)
      ∙ sym (has-append m.ooid xs ys)
      ∙ n,
  Unique-join xs ys zs same d e,
)

Unique-back : (xs ys : Entries) → Unique (xs ++ ys) → Unique ys
Unique-back [] ys u = u
Unique-back (x ∷ xs) ys (n, u) = Unique-back xs ys u

-- A list with what is before a pointer into it.
abbrev Cut : Entries → ℕ → Type 0
Cut zs c = (xs : Entries) × (m : Monitor) × (ys : Entries) × (zs ≡ xs ++ (c, m) ∷ ys)

cut : (zs : Entries) (c : ℕ) → is_in c zs ≡ true → Cut zs c
cut [] c e = absurd (true_ne_false (sym e))
cut ((a, m) ∷ zs) c e = elim (Bool-cases (a == c)) [
  | inl b ↦ ([], m, zs, ap (λ z. (z, m) ∷ zs) (eq_of a c b))
  | inr b ↦
      let (xs, k, ys, q) = cut zs c (ground (arith, b, e)) in
      ((a, m) ∷ xs, k, ys, ap (λ z. (a, m) ∷ z) q)
]
  where
    eq_of : (a c : ℕ) → (a == c) ≡ true → a ≡ c
    eq_of a c e = ground (arith, e)

not_behind :
    (xs ys : Entries) (q : ℕ)
    → ((p : ℕ) → is_in p ys ≡ true → is_in p xs ≡ false)
    → is_in q xs ≡ true
    → is_in q ys ≡ false
not_behind xs ys q o e = elim (Bool-cases (is_in q ys)) [
  | inl i ↦ absurd (true_ne_false (sym e ∙ o q i))
  | inr i ↦ i
]

-- A list in order with monitors for the same ooids.
abbrev pub KeptBy : Monitors → Entries → Type 0
KeptBy s zs = (left : Entries) × Inv s left × ((o : ℕ) → has o left ≡ has o zs)

-- The state after the loop from `p` on.
abbrev polled : Settings → Memory → Monitors → Option ℕ → Monitors
polled cfg m s p =
    let r = poll cfg m s.mon_qty s.heap p start_poll in record s { heap = r.0; cur_mon = r.1 }

-- The loop from the first record of the second part on.
walk_from :
    (cfg : Settings) (m : Memory) (s : Monitors) (xs ys : Entries) (mid p : Option ℕ)
    → Inv s (xs ++ ys)
    → Seg s.heap none s.first_mon xs mid p
    → Seg s.heap mid p ys s.last_mon none
    → KeptBy (polled cfg m s p) (xs ++ ys)
walk_from cfg m s xs ys mid p v s₁ s₂ =
    let (dx, dy, o) = Distinct-split xs ys v.links.distinct in
    let c : s.mon_qty ≡ length (xs ++ ys) = v.links.counted in
    let l = length-append xs ys in
    let w =
      poll-Walked cfg m ys s.mon_qty s.heap mid p s.last_mon start_poll (omega (arith, c, l)) s₂ dy
        (Unique-back xs ys v.unique) in
    let h' = (poll cfg m s.mon_qty s.heap p start_poll).0 in
    (
      xs ++ w.left,
      record {
        links = record {
          seg =
              Seg-append h' none s.first_mon xs w.left mid s.last_mon p none
                (Seg-frame s.heap h' none s.first_mon xs mid p
                  (λ q. λ e. w.frame q (not_behind xs ys q o e)) s₁)
                w.seg;
          distinct = Distinct-join xs ys w.left w.in_same v.links.distinct w.distinct;
          counted = omega (arith, c, l, length-append xs w.left, w.same_length);
        };
        unique = Unique-join xs ys w.left w.has_same v.unique w.unique;
        current = IsWithin-behind (poll cfg m s.mon_qty s.heap p start_poll).1 xs w.left w.ends;
      },
      λ z.
          has-append z xs w.left
          ∙ ap (λ b. has z xs || b) (w.has_same z)
          ∙ sym (has-append z xs ys),
    )

walk_cur :
    (cfg : Settings) (m : Memory) (s : Monitors) (zs : Entries) (c : Option ℕ)
    → Inv s zs
    → IsWithin c zs
    → KeptBy (polled cfg m s (or_first_mon c s.first_mon)) zs
walk_cur cfg m s zs c v (inl e) =
    subst (λ x. KeptBy (polled cfg m s (or_first_mon x s.first_mon)) zs) (sym e)
      (walk_from cfg m s [] zs none s.first_mon v (refl, refl) v.links.seg)
walk_cur cfg m s zs c v (inr (a, e, i)) =
    let (xs, k, ys, q) = cut zs a i in
    let v' = subst (Inv s) q v in
    let (mid, p, s₁, s₂) =
      Seg-split s.heap none s.first_mon xs ((a, k) ∷ ys) s.last_mon none v'.links.seg in
    subst (λ x. KeptBy (polled cfg m s (or_first_mon c s.first_mon)) x) (sym q)
      (subst (λ x. KeptBy (polled cfg m s x) (xs ++ (a, k) ∷ ys))
        (s₂.0 ∙ ap (λ x. or_first_mon x s.first_mon) (sym e))
        (walk_from cfg m s xs ((a, k) ∷ ys) mid p v' s₁ s₂))

-- osubjMonitoring, whatever the memory and the limits, leaves a list of monitors for the same ooids without duplicates, with the
-- links and the count in order, and osubj_cur_mon NULL or at one of them.
pub monitoring-KeptBy :
    (cfg : Settings) (m : Memory) (running : Bool) (s : Monitors) (zs : Entries)
    → Inv s zs
    → KeptBy (monitoring cfg m running s).0 zs
unfolding monitoring
monitoring-KeptBy cfg m running s zs v = elim (Bool-cases (not running)) [
  | inl e ↦ rw e (zs, v, λ o. refl)
  | inr e ↦ elim (Bool-cases (s.mon_qty == 0)) [
    | inl z ↦ rw (e, z) (zs, v, λ o. refl)
    | inr z ↦ rw (e, z) (walk_cur cfg m s zs s.cur_mon v v.current)
  ]
]
