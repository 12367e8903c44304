-- ===== src/Subj/Poll/Walk.antt =====
-- What osubjMonitoring leaves of the records that it goes along.
use okscada.Prelude.{
  ℕ, zero, suc, ◌+◌, ◌≤◌, ◌≡◌, ◌≢◌, inl, inr, refl, sym, ap, ◌∙◌, subst, Bool, true, false, ◌||◌,
  [], ◌∷◌, Option, none, some, length, ◌==◌, arith, Bool-cases,
}
use okscada.Subj.{Memory}
use okscada.Subj.Access.{Target, at, null_pointer, bad_ptr, has_fields}
use okscada.Subj.Monitors.{Monitor, Heap, change}
use okscada.Subj.Monitors.Segs.{
  Entries, is_in, Distinct, IsAt, Seg, Seg-change, change-ne, change-eq, true_ne_false,
}
use okscada.Subj.Monitors.Links.{IsWithin}
use okscada.Subj.Monitors.Found.{has}
use okscada.Subj.Monitors.Handlers.{Unique}
use okscada.Subj.Poll.{
  Settings, Poll, poll_target, read_value, is_quiet, make_room, must_stop, note, visit, with_mon,
  is_passed_over, poll,
}

read_value-ooid : (mon : Monitor) (m : Memory) (t : Target) → (read_value mon m t).1.ooid ≡ mon.ooid
read_value-ooid mon m (at a) = elim (Bool-cases (mon.blen == 0)) [
  | inl e ↦ rw e refl
  | inr e ↦ elim (Bool-cases (has_fields mon.len)) [
    | inl f ↦ rw (e, f) refl
    | inr f ↦ rw (e, f) refl
  ]
]
read_value-ooid mon m null_pointer = refl
read_value-ooid mon m bad_ptr = refl

note-ooid :
    (cfg : Settings) (t : Target) (undef : ℕ) (mon : Monitor) (st : Poll)
    → (note cfg t undef mon st).0.ooid ≡ mon.ooid
note-ooid cfg t undef mon st = elim (Bool-cases (is_quiet undef mon)) [
  | inl e ↦ rw e refl
  | inr e ↦ rw e refl
]

visit-ooid :
    (cfg : Settings) (m : Memory) (mon : Monitor) (st : Poll)
    → (visit cfg m mon st).0.ooid ≡ mon.ooid
visit-ooid cfg m mon st =
    let t = poll_target mon m in
    note-ooid cfg t (read_value mon m t).0 (read_value mon m t).1
      (record st { polled_qty = st.polled_qty + 1 })
    ∙ read_value-ooid mon m t

-- From a record on, the links lead through records at the same addresses and with the same
-- ooids as before, all other memory is as it was, and the loop ends at one of the records or at NULL.
pub record Walked (h : Heap) (pv : Option ℕ) (p : Option ℕ) (ys : Entries) (l : Option ℕ)
    (h' : Heap) (p' : Option ℕ) : Type 0 where
  pub left : Entries
  pub seg : Seg h' pv p left l none
  pub in_same : (q : ℕ) → is_in q left ≡ is_in q ys
  pub has_same : (o : ℕ) → has o left ≡ has o ys
  pub same_length : length left ≡ length ys
  pub distinct : Distinct left
  pub unique : Unique left
  pub frame : (q : ℕ) → is_in q ys ≡ false → h' q ≡ h q
  pub ends : IsWithin p' left

both_false : (a b : Bool) → (a || b) ≡ false → (a ≡ false) × (b ≡ false)
both_false true b e = absurd (true_ne_false e)
both_false false b e = (refl, e)

ne_of : (a q : ℕ) → (a == q) ≡ false → q ≢ a
ne_of a q e = ground (arith, e)

here : (a : ℕ) (b : Bool) → (a == a || b) ≡ true
here a b = ground arith

IsWithin-next :
    (p : Option ℕ) (a : ℕ) (k : Monitor) (xs : Entries) → IsWithin p xs → IsWithin p ((a, k) ∷ xs)
IsWithin-next p a k xs (inl e) = inl e
IsWithin-next p a k xs (inr (c, e, i)) = inr (c, e, ground (arith, i))

-- A record is passed, with what it holds now.
passed :
    (h h₁ h' : Heap) (pv nx : Option ℕ) (a : ℕ) (m k : Monitor) (ys : Entries) (l p' : Option ℕ)
    → IsAt h₁ k a nx pv
    → k.ooid ≡ m.ooid
    → ((q : ℕ) → (a == q) ≡ false → h₁ q ≡ h q)
    → is_in a ys ≡ false
    → has m.ooid ys ≡ false
    → Walked h₁ (some a) nx ys l h' p'
    → Walked h pv (some a) ((a, m) ∷ ys) l h' p'
passed h h₁ h' pv nx a m k ys l p' i o f n u w = record {
  left = (a, k) ∷ w.left;
  seg = (refl, nx, w.frame a n ∙ i, w.seg);
  in_same = λ q. ap (λ b. a == q || b) (w.in_same q);
  has_same = λ x. ap (λ b. k.ooid == x || b) (w.has_same x) ∙ ap (λ z. z == x || has x ys) o;
  same_length = ap suc w.same_length;
  distinct = (w.in_same a ∙ n, w.distinct);
  unique = (w.has_same k.ooid ∙ ap (λ z. has z ys) o ∙ u, w.unique);
  frame = λ q. λ e.
      w.frame q (both_false (a == q) (is_in q ys) e).1 ∙ f q (both_false (a == q) (is_in q ys) e).0;
  ends = IsWithin-next p' a k w.left w.ends;
}

unmoved :
    (h : Heap) (pv p : Option ℕ) (ys : Entries) (l p' : Option ℕ)
    → Seg h pv p ys l none
    → Distinct ys
    → Unique ys
    → IsWithin p' ys
    → Walked h pv p ys l h p'
unmoved h pv p ys l p' s d u w = record {
  left = ys;
  seg = s;
  in_same = λ q. refl;
  has_same = λ o. refl;
  same_length = refl;
  distinct = d;
  unique = u;
  frame = λ q. λ e. refl;
  ends = w;
}

pub poll-Walked :
    (cfg : Settings) (m : Memory) (ys : Entries) (n : ℕ) (h : Heap) (pv p l : Option ℕ) (st : Poll)
    → length ys ≤ n
    → Seg h pv p ys l none
    → Distinct ys
    → Unique ys
    → Walked h pv p ys l (poll cfg m n h p st).0 (poll cfg m n h p st).1
poll-Walked cfg m [] zero h pv p l st b s d u = unmoved h pv p [] l p s d u (inl s.0)
poll-Walked cfg m [] (suc n) h pv p l st b s d u =
    subst (λ z. Walked h pv z [] l (poll cfg m (suc n) h z st).0 (poll cfg m (suc n) h z st).1)
      (sym s.0) (unmoved h pv none [] l none (refl, s.1) d u (inl refl))
poll-Walked cfg m (y ∷ ys) zero h pv p l st b s d u = absurd (omega (arith, b))
poll-Walked cfg m ((a, k) ∷ ys) (suc n) h pv p l st b (q, nx, i, s) (x, d) (o, u) =
    subst
      (λ z.
        Walked h pv z ((a, k) ∷ ys) l (poll cfg m (suc n) h z st).0 (poll cfg m (suc n) h z st).1)
      (sym q)
      (rw (i, poll)
        (elim (Bool-cases (is_passed_over cfg k)) [
          | inl e ↦ rw e (
              passed h h (poll cfg m n h nx st).0 pv nx a k k ys l (poll cfg m n h nx st).1 i refl
                (λ z. λ y. refl) x o
                (poll-Walked cfg m ys n h (some a) nx l st (omega (arith, b)) s d u))
          | inr e ↦ elim (Bool-cases (must_stop cfg k.len st)) [
            | inl f ↦
                rw (e, f)
                  (unmoved h pv (some a) ((a, k) ∷ ys) l (some a) (refl, nx, i, s) (x, d) (o, u)
                    (inr (a, refl, here a (is_in a ys))))
            | inr f ↦
                rw (e, f)
                  (let v = visit cfg m k (make_room cfg k.len st) in
                    let g = with_mon v.0 in
                    let r = poll cfg m n (change h a g) nx v.1 in
                    passed h (change h a g) r.0 pv nx a k v.0 ys l r.1 (change-eq h a g ∙ ap g i)
                      (visit-ooid cfg m k (make_room cfg k.len st))
                      (λ z. λ y. change-ne h a z g (ne_of a z y)) x o
                      (poll-Walked cfg m ys n (change h a g) (some a) nx l v.1 (omega (arith, b))
                        (Seg-change h a g (some a) nx ys l none x s) d u))
          ]
        ]))
