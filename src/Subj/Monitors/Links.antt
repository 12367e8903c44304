-- ===== src/Subj/Monitors/Links.antt =====
-- The doubly linked list of the monitors stands for a list, and adding and removing a record do what they
-- should to it.
use okscada.Prelude.{
  ℕ, suc, ◌≡◌, ◌≢◌, ◌⊎◌, inl, inr, refl, sym, ap, ◌∙◌, subst, true, false, [], ◌∷◌, ◌++◌, Option,
  none, some, length, length-append, ◌==◌, arith, Bool-cases,
}
use okscada.Subj.Monitors.{
  Monitor, Node, Heap, Monitors, change, with_next, set_next, or_first, allocate_monitor,
  deallocate_monitor,
}
use okscada.Subj.Monitors.Segs.{
  Entries, is_in, Distinct, Seg, Seg-change, Seg-set_next, Seg-append, Seg-split, Distinct-split,
  Distinct-remove, Distinct-add, apart, change-ne, change-eq, in_next,
}
use okscada.Subj.Monitors.Relink.{last_in, head_in, unlink}

-- The links lead from the first record to the last through the records of `xs`, at
-- different addresses, and back, and they are as many as the count says.
pub record Links (s : Monitors) (xs : Entries) : Type 0 where
  pub seg : Seg s.heap none s.first_mon xs s.last_mon none
  pub distinct : Distinct xs
  pub counted : s.mon_qty ≡ length xs

length-insert :
    (xs : Entries) (a : ℕ) (m : Monitor) (ys : Entries)
    → length (xs ++ (a, m) ∷ ys) ≡ suc (length (xs ++ ys))
length-insert [] a m ys = refl
length-insert (x ∷ xs) a m ys = ap suc (length-insert xs a m ys)

-- A pointer that is NULL or leads to one of the records.
abbrev pub IsWithin : Option ℕ → Entries → Type 0
IsWithin o xs = (o ≡ none) ⊎ ((c : ℕ) × (o ≡ some c) × (is_in c xs ≡ true))

next-IsWithin :
    (h : Heap) (a : ℕ) (nx : Option ℕ) (ys : Entries) (l : Option ℕ)
    → Seg h (some a) nx ys l none
    → IsWithin nx ys
next-IsWithin h a nx [] l (q, r) = inl q
next-IsWithin h a nx ((c, k) ∷ ys) l s = inr (c, s.0, head_in c k ys)

-- osubjDeallocateMonitor takes the record out of the list.
pub deallocate_monitor-Links :
    (s : Monitors) (xs : Entries) (a : ℕ) (m : Monitor) (ys : Entries)
    → Links s (xs ++ (a, m) ∷ ys)
    → (nd : Node) × (s.heap a ≡ some nd)
      × IsWithin nd.next ys
      × Links (deallocate_monitor a nd s) (xs ++ ys)
deallocate_monitor-Links s xs a m ys w =
    let (pv, md, s₁, (q, nx, i, s₂)) =
      Seg-split s.heap none s.first_mon xs ((a, m) ∷ ys) s.last_mon none w.seg in
    let (dx, (n, dy), o) = Distinct-split xs ((a, m) ∷ ys) w.distinct in
    let s₁' : Seg s.heap none s.first_mon xs pv (some a) =
      subst (λ z. Seg s.heap none s.first_mon xs pv z) q s₁ in
    let c : s.mon_qty ≡ length (xs ++ (a, m) ∷ ys) = w.counted in
    (
      record { mon = m; next = nx; prev = pv },
      i,
      next-IsWithin s.heap a nx ys s.last_mon s₂,
      record {
        seg =
            unlink s.heap a pv nx s.first_mon s.last_mon xs ys dx dy
              (λ p. λ j. o p (in_next a p (is_in p ys) j)) (o a (head_in a m ys)) n s₁' s₂;
        distinct = Distinct-remove xs a m ys w.distinct;
        counted = omega (arith, c, length-insert xs a m ys);
      },
    )

none_ne_some : {A : Type 0} {a : A} → none ≢ some a
none_ne_some e = cc

eq_of : (a p : ℕ) → (a == p) ≡ true → a ≡ p
eq_of a p e = ground (arith, e)

free_is_new :
    (h : Heap) (pv f : Option ℕ) (xs : Entries) (l e : Option ℕ) (p : ℕ)
    → h p ≡ none
    → Seg h pv f xs l e
    → is_in p xs ≡ false
free_is_new h pv f [] l e p z s = refl
free_is_new h pv f ((a, m) ∷ xs) l e p z (q, nx, i, s) = elim (Bool-cases (a == p)) [
  | inl b ↦ absurd (none_ne_some (sym z ∙ ap h (sym (eq_of a p b)) ∙ i))
  | inr b ↦ rw b (free_is_new h (some a) nx xs l e p z s)
]

-- The records with a new one behind the last.
put_last :
    (h : Heap) (f l : Option ℕ) (p : ℕ) (m : Monitor) (xs : Entries)
    → Distinct xs
    → is_in p xs ≡ false
    → Seg h none f xs l none
    → Seg
        (set_next (change h p (λ o. some (record { mon = m; next = none; prev = l }))) l (some p))
        none
        (or_first f p)
        (xs ++ (p, m) ∷ [])
        (some p)
        none
put_last h f l p m [] d n (q, r) =
    subst (λ z. Seg (new_heap z) none (or_first f p) ((p, m) ∷ []) (some p) none) (sym r)
      (
        ap (λ z. or_first z p) q,
        none,
        change-eq h p (λ o. some (record { mon = m; next = none; prev = none })),
        (refl, refl),
      )
  where
    new_heap : Option ℕ → Heap
    new_heap z =
        set_next (change h p (λ o. some (record { mon = m; next = none; prev = z }))) z (some p)
put_last h f l p m ((c, k) ∷ xs) d n s =
    let (b, r, j) = last_in h none f c k xs l none s in
    let g : Option Node → Option Node =
      λ o. some (record { mon = m; next = none; prev = some b }) in
    let h₁ = change h p g in
    let t : Seg h none f ((c, k) ∷ xs) (some b) none =
      subst (λ z. Seg h none f ((c, k) ∷ xs) z none) r s in
    subst (λ z. Seg (new_heap z) none (or_first f p) ((c, k) ∷ xs ++ (p, m) ∷ []) (some p) none)
      (sym r)
      (subst (λ z. Seg (new_heap (some b)) none z ((c, k) ∷ xs ++ (p, m) ∷ []) (some p) none)
        (s.0 ∙ sym (ap (λ z. or_first z p) s.0))
        (Seg-append (new_heap (some b)) none f ((c, k) ∷ xs) ((p, m) ∷ []) (some b) (some p)
          (some p) none
          (Seg-set_next h₁ none f c k xs b none (some p) d
            (Seg-change h p g none f ((c, k) ∷ xs) (some b) none n t))
          (
            refl,
            none,
            change-ne h₁ b p (with_next (some p)) (apart p b ((c, k) ∷ xs) n j) ∙ change-eq h p g,
            (refl, refl),
          )))
  where
    new_heap : Option ℕ → Heap
    new_heap z =
        set_next (change h p (λ o. some (record { mon = m; next = none; prev = z }))) z (some p)

-- osubjAllocateMonitor puts the record at the end of the list.
pub allocate_monitor-Links :
    (s : Monitors) (xs : Entries) (p : ℕ) (m : Monitor)
    → s.heap p ≡ none
    → Links s xs
    → Links (allocate_monitor p m s) (xs ++ (p, m) ∷ [])
allocate_monitor-Links s xs p m z w = record {
  seg =
      put_last s.heap s.first_mon s.last_mon p m xs w.distinct
        (free_is_new s.heap none s.first_mon xs s.last_mon none p z w.seg) w.seg;
  distinct =
      Distinct-add xs p m (free_is_new s.heap none s.first_mon xs s.last_mon none p z w.seg)
        w.distinct;
  counted = omega (arith, w.counted, length-append xs ((p, m) ∷ []));
}
