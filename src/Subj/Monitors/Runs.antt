-- ===== src/Subj/Monitors/Runs.antt =====
-- Sequences of the calls that add and remove monitors: unregistering many, clearing all, and any order of calls.
use okscada.Prelude.{
  ℕ, zero, suc, ◌+◌, ◌*◌, ◌≡◌, ◌≢◌, inl, inr, refl, sym, ap, ◌∙◌, subst, Bool, true, false, not,
  ◌&&◌, ◌||◌, [], ◌∷◌, ◌++◌, Option, none, some, length, ltb, ◌==◌, if◌then◌else◌, arith,
  Bool-cases,
}
use okscada.Subj.{Memory, net_long}
use okscada.Subj.Monitors.{
  Node, Heap, Monitors, Reply, change, set_next, set_prev, freed, deallocate_monitor,
  unregister_monitoring, with_prev,
}
use okscada.Subj.Monitors.Segs.{Entries, is_in, Seg, change-ne, change-eq, true_ne_false}
use okscada.Subj.Monitors.Links.{Links}
use okscada.Subj.Monitors.Found.{has, Entry}
use okscada.Subj.Monitors.Handlers.{
  Inv, has-append, handle_data_group_unreg, clear_monitoring, unreg_one, unreg_all, free_all,
  record_at,
}
use okscada.Subj.Monitors.Registered.{Removed, unregister_monitoring-Removed, taken}

-- The ooids without `gone`, for the list before and the list after.
abbrev pub Without : (ℕ → Bool) → Entries → Entries → Type 0
Without gone xs ys = (o : ℕ) → has o ys ≡ (has o xs && not (gone o))

and_true : (b : Bool) → b ≡ (b && true)
and_true true = refl
and_true false = refl

and_not_or : (b g l : Bool) → ((b && not g) && not l) ≡ (b && not (g || l))
and_not_or true true l = refl
and_not_or true false l = refl
and_not_or false g l = refl

eq_of : (a b : ℕ) → (a == b) ≡ true → a ≡ b
eq_of a b e = ground (arith, e)

drop_absent : (o ooid : ℕ) (b : ℕ → Bool) → b ooid ≡ false → b o ≡ (b o && not (ooid == o))
drop_absent o ooid b n = elim (Bool-cases (ooid == o)) [
  | inl e ↦ rw e (subst (λ z. b z ≡ (b z && false)) (eq_of ooid o e) (rw n refl))
  | inr e ↦ rw e (and_true (b o))
]

and_false : (b : Bool) → false ≡ (b && false)
and_false true = refl
and_false false = refl

keep_rest : (a r c x : Bool) → x ≡ (a || (r || c)) → r ≡ false → (a || c) ≡ (x && not r)
keep_rest a true c x e f = absurd (true_ne_false f)
keep_rest a false c x e f = sym e ∙ and_true x

drop_named :
    (o ooid : ℕ) (f b : ℕ → Bool) (x : Bool)
    → x ≡ (f o || (ooid == o || b o))
    → (f ooid || b ooid) ≡ false
    → (f o || b o) ≡ (x && not (ooid == o))
drop_named o ooid f b x e n = elim (Bool-cases (ooid == o)) [
  | inl q ↦ rw q (subst (λ z. (f z || b z) ≡ (x && false)) (eq_of ooid o q) (n ∙ and_false x))
  | inr q ↦ keep_rest (f o) (ooid == o) (b o) x e q
]

has_without :
    (o ooid p : ℕ) (xs : Entries) (w : Entry xs ooid p)
    → has ooid (w.front ++ w.back) ≡ false
    → has o (w.front ++ w.back) ≡ (has o xs && not (ooid == o))
has_without o ooid p xs w n =
    let e : has o xs ≡ (has o w.front || (w.mon.ooid == o || has o w.back)) =
      ap (has o) w.parts ∙ has-append o w.front ((p, w.mon) ∷ w.back) in
    let f = has-append o w.front w.back in
    let g = has-append ooid w.front w.back in
    f
    ∙ drop_named o ooid (λ z. has z w.front) (λ z. has z w.back) (has o xs)
        (subst (λ z. has o xs ≡ (has o w.front || (z == o || has o w.back))) w.named e) (sym g ∙ n)

pub after_unregister :
    (send_rc : Bool) (ooid : ℕ) (s : Monitors) (xs : Entries) (r : Monitors × Bool × Reply)
    → Inv s xs
    → Removed send_rc ooid s xs r
    → (ys : Entries) × Inv r.0 ys × Without (λ o. ooid == o) xs ys
after_unregister send_rc ooid s xs (s', rc, reply) v (inl (n, e, x, y)) =
    (xs, subst (λ z. Inv z xs) (sym e) v, λ o. drop_absent o ooid (λ z. has z xs) n)
after_unregister send_rc ooid s xs (s', rc, reply) v (inr (p, w, v', n, x, y)) =
    (w.front ++ w.back, v', λ o. has_without o ooid p xs w n)

-- The ooid is one of the `n` in the packet from the `i`-th on.
abbrev pub is_listed : Memory → ℕ → ℕ → ℕ → Bool
is_listed buf zero i o = false
is_listed buf (suc n) i o =
    (not (net_long buf (4 * i) == 0) && net_long buf (4 * i) == o) || is_listed buf n (i + 1) o

unreg_one-Without :
    (send_rc : Bool) (ooid : ℕ) (s : Monitors) (xs : Entries)
    → Inv s xs
    → (ys : Entries) × Inv (unreg_one send_rc ooid s).0 ys
      × Without (λ o. not (ooid == 0) && ooid == o) xs ys
unreg_one-Without send_rc ooid s xs v = elim (Bool-cases (ooid == 0)) [
  | inl z ↦ rw z (xs, v, λ o. and_true (has o xs))
  | inr z ↦ rw z (
      after_unregister send_rc ooid s xs (unregister_monitoring send_rc ooid s) v
        (unregister_monitoring-Removed send_rc ooid s xs v))
]

unreg_all-Without :
    (send_rc : Bool) (buf : Memory) (n i : ℕ) (s : Monitors) (xs : Entries)
    → Inv s xs
    → (ys : Entries) × Inv (unreg_all send_rc buf n i s).0 ys × Without (is_listed buf n i) xs ys
unreg_all-Without send_rc buf zero i s xs v = (xs, v, λ o. and_true (has o xs))
unreg_all-Without send_rc buf (suc n) i s xs v =
    let (ys, v₁, w₁) = unreg_one-Without send_rc (net_long buf (4 * i)) s xs v in
    let (zs, v₂, w₂) =
      unreg_all-Without send_rc buf n (i + 1) (unreg_one send_rc (net_long buf (4 * i)) s).0 ys
        v₁ in
    (
      zs,
      v₂,
      λ o.
          w₂ o
          ∙ ap (λ b. b && not (is_listed buf n (i + 1) o)) (w₁ o)
          ∙ and_not_or (has o xs) (not (net_long buf (4 * i) == 0) && net_long buf (4 * i) == o)
              (is_listed buf n (i + 1) o),
    )

-- On a list without duplicates, osubjHandleDataGroupUnreg leaves a list without duplicates, with the links,
-- the count and osubj_cur_mon in order. If it returns OK, that list has monitors for the ooids that had
-- one and are not in the packet; if it returns ERROR, for all that had one.
pub handle_data_group_unreg-Without :
    (running send_rc : Bool) (len : ℕ) (buf : Memory) (s : Monitors) (xs : Entries)
    → Inv s xs
    → (ys : Entries) × Inv (handle_data_group_unreg running send_rc len buf s).0 ys
      × Without
          (λ o.
            (handle_data_group_unreg running send_rc len buf s).1
            && is_listed buf (net_long buf 0) 1 o)
          xs
          ys
unfolding handle_data_group_unreg
handle_data_group_unreg-Without running send_rc len buf s xs v =
    elim (Bool-cases (
      (not running || ltb len 8)
      || (ltb (net_long buf 0) 1 || not (len == (net_long buf 0 + 1) * 4)))) [
        | inl e ↦ rw e (xs, v, λ o. and_true (has o xs))
        | inr e ↦ rw e (unreg_all-Without send_rc buf (net_long buf 0) 1 s xs v)
      ]

both_false : (a b : Bool) → (a || b) ≡ false → (a ≡ false) × (b ≡ false)
both_false true b e = absurd (true_ne_false e)
both_false false b e = (refl, e)

not_at : (c q : ℕ) → (c == q) ≡ false → q ≢ c
not_at c q e = ground (arith, e)

relinked :
    (h : Heap) (p : ℕ) (nx : Option ℕ) (ys : Entries) (l : Option ℕ) (q : ℕ)
    → Seg h (some p) nx ys l none
    → is_in q ys ≡ false
    → set_prev h nx none q ≡ h q
relinked h p nx [] l q (e, r) n = ap (λ z. set_prev h z none q) e
relinked h p nx ((c, k) ∷ ys) l q t n =
    ap (λ z. set_prev h z none q) t.0
    ∙ change-ne h c q (with_prev none) (not_at c q (both_false (c == q) (is_in q ys) n).0)

-- What the removal of the first record does to the memory.
first_freed :
    (h : Heap) (p : ℕ) (nx : Option ℕ) (ys : Entries) (l : Option ℕ) (q : ℕ)
    → Seg h (some p) nx ys l none
    → (p == q || is_in q ys) ≡ false
    → change (set_next (set_prev h nx none) none nx) p freed q ≡ h q
first_freed h p nx ys l q s n =
    let (a, b) = both_false (p == q) (is_in q ys) n in
    change-ne (set_prev h nx none) p q freed (λ e. true_ne_false (sym (same e) ∙ a))
    ∙ relinked h p nx ys l q s b
  where
    same : q ≡ p → (p == q) ≡ true
    same e = ground (arith, e)

-- The calls go on from the state with the record taken out.
abbrev pub Freed : Monitors → Monitors → Entries → Type 0
Freed s s' xs = Links s' [] × ((q : ℕ) → s'.heap q ≡ (if is_in q xs then none else s.heap q))

at_heap : (h : Heap) (a : ℕ) (nd : Node) → h a ≡ some nd → record_at h (some a) ≡ some (a, nd)
at_heap h a nd i = rw (i, record_at) refl

free_all-step :
    (n : ℕ) (s : Monitors) (a : ℕ) (nd : Node)
    → s.first_mon ≡ some a
    → s.heap a ≡ some nd
    → free_all (suc n) s ≡ free_all n (deallocate_monitor a nd s)
free_all-step n s a nd e i = rw (ap (record_at s.heap) e ∙ at_heap s.heap a nd i, free_all) refl

no_record : (b : Bool) (o : Option Node) → o ≡ none → (if b then none else o) ≡ none
no_record true o e = refl
no_record false o e = e

freed_heap :
    (a q : ℕ) (xs : Entries) (o o' : Option Node)
    → ((a == q) ≡ true → o' ≡ none)
    → ((a == q || is_in q xs) ≡ false → o' ≡ o)
    → (if is_in q xs then none else o') ≡ (if a == q || is_in q xs then none else o)
freed_heap a q xs o o' f g = elim (Bool-cases (a == q)) [
  | inl e ↦ rw e (no_record (is_in q xs) o' (f e))
  | inr e ↦
      rw e
        (elim (Bool-cases (is_in q xs)) [ inl n ↦ rw n refl | inr n ↦ rw n (g (rw (e, n) refl)) ])
]

free_all-Freed : (xs : Entries) (s : Monitors) → Links s xs → Freed s (free_all (length xs) s) xs
free_all-Freed [] s w = (w, λ q. refl)
free_all-Freed ((a, m) ∷ xs) s w =
    let (e, nx, i, t) = w.seg in
    let nd : Node = record { mon = m; next = nx; prev = none } in
    let s₁ = deallocate_monitor a nd s in
    let (l, f) = free_all-Freed xs s₁ (taken s a nd [] m xs i w).1 in
    subst (λ z. Freed s z ((a, m) ∷ xs)) (sym (free_all-step (length xs) s a nd e i))
      (
        l,
        λ q.
            f q
            ∙ freed_heap a q xs (s.heap q) (s₁.heap q)
                (λ b.
                  subst (λ z. change (set_prev s.heap nx none) a freed z ≡ none) (eq_of a q b)
                    (change-eq (set_prev s.heap nx none) a freed))
                (λ b. first_freed s.heap a nx xs s.last_mon q t b),
      )

-- osubjClearMonitoring leaves no monitor, and frees the memory of the records, each of which it had, and no other
-- memory.
pub clear_monitoring-Freed :
    (s : Monitors) (xs : Entries)
    → Inv s xs
    → Inv (clear_monitoring s) []
      × ((q : ℕ) → (clear_monitoring s).heap q ≡ (if is_in q xs then none else s.heap q))
unfolding clear_monitoring
clear_monitoring-Freed s xs v = (
  record {
    links = record { seg = (refl, refl); distinct = tt; counted = refl };
    unique = tt;
    current = inl refl;
  },
  subst (λ n. (q : ℕ) → (free_all n s).heap q ≡ (if is_in q xs then none else s.heap q))
      (sym v.links.counted) (free_all-Freed xs s v.links).1,
)
