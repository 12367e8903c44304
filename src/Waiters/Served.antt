-- ===== src/Waiters/Served.antt =====
-- The operations on the waiters: what they keep, and whom they let go.
use okscada.Prelude.{
  ℕ, zero, suc, ◌+◌, ◌≡◌, refl, sym, ap, subst, ◌∙◌, Bool, true, false, List, [], ◌∷◌, ◌++◌, map,
  Option, none, some, length, replicate, arith, Bool-cases, inl, inr,
}
use okscada.Prelude.Int.{pos}
use okscada.Prelude.CString.{bytes_eq, c_str}
use okscada.Waiters.{
  Waiter, Subject, Domain, inc, is_spent, is_null, same_ptr, take_slot, emptied,
  clear_subject_waiters, is_late, handle_trigger_timeouts, split_name, add_waiter, trigger_found,
  handle_trigger_subject, no_waiter,
}
use okscada.Waiters.Inv.{
  count, sum, AllLack, Counted, Inv, IsTaken, sum-AllLack, spent_zero, free_subjects-SubjectsFreed,
  count_null, count_taken,
}

is_late-IsTaken : (now : ℕ) → IsTaken (is_late now)
is_late-IsTaken now x e = rw e refl

same_ptr-IsTaken : (w : ℕ) → IsTaken (λ x. same_ptr x.pnwatch w)
same_ptr-IsTaken w x e = null_differs x.pnwatch w e
  where
    null_differs : (o : Option ℕ) (w : ℕ) → is_null o ≡ true → same_ptr o w ≡ false
    null_differs none w e = refl
    null_differs (some q) w e = cc

-- After the connection `w` is cleared, the counts are right and no slot of any subject holds it.
pub clear_subject_waiters-AllLack :
    (w : ℕ) (d : Domain)
    → Inv d
    → let d' = clear_subject_waiters (some w) d in
      Inv d' × AllLack (λ x. same_ptr x.pnwatch w) d'.subjects
unfolding clear_subject_waiters
clear_subject_waiters-AllLack w d i =
    let (c, t, l) =
      free_subjects-SubjectsFreed (λ x. same_ptr x.pnwatch w) d.subjects 0 d.total
        (same_ptr-IsTaken w) i.counted (i.summed ∙ ap pos (omega arith)) in
    (record { counted = c; summed = t ∙ ap pos (omega arith) }, l)

-- After the timeouts are handled at the time `now`, the counts are right and no waiter is left whose time was up.
pub handle_trigger_timeouts-AllLack :
    (now : ℕ) (d : Domain)
    → Inv d
    → let d' = (handle_trigger_timeouts now d).0 in Inv d' × AllLack (is_late now) d'.subjects
unfolding handle_trigger_timeouts
handle_trigger_timeouts-AllLack now d i = elim (Bool-cases (is_spent d.total)) [
  | inl z ↦ rw z (
    i,
    sum-AllLack (is_late now) d.subjects (is_late-IsTaken now)
        (spent_zero d.total (sum d.subjects) i.summed z),
  )
  | inr z ↦
      let (c, t, l) =
        free_subjects-SubjectsFreed (is_late now) d.subjects 0 d.total (is_late-IsTaken now)
          i.counted (i.summed ∙ ap pos (omega arith)) in
      rw z (record { counted = c; summed = t ∙ ap pos (omega arith) }, l)
]

count_empty : (n : ℕ) → count (replicate n no_waiter) ≡ 0
unfolding count
count_empty zero = refl
count_empty (suc n) = count_empty n

emptied-Counted : (ss : List Subject) → Counted (map emptied ss) × (sum (map emptied ss) ≡ 0)
unfolding sum
emptied-Counted [] = (tt, refl)
emptied-Counted (s ∷ ss) =
    let (c, e) = emptied-Counted ss in
    ((ap pos (sym (count_empty 8)), refl, c), omega (arith, count_empty 8, e))

clear_all-Inv : (d : Domain) → Inv (clear_subject_waiters none d)
unfolding clear_subject_waiters
clear_all-Inv d =
    let (c, e) = emptied-Counted d.subjects in record { counted = c; summed = ap pos (sym e) }

abbrev Grown : List Waiter → Option (List Waiter) → Type 0
Grown xs none = Unit {0}
Grown xs (some ys) = (count ys ≡ suc (count xs)) × (length ys ≡ length xs)

Grown-behind :
    (x : Waiter) (xs : List Waiter) (o : Option (List Waiter))
    → is_null x.pnwatch ≡ false
    → Grown xs o
    → Grown (x ∷ xs) (elim o [ none ↦ none | some ys ↦ some (x ∷ ys) ])
Grown-behind x xs none f g = tt
Grown-behind x xs (some ys) f (c, l) =
    (count_taken x ys f ∙ ap suc (c ∙ sym (count_taken x xs f)), ap suc l)

take_slot-Grown :
    (w : Waiter) (xs : List Waiter) → is_null w.pnwatch ≡ false → Grown xs (take_slot w xs)
unfolding take_slot
take_slot-Grown w [] h = tt
take_slot-Grown w (x ∷ xs) h = elim (Bool-cases (is_null x.pnwatch)) [
  | inl f ↦ rw f (count_taken w xs h ∙ ap suc (sym (count_null x xs f)), refl)
  | inr f ↦ rw f (Grown-behind x xs (take_slot w xs) f (take_slot-Grown w xs h))
]

abbrev Parts : List Subject → Option (List Subject × Subject × List Subject) → Type 0
Parts ss none = Unit {0}
Parts ss (some (a, s, b)) = ss ≡ a ++ s ∷ b

Parts-behind :
    (x : Subject) (ss : List Subject) (o : Option (List Subject × Subject × List Subject))
    → Parts ss o
    → Parts (x ∷ ss) (elim o [ none ↦ none | some (a, s, b) ↦ some (x ∷ a, s, b) ])
Parts-behind x ss none e = tt
Parts-behind x ss (some (a, s, b)) e = ap (λ l. x ∷ l) e

split_name-Parts : (name : List ℕ) (ss : List Subject) → Parts ss (split_name name ss)
unfolding split_name
split_name-Parts name [] = tt
split_name-Parts name (x ∷ ss) = elim (Bool-cases (bytes_eq x.subject_name name)) [
  | inl f ↦ rw f refl
  | inr f ↦ rw f (Parts-behind x ss (split_name name ss) (split_name-Parts name ss))
]

-- One subject of the domain gets one waiter more.
one_more :
    (a b : List Subject) (s s' : Subject)
    → Counted (a ++ s ∷ b)
    → s'.waiters_qty ≡ inc s.waiters_qty
    → count s'.waiters ≡ suc (count s.waiters)
    → length s'.waiters ≡ length s.waiters
    → Counted (a ++ s' ∷ b) × (sum (a ++ s' ∷ b) ≡ suc (sum (a ++ s ∷ b)))
unfolding sum
one_more [] b s s' (q, l, c) e f g = ((e ∙ ap inc q ∙ ap pos (sym f), g ∙ l, c), omega (arith, f))
one_more (x ∷ a) b s s' (q, l, c) e f g =
    let (c', n) = one_more a b s s' c e f g in ((q, l, c'), omega (arith, n))

module _ (trigger : ℕ → Bool) where
  add_waiter-Inv :
      (w : Waiter) (d : Domain) (a b : List Subject) (s : Subject) (o : Option (List Waiter))
      → d.subjects ≡ a ++ s ∷ b
      → Grown s.waiters o
      → Inv d
      → Inv (add_waiter trigger w d a s b o).0
  add_waiter-Inv w d a b s none e g i = i
  add_waiter-Inv w d a b s (some ws) e (c, l) i =
      let s' = record s { waiters = ws; waiters_qty = inc s.waiters_qty } in
      let (k, n) = one_more a b s s' (subst Counted e i.counted) refl c l in
      record { counted = k; summed = ap inc i.summed ∙ ap pos (ap (λ x. suc (sum x)) e ∙ sym n) }

  trigger_found-Inv :
      (w : Waiter) (d : Domain) (o : Option (List Subject × Subject × List Subject))
      → is_null w.pnwatch ≡ false
      → Parts d.subjects o
      → Inv d
      → Inv (trigger_found trigger w d o).0
  trigger_found-Inv w d none h e i = i
  trigger_found-Inv w d (some (a, s, b)) h e i =
      ground (
        arith,
        add_waiter-Inv w d a b s (take_slot w s.waiters) e (take_slot-Grown w s.waiters h) i,
      )

  handle_trigger_subject-Inv :
      (now pnwatch op : ℕ) (name : List ℕ) (d : Domain)
      → Inv d
      → Inv (handle_trigger_subject trigger now pnwatch op name d).0
  unfolding handle_trigger_subject
  handle_trigger_subject-Inv now pnwatch op name d i = ground (
    arith,
    trigger_found-Inv (record { pnwatch = some pnwatch; op = op; watchdog = now + 240 }) d
        (split_name (c_str name) d.subjects) refl (split_name-Parts (c_str name) d.subjects) i,
  )

  -- What happens to the waiters while no agent comes on.
  pub data Step (d : Domain) (e : Domain) : Type 0 where
    triggered :
        (now pnwatch op : ℕ) (name : List ℕ)
        → e ≡ (handle_trigger_subject trigger now pnwatch op name d).0
        → Step d e
    cleared : (w : Option ℕ) → e ≡ clear_subject_waiters w d → Step d e
    waited : (now : ℕ) → e ≡ (handle_trigger_timeouts now d).0 → Step d e

  pub data Reach (d : Domain) : Domain → Type 0 where
    here : Reach d d
    next : {e f : Domain} → Reach d e → Step e f → Reach d f

  Step-Inv : (d e : Domain) → Step d e → Inv d → Inv e
  Step-Inv d e (triggered now pnwatch op name p) i =
      subst Inv (sym p) (handle_trigger_subject-Inv now pnwatch op name d i)
  Step-Inv d e (cleared none p) i = subst Inv (sym p) (clear_all-Inv d)
  Step-Inv d e (cleared (some w) p) i = subst Inv (sym p) (clear_subject_waiters-AllLack w d i).0
  Step-Inv d e (waited now p) i = subst Inv (sym p) (handle_trigger_timeouts-AllLack now d i).0

  -- From right counts, triggers, clearings and timeouts in any order keep them right: each subject's count is that of
  -- its slots that are taken, and the total is their sum.
  pub Reach-Inv : {d e : Domain} → Reach d e → Inv d → Inv e
  Reach-Inv here i = i
  Reach-Inv (next {e} {f} r s) i = Step-Inv e f s (Reach-Inv r i)
