-- ===== src/Waiters/Stale.antt =====
-- The waiters of an agent that comes on.
use okscada.Prelude.{
  ℕ, ◌+◌, ◌≡◌, refl, sym, ap, ◌∙◌, true, List, [], ◌∷◌, ◌++◌, map, if◌then◌else◌, arith, Bool-cases,
  inl, inr,
}
use okscada.Prelude.Int.{ℤ, pos}
use okscada.Waiters.{
  Waiter, Subject, Domain, Reply, dec, is_spent, is_null, same_ptr, at_least_zero, answer_slots,
  answer_subjects, answer_waiters,
}
use okscada.Waiters.Inv.{count, sum, Counted, Inv, spent_zero, count_null, count_taken, less_one}

-- A reply with the code 0 for each slot that is taken, in the order of the slots.
unfoldable pub replies : List Waiter → List Reply
replies [] = []
replies (x ∷ xs) =
    let rest = replies xs in
    if is_null x.pnwatch then rest else record { to = x.pnwatch; op = x.op; err = 0 } ∷ rest

-- The replies for the subjects of an agent.
unfoldable pub owed : ℕ → List Subject → List Reply
owed g [] = []
owed g (s ∷ ss) =
    let rest = owed g ss in if same_ptr s.agent g then replies s.waiters ++ rest else rest

-- How many slots are taken at the subjects of other agents.
unfoldable pub others : ℕ → List Subject → ℕ
others g [] = 0
others g (s ∷ ss) =
    let rest = others g ss in if same_ptr s.agent g then rest else count s.waiters + rest

-- The subject with its count, and no more, set to 0, where it is one of the agent.
unfoldable pub settled : ℕ → Subject → Subject
settled g s = if same_ptr s.agent g then record s { waiters_qty = pos 0 } else s

none_taken : (x : Waiter) (xs : List Waiter) → count (x ∷ xs) ≡ 0 → is_null x.pnwatch ≡ true
none_taken x xs e = elim (Bool-cases (is_null x.pnwatch)) [
  | inl f ↦ f
  | inr f ↦ absurd (omega (arith, count_taken x xs f, e))
]

replies_none : (xs : List Waiter) → count xs ≡ 0 → replies xs ≡ []
unfolding replies
replies_none [] e = refl
replies_none (x ∷ xs) e =
    let f = none_taken x xs e in rw f (replies_none xs (sym (count_null x xs f) ∙ e))

answer_slots-replies :
    (xs : List Waiter) (a r : ℕ) (q t : ℤ)
    → q ≡ pos (a + count xs)
    → t ≡ pos (r + count xs)
    → answer_slots xs q t ≡ (replies xs, pos a, pos r)
unfolding answer_slots replies count
answer_slots-replies [] a r q t eq et =
    rw (eq ∙ ap pos {y = a} (omega arith), et ∙ ap pos {y = r} (omega arith)) refl
answer_slots-replies (x ∷ xs) a r q t eq et = elim (Bool-cases (is_null x.pnwatch)) [
  | inl f ↦
      let n = count_null x xs f in
      rw f (
        answer_slots-replies xs a r q t (eq ∙ ap (λ n. pos (a + n)) n)
          (et ∙ ap (λ n. pos (r + n)) n))
  | inr f ↦
      let rest =
        answer_slots-replies xs a r (dec q) (dec t) (less_one q a x xs f eq)
          (less_one t r x xs f et) in
      rw (f, rest) refl
]

-- A subject with no waiter is not changed.
settled_none : (g : ℕ) (s : Subject) → s.waiters_qty ≡ pos 0 → settled g s ≡ s
unfolding settled
settled_none g s e = elim (Bool-cases (same_ptr s.agent g)) [
  | inl f ↦ rw f (ap (λ q. record s { waiters_qty = q }) (sym e))
  | inr f ↦ rw f refl
]

nothing_owed :
    (g : ℕ) (ss : List Subject)
    → Counted ss
    → sum ss ≡ 0
    → (map (settled g) ss ≡ ss) × (owed g ss ≡ []) × (others g ss ≡ 0)
unfolding sum owed others
nothing_owed g [] c e = (refl, refl, refl)
nothing_owed g (s ∷ ss) (q, l, c) e =
    let zero_here : count s.waiters ≡ 0 = omega (arith, e) in
    let (i, j, k) = nothing_owed g ss c (omega (arith, e)) in
    let same = settled_none g s (q ∙ ap pos zero_here) in
    elim (Bool-cases (same_ptr s.agent g)) [
      | inl f ↦ rw (f, same, i, replies_none s.waiters zero_here, j) (refl, refl, k)
      | inr f ↦ rw (f, same, i, j, k) (refl, refl, omega (arith, zero_here))
    ]

answer_subjects-settled :
    (g : ℕ) (ss : List Subject) (a : ℕ) (t : ℤ)
    → Counted ss
    → t ≡ pos (a + sum ss)
    → answer_subjects g ss t ≡ (map (settled g) ss, owed g ss, pos (a + others g ss))
unfolding answer_subjects sum owed others settled
answer_subjects-settled g [] a t c e = rw e refl
answer_subjects-settled g (s ∷ ss) a t (q, l, c) e =
    let z : at_least_zero s.waiters_qty ≡ pos (count s.waiters) = ap at_least_zero q in
    elim (Bool-cases (same_ptr s.agent g)) [
      | inl f ↦ elim (Bool-cases (is_spent (at_least_zero s.waiters_qty))) [
        | inl h ↦
            let nothing = spent_zero _ (count s.waiters) z h in
            let rest = answer_subjects-settled g ss a t c (e ∙ ap pos (omega (arith, nothing))) in
            rw (f, h, rest, replies_none s.waiters nothing, z, nothing) refl
        | inr h ↦
            let slots =
              answer_slots-replies s.waiters 0 (a + sum ss) _ t (z ∙ ap pos (omega arith))
                (e ∙ ap pos (omega arith)) in
            let rest = answer_subjects-settled g ss a (pos (a + sum ss)) c refl in
            rw (f, h, slots, rest) refl
      ]
      | inr f ↦
          let rest =
            answer_subjects-settled g ss (a + count s.waiters) t c (e ∙ ap pos (omega arith)) in
          rw (f, rest)
            (let f : ℕ → List Subject × List Reply × ℤ =
                λ n. (s ∷ map (settled g) ss, owed g ss, pos n) in
              ap f (omega arith))
    ]

-- From right counts, the agent's coming on sends one reply with the code 0 for each slot that is taken at a subject of
-- the agent, sets the counts of these subjects to 0 and leaves the total of the other subjects; no slot changes, so that
-- those of the agent's subjects stay taken while their count is 0.
pub answer_waiters-settled :
    (g : ℕ) (d : Domain)
    → Inv d
    → answer_waiters g d ≡ (
      record { subjects = map (settled g) d.subjects; total = pos (others g d.subjects) },
      owed g d.subjects,
    )
unfolding answer_waiters
answer_waiters-settled g d i = elim (Bool-cases (is_spent d.total)) [
  | inl z ↦
      let nothing = spent_zero d.total (sum d.subjects) i.summed z in
      let (h, j, k) = nothing_owed g d.subjects i.counted nothing in
      let f : ℤ → Domain × List Reply = λ x. (record { subjects = d.subjects; total = x }, []) in
      rw (z, h, j, k) (ap f (i.summed ∙ ap pos nothing))
  | inr z ↦
      let rest =
        answer_subjects-settled g d.subjects 0 d.total i.counted
          (i.summed ∙ ap pos (omega arith)) in
      let plain : 0 + others g d.subjects ≡ others g d.subjects = omega arith in
      rw (z, rest, plain) refl
]
