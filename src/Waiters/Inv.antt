-- ===== src/Waiters/Inv.antt =====
-- The counts of the waiters.
use okscada.Prelude.{
  ℕ, zero, suc, ◌+◌, ◌≡◌, refl, sym, ap, ◌∙◌, Bool, true, false, List, [], ◌∷◌, length,
  if◌then◌else◌, arith, Bool-cases, inl, inr,
}
use okscada.Prelude.Int.{ℤ, pos}
use okscada.Waiters.{
  Waiter, Subject, Domain, dec, is_spent, at_least_zero, is_null, freed, free_slots, free_subjects,
}

-- The slots that are taken.
unfoldable pub count : List Waiter → ℕ
count [] = 0
count (x ∷ xs) = if is_null x.pnwatch then count xs else suc (count xs)

unfoldable pub sum : List Subject → ℕ
sum [] = 0
sum (s ∷ ss) = count s.waiters + sum ss

-- No slot meets the test.
abbrev pub Lacks : (Waiter → Bool) → List Waiter → Type 0
Lacks p [] = Unit {0}
Lacks p (x ∷ xs) = (p x ≡ false) × Lacks p xs

abbrev pub AllLack : (Waiter → Bool) → List Subject → Type 0
AllLack p [] = Unit {0}
AllLack p (s ∷ ss) = Lacks p s.waiters × AllLack p ss

abbrev pub Counted : List Subject → Type 0
Counted [] = Unit {0}
Counted (s ∷ ss) = (s.waiters_qty ≡ pos (count s.waiters)) × (length s.waiters ≡ 8) × Counted ss

-- Each subject's count is that of its slots that are taken, it has its eight slots, and the total is the sum.
pub record Inv (d : Domain) : Type 0 where
  pub counted : Counted d.subjects
  pub summed : d.total ≡ pos (sum d.subjects)

-- A test that only slots that are taken meet.
abbrev pub IsTaken : (Waiter → Bool) → Type 0
IsTaken p = (x : Waiter) → is_null x.pnwatch ≡ true → p x ≡ false

pub count_null :
    (x : Waiter) (xs : List Waiter) → is_null x.pnwatch ≡ true → count (x ∷ xs) ≡ count xs
unfolding count
count_null x xs e = rw e refl

pub count_taken :
    (x : Waiter) (xs : List Waiter) → is_null x.pnwatch ≡ false → count (x ∷ xs) ≡ suc (count xs)
unfolding count
count_taken x xs e = rw e refl

pub count-Lacks : (p : Waiter → Bool) (xs : List Waiter) → IsTaken p → count xs ≡ 0 → Lacks p xs
count-Lacks p [] h e = tt
count-Lacks p (x ∷ xs) h e = elim (Bool-cases (is_null x.pnwatch)) [
  | inl f ↦ (h x f, count-Lacks p xs h (sym (count_null x xs f) ∙ e))
  | inr f ↦ absurd (omega (arith, count_taken x xs f, e))
]

dec_lem : (q : ℤ) (n : ℕ) → q ≡ pos (suc n) → dec q ≡ pos n
dec_lem q n e = rw e refl

pub spent_zero : (q : ℤ) (n : ℕ) → q ≡ pos n → is_spent q ≡ true → n ≡ 0
spent_zero q zero e s = refl
spent_zero q (suc n) e s = cc (ap is_spent e)

must_be : (p : Waiter → Bool) (x : Waiter) → IsTaken p → p x ≡ true → is_null x.pnwatch ≡ false
must_be p x h e = elim (Bool-cases (is_null x.pnwatch)) [ inl f ↦ cc (h x f) | inr f ↦ f ]

-- What the loop over the slots does, where `a` slots ahead of these are taken, and `r` of the other subjects.
abbrev SlotsFreed :
    (Waiter → Bool) → List Waiter → ℕ → ℕ → List Waiter × List Waiter × ℤ × ℤ → Type 0
SlotsFreed p xs a r (ys, out, q, t) =
    (q ≡ pos (a + count ys)) × (t ≡ pos (r + count ys)) × (length ys ≡ length xs) × Lacks p ys

-- One count less, and one less to come.
pub less_one :
    (q : ℤ) (a : ℕ) (x : Waiter) (xs : List Waiter)
    → is_null x.pnwatch ≡ false
    → q ≡ pos (a + count (x ∷ xs))
    → dec q ≡ pos (a + count xs)
less_one q a x xs f e = dec_lem q (a + count xs) (e ∙ ap pos (omega (arith, count_taken x xs f)))

pass_one :
    (q : ℤ) (a : ℕ) (x : Waiter) (xs : List Waiter)
    → is_null x.pnwatch ≡ false
    → q ≡ pos (a + count (x ∷ xs))
    → q ≡ pos (suc a + count xs)
pass_one q a x xs f e = e ∙ ap pos (omega (arith, count_taken x xs f))

back_one :
    (q : ℤ) (a : ℕ) (x : Waiter) (xs : List Waiter)
    → is_null x.pnwatch ≡ false
    → q ≡ pos (suc a + count xs)
    → q ≡ pos (a + count (x ∷ xs))
back_one q a x xs f e = e ∙ ap pos (omega (arith, count_taken x xs f))

pass_null :
    (q : ℤ) (a : ℕ) (x : Waiter) (xs : List Waiter)
    → is_null x.pnwatch ≡ true
    → q ≡ pos (a + count (x ∷ xs))
    → q ≡ pos (a + count xs)
pass_null q a x xs f e = e ∙ ap (λ n. pos (a + n)) (count_null x xs f)

free_slots-SlotsFreed :
    (p : Waiter → Bool) (xs : List Waiter) (a r : ℕ) (q t : ℤ)
    → IsTaken p
    → q ≡ pos (a + count xs)
    → t ≡ pos (r + count xs)
    → SlotsFreed p xs a r (free_slots p xs q t)
unfolding free_slots
free_slots-SlotsFreed p [] a r q t h eq et = (eq, et, refl, tt)
free_slots-SlotsFreed p (x ∷ xs) a r q t h eq et = elim (Bool-cases (p x)) [
  | inl e ↦
      let taken : is_null x.pnwatch ≡ false = must_be p x h e in
      let dq = less_one q a x xs taken eq in
      let dt = less_one t r x xs taken et in
      let gone = h (freed x) refl in
      let none_left = count_null (freed x) in
      elim (Bool-cases (is_spent (dec q))) [
        | inl z ↦
            let nothing : count xs ≡ 0 = omega (arith, spent_zero (dec q) (a + count xs) dq z) in
            rw (e, z)
              (
                dq ∙ ap (λ n. pos (a + n)) (sym (none_left xs refl)),
                dt ∙ ap (λ n. pos (r + n)) (sym (none_left xs refl)),
                refl,
                (gone, count-Lacks p xs h nothing),
              )
        | inr z ↦
            let (i, j, k, l) = free_slots-SlotsFreed p xs a r (dec q) (dec t) h dq dt in
            let ys = (free_slots p xs (dec q) (dec t)).0 in
            rw (e, z)
              (
                i ∙ ap (λ n. pos (a + n)) (sym (none_left ys refl)),
                j ∙ ap (λ n. pos (r + n)) (sym (none_left ys refl)),
                ap suc k,
                (gone, l),
              )
      ]
  | inr e ↦ elim (Bool-cases (is_null x.pnwatch)) [
    | inl f ↦
        let (i, j, k, l) =
          free_slots-SlotsFreed p xs a r q t h (pass_null q a x xs f eq)
            (pass_null t r x xs f et) in
        let ys = (free_slots p xs q t).0 in
        rw e (
          i ∙ ap (λ n. pos (a + n)) (sym (count_null x ys f)),
          j ∙ ap (λ n. pos (r + n)) (sym (count_null x ys f)),
          ap suc k,
          (e, l),
        )
    | inr f ↦
        let (i, j, k, l) =
          free_slots-SlotsFreed p xs (suc a) (suc r) q t h (pass_one q a x xs f eq)
            (pass_one t r x xs f et) in
        let ys = (free_slots p xs q t).0 in
        rw e (back_one _ a x ys f i, back_one _ r x ys f j, ap suc k, (e, l))
  ]
]

pub sum-AllLack : (p : Waiter → Bool) (ss : List Subject) → IsTaken p → sum ss ≡ 0 → AllLack p ss
unfolding sum
sum-AllLack p [] h e = tt
sum-AllLack p (s ∷ ss) h e =
    (count-Lacks p s.waiters h (omega (arith, e)), sum-AllLack p ss h (omega (arith, e)))

-- What the loop over the subjects does, where the subjects ahead of these have `a` waiters.
abbrev pub SubjectsFreed : (Waiter → Bool) → ℕ → List Subject × List Waiter × ℤ → Type 0
SubjectsFreed p a (ss, out, t) = Counted ss × (t ≡ pos (a + sum ss)) × AllLack p ss

pub free_subjects-SubjectsFreed :
    (p : Waiter → Bool) (ss : List Subject) (a : ℕ) (t : ℤ)
    → IsTaken p
    → Counted ss
    → t ≡ pos (a + sum ss)
    → SubjectsFreed p a (free_subjects p ss t)
unfolding free_subjects sum
free_subjects-SubjectsFreed p [] a t h c et = (tt, et, tt)
free_subjects-SubjectsFreed p (s ∷ ss) a t h (eq, eight, c) et =
    let q = at_least_zero s.waiters_qty in
    let q_count : q ≡ pos (count s.waiters) = ap at_least_zero eq in
    elim (Bool-cases (is_spent q)) [
      | inl z ↦
          let nothing : count s.waiters ≡ 0 = spent_zero q (count s.waiters) q_count z in
          let (i, j, k) =
            free_subjects-SubjectsFreed p ss a t h c (et ∙ ap pos (omega (arith, nothing))) in
          rw z (
            (q_count, eight, i),
            j ∙ ap pos (omega (arith, nothing)),
            (count-Lacks p s.waiters h nothing, k),
          )
      | inr z ↦
          let (i, j, k, l) =
            free_slots-SlotsFreed p s.waiters 0 (a + sum ss) q t h (q_count ∙ ap pos (omega arith))
              (et ∙ ap pos (omega arith)) in
          let ys = (free_slots p s.waiters q t).0 in
          let t' = (free_slots p s.waiters q t).3 in
          let q_left : (free_slots p s.waiters q t).2 ≡ pos (count ys) = i ∙ ap pos (omega arith) in
          elim (Bool-cases (is_spent t')) [
            | inl f ↦
                let nothing = spent_zero t' (a + sum ss + count ys) j f in
                rw (z, f)
                  (
                    (q_left, k ∙ eight, c),
                    j ∙ ap pos (omega arith),
                    (l, sum-AllLack p ss h (omega (arith, nothing))),
                  )
            | inr f ↦
                let (i', j', k') =
                  free_subjects-SubjectsFreed p ss (a + count ys) t' h c
                    (j ∙ ap pos (omega arith)) in
                rw (z, f) ((q_left, k ∙ eight, i'), j' ∙ ap pos (omega arith), (l, k'))
          ]
    ]
