-- ===== src/Waiters.antt =====
-- hub/hub-subject.c: the watchers that wait for a subject to be switched on.
-- A connection is a number. A time is that of `osMsClock` in milliseconds, and does not wrap.
pub mod Inv
pub mod Served
pub mod Stale
use okscada.Prelude.{
  ℕ, zero, suc, ◌+◌, ◌-◌, Bool, true, false, not, ◌&&◌, ◌||◌, List, [], ◌∷◌, ◌++◌, map, Option,
  none, some, length, ltb, leb, ◌==◌, if◌then◌else◌, replicate,
}
use okscada.Prelude.Int.{ℤ, pos, negsuc}
use okscada.Prelude.CString.{c_str, bytes_eq}

-- `OhubSubjectWaiter_t`.
pub record Waiter : Type 0 where
  pub pnwatch : Option ℕ
  pub op : ℕ
  pub watchdog : ℕ

-- The part of `OhubSubject_t` that is read or written: `is_on` tells whether its state is
-- other than the empty string, and `agent` is the subject's agent.
pub record Subject : Type 0 where
  pub subject_name : List ℕ
  pub is_on : Bool
  pub agent : Option ℕ
  pub waiters : List Waiter
  pub waiters_qty : ℤ

-- The subjects of the domain, and `ohub_subject_waiters_qty`.
pub record Domain : Type 0 where
  pub subjects : List Subject
  pub total : ℤ

-- A trigger reply: the connection, the operation and the error code.
pub record Reply : Type 0 where
  pub to : Option ℕ
  pub op : ℕ
  pub err : ℕ

abbrev pub max_name : ℕ
max_name = 40

abbrev pub max_waiters : ℕ
max_waiters = 8

abbrev pub inc : ℤ → ℤ
inc (pos n) = pos (suc n)
inc (negsuc zero) = pos 0
inc (negsuc (suc n)) = negsuc n

abbrev pub dec : ℤ → ℤ
dec (pos zero) = negsuc 0
dec (pos (suc n)) = pos n
dec (negsuc n) = negsuc (suc n)

-- `n <= 0`.
abbrev pub is_spent : ℤ → Bool
is_spent (pos zero) = true
is_spent (pos (suc n)) = false
is_spent (negsuc n) = true

-- `if (waiters_qty < 0) waiters_qty = 0`.
abbrev pub at_least_zero : ℤ → ℤ
at_least_zero (pos n) = pos n
at_least_zero (negsuc n) = pos 0

abbrev pub is_null : Option ℕ → Bool
is_null none = true
is_null (some p) = false

abbrev pub same_ptr : Option ℕ → ℕ → Bool
same_ptr none p = false
same_ptr (some q) p = q == p

-- The first free slot takes the waiter; `none` where there is none.
pub take_slot : Waiter → List Waiter → Option (List Waiter)
take_slot w [] = none
take_slot w (x ∷ xs) =
    let rest = take_slot w xs in
    if is_null x.pnwatch then some (w ∷ xs) else elim rest [ none ↦ none | some ys ↦ some (x ∷ ys) ]

abbrev pub freed : Waiter → Waiter
freed x = record x { pnwatch = none; watchdog = 0 }

-- The loop over the slots of a subject, in `ohubClearSubjectWaiters` and `ohubHandleTriggerTimeouts`: those that
-- meet the test are freed, and counted off; it ends where the subject has no waiter left. Also what was freed.
pub free_slots : (Waiter → Bool) → List Waiter → ℤ → ℤ → List Waiter × List Waiter × ℤ × ℤ
free_slots p [] q t = ([], [], q, t)
free_slots p (x ∷ xs) q t =
    let q' = dec q in
    let t' = dec t in
    let (ys, out, q₁, t₁) = free_slots p xs q' t' in
    let (zs, out', q₂, t₂) = free_slots p xs q t in
    if p x
    then (if is_spent q' then (freed x ∷ xs, x ∷ [], q', t') else (freed x ∷ ys, x ∷ out, q₁, t₁))
    else (x ∷ zs, out', q₂, t₂)

-- The loop over the subjects; it ends where no subject has a waiter left.
pub free_subjects : (Waiter → Bool) → List Subject → ℤ → List Subject × List Waiter × ℤ
free_subjects p [] t = ([], [], t)
free_subjects p (s ∷ ss) t =
    let q = at_least_zero s.waiters_qty in
    let (ws, out, q', t') = free_slots p s.waiters q t in
    let s' = record s { waiters = ws; waiters_qty = q' } in
    let (ss₁, out₁, t₁) = free_subjects p ss t' in
    let (ss₂, out₂, t₂) = free_subjects p ss t in
    if is_spent q
    then (record s { waiters_qty = q } ∷ ss₂, out₂, t₂)
    else if is_spent t'
    then (s' ∷ ss, out, t')
    else (s' ∷ ss₁, out ++ out₁, t₁)

abbrev pub no_waiter : Waiter
no_waiter = record { pnwatch = none; op = 0; watchdog = 0 }

abbrev pub emptied : Subject → Subject
emptied s = record s { waiters = replicate max_waiters no_waiter; waiters_qty = pos 0 }

-- `ohubClearSubjectWaiters`; a null connection clears all.
pub clear_subject_waiters : Option ℕ → Domain → Domain
clear_subject_waiters (some w) d =
    let (ss, out, t) = free_subjects (λ x. same_ptr x.pnwatch w) d.subjects d.total in
    record { subjects = ss; total = t }
clear_subject_waiters none d = record { subjects = map emptied d.subjects; total = pos 0 }

-- `now - wdog >= 0`, for a slot that is taken.
abbrev pub is_late : ℕ → Waiter → Bool
is_late now x = not (is_null x.pnwatch) && leb x.watchdog now

abbrev pub timed_out : Waiter → Reply
timed_out x = record { to = x.pnwatch; op = x.op; err = 2 }

-- `ohubHandleTriggerTimeouts` at the time `now`.
pub handle_trigger_timeouts : ℕ → Domain → Domain × List Reply
handle_trigger_timeouts now d =
    let (ss, out, t) = free_subjects (is_late now) d.subjects d.total in
    if is_spent d.total then (d, []) else (record { subjects = ss; total = t }, map timed_out out)

-- The first subject of that name, with those ahead of it and behind it.
pub split_name : List ℕ → List Subject → Option (List Subject × Subject × List Subject)
split_name name [] = none
split_name name (s ∷ ss) =
    let rest = split_name name ss in
    if bytes_eq s.subject_name name
    then some ([], s, ss)
    else elim rest [ none ↦ none | some (a, x, b) ↦ some (s ∷ a, x, b) ]

abbrev pub is_full : ℤ → Bool
is_full (pos n) = leb max_waiters n
is_full (negsuc n) = false

-- `trigger` is the result of `ohubSubjTrigger` for the agent, which is `none` where the subject has no agent or the
-- agent no connection.
module _ (trigger : ℕ → Bool) where
  abbrev pub add_waiter :
      Waiter
      → Domain
      → List Subject
      → Subject
      → List Subject
      → Option (List Waiter)
      → Domain × Option ℕ
  add_waiter w d a s b none = (d, some 3)
  add_waiter w d a s b (some ws) =
      let s' = record s { waiters = ws; waiters_qty = inc s.waiters_qty } in
      (record { subjects = a ++ s' ∷ b; total = inc d.total }, none)

  abbrev pub trigger_found :
      Waiter → Domain → Option (List Subject × Subject × List Subject) → Domain × Option ℕ
  trigger_found w d none = (d, some 1)
  trigger_found w d (some (a, s, b)) =
      if s.is_on
      then (d, some 0)
      else if not (elim s.agent [ none ↦ false | some g ↦ trigger g ])
      then (d, some 3)
      else if is_full s.waiters_qty
      then (d, some 3)
      else add_waiter w d a s b (take_slot w s.waiters)

  -- `ohubHandleTriggerSubject` at the time `now`, for the operation and the bytes of the name behind it. `some e` is
  -- a reply with the code `e` and the result ERROR, and `none` no reply: OK, or ERROR for a wrong length.
  pub handle_trigger_subject : ℕ → ℕ → ℕ → List ℕ → Domain → Domain × Option ℕ
  handle_trigger_subject now pnwatch op name d =
      let len = length name + 4 in
      if ltb len 5 || ltb max_name len
      then (d, none)
      else trigger_found (record { pnwatch = some pnwatch; op = op; watchdog = now + 240 }) d
          (split_name (c_str name) d.subjects)

-- The loop over the slots of a subject whose agent comes on, in `ohubSetAgentState`: the waiters are answered and
-- counted off, and the slots stay as they are.
pub answer_slots : List Waiter → ℤ → ℤ → List Reply × ℤ × ℤ
answer_slots [] q t = ([], q, t)
answer_slots (x ∷ xs) q t =
    let (out, q₁, t₁) = answer_slots xs (dec q) (dec t) in
    let skip = answer_slots xs q t in
    if is_null x.pnwatch
    then skip
    else (record { to = x.pnwatch; op = x.op; err = 0 } ∷ out, q₁, t₁)

pub answer_subjects : ℕ → List Subject → ℤ → List Subject × List Reply × ℤ
answer_subjects g [] t = ([], [], t)
answer_subjects g (s ∷ ss) t =
    let q = at_least_zero s.waiters_qty in
    let (out, q', t') = answer_slots s.waiters q t in
    let (ss₁, out₁, t₁) = answer_subjects g ss t' in
    let (ss₂, out₂, t₂) = answer_subjects g ss t in
    if not (same_ptr s.agent g)
    then (s ∷ ss₂, out₂, t₂)
    else if is_spent q
    then (record s { waiters_qty = q } ∷ ss₂, out₂, t₂)
    else (record s { waiters_qty = q' } ∷ ss₁, out ++ out₁, t₁)

-- The last part of `ohubSetAgentState`, where the agent comes on.
pub answer_waiters : ℕ → Domain → Domain × List Reply
answer_waiters g d =
    let (ss, out, t) = answer_subjects g d.subjects d.total in
    if is_spent d.total then (d, []) else (record { subjects = ss; total = t }, out)
