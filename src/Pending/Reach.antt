-- ===== src/Pending/Reach.antt =====
-- Any order of the calls on the records of reads and writes.
use okscada.Prelude.{
  ℕ, zero, suc, ◌+◌, ◌-◌, ◌==◌, if◌then◌else◌, ◌≡◌, refl, sym, Bool, true, not, ◌&&◌, ◌||◌, Option,
  none, some, length, set, get_elem?, arith, Bool-cases, Option-cases, inl, inr, subst,
}
use okscada.Prelude.Int.{ℤ}
use okscada.Pending.{
  DataRecord, Pending, no_data, allocate_data, filled, fill_slot, complete_reply, has_watch,
  is_agent, cancel_agent_record, cancel_agent_from, cancel_agent_data, send_secure_write,
  secure_more_writes, cancel_watch_data, write_answered, reset_writes,
}
use okscada.Pending.Inv.{Inv, is_placed, put-Inv, deallocate_data-Inv, allocate_data-Inv}
use okscada.Pending.Secured.{
  first_true, recount, send_or_postpone-Inv, secure_more_writes-Inv, cancel_watch_data-Inv,
}

filled_placed :
    (i : ℕ) (is_write : Bool) (ooid op : ℕ) (agent watch : Option ℕ) (r : DataRecord)
    → is_placed i r ≡ true
    → is_placed i (filled is_write ooid op agent watch r) ≡ true
filled_placed i is_write ooid op agent watch r p = p

fill_slot-Inv :
    (i : ℕ) (is_write : Bool) (ooid op : ℕ) (agent watch : Option ℕ) (t : Pending)
    → Inv t
    → Inv (fill_slot (filled is_write ooid op agent watch) i t (get_elem? t.chain i))
fill_slot-Inv i is_write ooid op agent watch t v = elim (Option-cases (get_elem? t.chain i)) [
  | inl e ↦ rw e v
  | inr (r, e) ↦ rw e (
      let r' = filled is_write ooid op agent watch r in
      put-Inv t (record t { chain = set t.chain i r' }) i r r' v e
        (filled_placed i is_write ooid op agent watch r (v.placed i r e)) refl refl refl)
]

-- The record in a slot, if there is one, is busy.
abbrev pub IsBusyAt : Option DataRecord → Type 0
IsBusyAt none = Unit {0}
IsBusyAt (some r) = r.is_busy ≡ true

complete_reply-Inv :
    (i : ℕ) (t : Pending) → Inv t → IsBusyAt (get_elem? t.chain i) → Inv (complete_reply i t)
unfolding complete_reply
complete_reply-Inv i t v u = elim (Option-cases (get_elem? t.chain i)) [
  | inl e ↦ rw e v
  | inr (r, e) ↦ rw e (elim (Bool-cases (has_watch r.watch)) [
    | inl z ↦ rw z (deallocate_data-Inv i t r v e (subst IsBusyAt e u))
    | inr z ↦ rw z v
  ])
]

cancel_agent_record-Inv :
    (a i : ℕ) (t : Pending) → Inv t → Inv (cancel_agent_record a i t (get_elem? t.chain i))
cancel_agent_record-Inv a i t v = elim (Option-cases (get_elem? t.chain i)) [
  | inl e ↦ rw e v
  | inr (r, e) ↦ rw e (elim (Bool-cases (r.is_busy && is_agent r.agent a)) [
    | inl z ↦ rw z (
        complete_reply-Inv i t v
          (subst IsBusyAt (sym e) (first_true r.is_busy (is_agent r.agent a) z)))
    | inr z ↦ rw z v
  ])
]

cancel_agent_from-Inv : (a n i : ℕ) (t : Pending) → Inv t → Inv (cancel_agent_from a n i t)
cancel_agent_from-Inv a zero i t v = v
cancel_agent_from-Inv a (suc n) i t v =
    cancel_agent_from-Inv a n (i + 1) (cancel_agent_record a i t (get_elem? t.chain i))
      (cancel_agent_record-Inv a i t v)

cancel_agent_data-Inv : (a : ℕ) (t : Pending) → Inv t → Inv (cancel_agent_data a t)
unfolding cancel_agent_data
cancel_agent_data-Inv a t v = cancel_agent_from-Inv a (length t.chain) 0 t v

module _ (ready linked : ℕ → Bool) (gap : ℕ → Pending → ℤ) where
  send_secure_write-Inv :
      (sent : Bool) (i : ℕ) (t : Pending)
      → Inv t
      → IsBusyAt (get_elem? t.chain i)
      → Inv (send_secure_write ready linked gap sent i t).0
  unfolding send_secure_write
  send_secure_write-Inv sent i t v u = elim (Option-cases (get_elem? t.chain i)) [
    | inl e ↦ rw e v
    | inr (r, e) ↦ rw e (elim (Bool-cases (not r.is_write)) [
      | inl z ↦ rw z v
      | inr z ↦ elim (Option-cases r.agent) [
        | inl q ↦ rw (z, q) v
        | inr (a, q) ↦ elim (Bool-cases (not (ready a) || not (linked a))) [
          | inl y ↦ rw (z, q, y) v
          | inr y ↦
              rw (z, q, y)
                (send_or_postpone-Inv ready linked gap sent i r a t v e (subst IsBusyAt e u))
        ]
      ]
    ])
  ]

-- The states that the calls lead to. A record that is sent or answered is one that is busy. The agents'
-- states, connections and queues may be others at each call.
pub data Reach : Pending → Type 0 where
  start : (clock : ℕ) → Reach (no_data clock)
  allocate : {t : Pending} (has_memory : Bool) → Reach t → Reach (allocate_data has_memory t).0
  fill :
      {t : Pending} (i : ℕ) (is_write : Bool) (ooid op : ℕ) (agent watch : Option ℕ)
      → Reach t
      → Reach (fill_slot (filled is_write ooid op agent watch) i t (get_elem? t.chain i))
  reply :
      {t : Pending} (i : ℕ) → IsBusyAt (get_elem? t.chain i) → Reach t → Reach (complete_reply i t)
  write :
      {t : Pending} (ready linked : ℕ → Bool) (gap : ℕ → Pending → ℤ) (sent : Bool) (i : ℕ)
      → IsBusyAt (get_elem? t.chain i)
      → Reach t
      → Reach (send_secure_write ready linked gap sent i t).0
  secure :
      {t : Pending} (ready linked : ℕ → Bool) (gap : ℕ → Pending → ℤ)
      → Reach t
      → Reach (secure_more_writes ready linked gap t).0
  cancel_watch :
      {t : Pending} (ready linked : ℕ → Bool) (gap : ℕ → Pending → ℤ) (w : ℕ)
      → Reach t
      → Reach (cancel_watch_data ready linked gap w t)
  cancel_agent : {t : Pending} (a : ℕ) → Reach t → Reach (cancel_agent_data a t)
  answered : {t : Pending} (a : ℕ) → Reach t → Reach (write_answered a t)
  reset : {t : Pending} (a : ℕ) → Reach t → Reach (reset_writes a t)

-- In every state that the calls lead to, from no slots on, whatever the agents' states, connections and queues are at
-- each call, there are at most 65535 slots, ohub_data_chain_len is the number of busy records and
-- ohub_write_securing_qty that of the records whose securing_flag is set, all of them busy, and each busy record has
-- the number of its slot, which is not 0, in `no` and in the low 16 bits of its identifier.
pub Reach-counted : (t : Pending) → Reach t → Inv t
Reach-counted _ (start clock) = record {
  size = omega arith;
  counted = refl;
  postponed_counted = refl;
  placed = λ i. λ r. λ e. cc;
}
Reach-counted _ (allocate {t} m s) = allocate_data-Inv m t (Reach-counted t s)
Reach-counted _ (fill {t} i is_write ooid op agent watch s) =
    fill_slot-Inv i is_write ooid op agent watch t (Reach-counted t s)
Reach-counted _ (reply {t} i u s) = complete_reply-Inv i t (Reach-counted t s) u
Reach-counted _ (write {t} ready linked gap sent i u s) =
    send_secure_write-Inv ready linked gap sent i t (Reach-counted t s) u
Reach-counted _ (secure {t} ready linked gap s) =
    secure_more_writes-Inv ready linked gap t (Reach-counted t s)
Reach-counted _ (cancel_watch {t} ready linked gap w s) =
    cancel_watch_data-Inv ready linked gap w t (Reach-counted t s)
Reach-counted _ (cancel_agent {t} a s) = cancel_agent_data-Inv a t (Reach-counted t s)
Reach-counted _ (answered {t} a s) =
    recount t (λ b. if b == a then t.write_counts b - 1 else t.write_counts b) (Reach-counted t s)
Reach-counted _ (reset {t} a s) =
    recount t (λ b. if b == a then 0 else t.write_counts b) (Reach-counted t s)
