-- ===== src/Watch/Chain.antt =====
-- watch/watch-op.c: chains of operations, and the end of an operation. A chainer or a handler is code
-- of the caller, and may change the table: `run_chainer` and `run_handler` are what they do.
pub mod Keeps
use okscada.Prelude.{
  ℕ, zero, suc, ◌+◌, Bool, true, false, not, ◌&&◌, ◌||◌, List, [], ◌∷◌, Option, none, some,
  if◌then◌else◌, get_elem?, get_or, set,
}
use okscada.Prelude.Int.{ℤ, pos, negsuc}
use okscada.Watch.{
  OpRecord, OpHandlerRecord, Ops, OpState, free, pending, done, is_free, owop_ok, owop_error,
  owop_null, owop_self, ◌=ℤ◌, no_of_op, put, get_op_record, deallocate_op, zero_record, is_valid_op,
}

-- The slot that a pointer from before points to.
abbrev pub slot_at : ℤ → Ops → OpRecord
slot_at op t = get_or t.slots (no_of_op op) zero_record

abbrev pub update : ℤ → (OpRecord → OpRecord) → Ops → Ops
update op g t = put op (g (slot_at op t)) t

abbrev pub is_pending : OpState → Bool
is_pending free = false
is_pending pending = true
is_pending done = false

abbrev pub is_done : OpState → Bool
is_done free = false
is_done pending = false
is_done done = true

abbrev pub is_set : Option ℕ → Bool
is_set none = false
is_set (some p) = true

abbrev pub with_master : ℤ → OpRecord → OpRecord
with_master m_op r = record r { m_op = m_op }

abbrev pub with_slave : ℤ → OpRecord → OpRecord
with_slave s_op r = record r { s_op = s_op }

abbrev pub with_chainer : ℕ → ℤ → ℤ → OpRecord → OpRecord
with_chainer p param1 param2 r = record r {
  chainer = some p;
  ch_param1 = param1;
  ch_param2 = param2;
}

abbrev pub unchained : OpRecord → OpRecord
unchained r = record r { chainer = none; ch_param1 = pos 0; ch_param2 = pos 0; s_op = owop_null }

abbrev pub finalized : ℤ → OpRecord → OpRecord
finalized err_code r = record r { op_state = done; err_code = err_code }

-- `none`: `ologAbort` has left the process, or a null chainer was called.
abbrev pub Outcome : Type 0
Outcome = Option (Ops × Bool)

module _ (run_chainer : ℕ → ℤ → ℤ → ℤ → ℤ → ℤ → Ops → Ops) where
  abbrev pub chain_slave : ℤ → ℤ → Ops → Option OpRecord → Outcome
  chain_slave m_op s_op t none = none
  chain_slave m_op s_op t (some s) =
      if not (s.m_op =ℤ owop_null) || not (s.op =ℤ s_op)
      then none
      else some (update s_op (with_master m_op) (update m_op (with_slave s_op) t), true)

  -- `OWOP_OK` and `OWOP_ERROR`: the chainer runs at once, and has to change the chain.
  abbrev pub chain_done : ℕ → ℤ → ℤ → ℤ → ℤ → Ops → Outcome
  chain_done chainer m_op s_op param1 param2 t =
      let t₁ = update m_op (with_slave s_op) t in
      let err_code = if s_op =ℤ owop_ok then pos 0 else negsuc 0 in
      let t₂ = run_chainer chainer m_op s_op err_code param1 param2 t₁ in
      if (slot_at m_op t₂).s_op =ℤ s_op then none else some (t₂, true)

  abbrev pub chain_kind : ℕ → ℤ → ℤ → ℤ → ℤ → Ops → Outcome
  chain_kind chainer m_op s_op param1 param2 t =
      if s_op =ℤ owop_ok || s_op =ℤ owop_error
      then chain_done chainer m_op s_op param1 param2 t
      else if s_op =ℤ owop_self
      then some (update m_op (with_slave s_op) t, true)
      else if s_op =ℤ negsuc 1 || s_op =ℤ owop_null
      then none
      else chain_slave m_op s_op t (get_op_record s_op t)

  abbrev pub chain_master : ℤ → ℤ → Option ℕ → ℤ → ℤ → Ops → Option OpRecord → Outcome
  chain_master m_op s_op chainer param1 param2 t none = none
  chain_master m_op s_op none param1 param2 t (some m) = none
  chain_master m_op s_op (some p) param1 param2 t (some m) =
      if not (m.s_op =ℤ owop_null)
      then none
      else chain_kind p m_op s_op param1 param2 (update m_op (with_chainer p param1 param2) t)

  -- `owatchChainOps`.
  unfoldable pub chain_ops : ℤ → ℤ → Option ℕ → ℤ → ℤ → Ops → Outcome
  chain_ops m_op s_op chainer param1 param2 t =
      chain_master m_op s_op chainer param1 param2 t (get_op_record m_op t)

abbrev pub unchain_slave : ℤ → Ops → Option OpRecord → Outcome
unchain_slave s_op t none = none
unchain_slave s_op t (some s) =
    if (s.m_op =ℤ pos 0 || not (s.op =ℤ s_op)) || not (is_done s.op_state)
    then none
    else some ((deallocate_op s_op (update s_op (with_master owop_null) t)).0, true)

abbrev pub unchain_kind : ℤ → Ops → Outcome
unchain_kind s_op t =
    if s_op =ℤ owop_ok || (s_op =ℤ owop_error || s_op =ℤ owop_self)
    then some (t, true)
    else if s_op =ℤ negsuc 1
    then none
    else unchain_slave s_op t (get_op_record s_op t)

abbrev pub unchain_master : ℤ → Ops → Option OpRecord → Outcome
unchain_master m_op t none = none
unchain_master m_op t (some m) =
    if m.s_op =ℤ owop_null then none else unchain_kind m.s_op (update m_op unchained t)

-- `owatchUnchainOp`.
unfoldable pub unchain_op : ℤ → Ops → Outcome
unchain_op m_op t = unchain_master m_op t (get_op_record m_op t)

module _ (run_chainer : ℕ → ℤ → ℤ → ℤ → ℤ → ℤ → Ops → Ops)
    (run_handler : ℕ → ℤ → ℤ → ℤ → Ops → Ops) where
  abbrev pub call_handler : ℤ → ℤ → Ops → Option OpHandlerRecord → Ops
  call_handler op err_code t none = t
  call_handler op err_code t (some h) = elim h.phand [
    | none ↦ t
    | some p ↦ run_handler p h.param op err_code t
  ]

  -- The loop over the table of handlers, from the slot `i` on.
  pub call_handlers : ℕ → ℕ → ℤ → ℤ → Ops → Ops
  call_handlers zero i op err_code t = t
  call_handlers (suc n) i op err_code t =
      call_handlers n (i + 1) op err_code (call_handler op err_code t (get_elem? t.op_handlers i))

  abbrev pub call_local : Option ℕ → ℤ → ℤ → ℤ → Ops → Ops
  call_local none param op err_code t = t
  call_local (some p) param op err_code t =
      let t' = run_handler p param op err_code t in
      if (slot_at op t').op =ℤ op then (deallocate_op op t').0 else t'

  -- The label `END`.
  abbrev pub finish : ℤ → ℤ → Ops → Outcome
  finish op err_code t =
      some (call_local (slot_at op t).loc_handler (slot_at op t).loc_param op err_code t, true)

  abbrev pub after_chainers : ℤ → ℤ → Ops → Outcome
  after_chainers op err_code t = finish op err_code (call_handlers 16 0 op err_code t)

  abbrev pub run_master : ℤ → ℤ → ℤ → OpRecord → Ops → Option ℕ → Outcome
  run_master op err_code m_op m t none = none
  run_master op err_code m_op m t (some p) =
      let t' = run_chainer p m_op op err_code m.ch_param1 m.ch_param2 t in
      if (slot_at op t').op =ℤ op || (slot_at m_op t').s_op =ℤ op
      then none
      else if is_set (slot_at op t').loc_handler
      then finish op err_code t'
      else after_chainers op err_code t'

  abbrev pub call_master : ℤ → ℤ → ℤ → Ops → Option OpRecord → Outcome
  call_master op err_code m_op t none = none
  call_master op err_code m_op t (some m) =
      if m.op =ℤ m_op then run_master op err_code m_op m t m.chainer else none

  -- `if (oprec->m_op != OWOP_NULL)`.
  abbrev pub to_master : ℤ → ℤ → Ops → Outcome
  to_master op err_code t =
      let m_op = (slot_at op t).m_op in
      if m_op =ℤ owop_null
      then after_chainers op err_code t
      else call_master op err_code m_op t (get_op_record m_op t)

  abbrev pub run_self : ℤ → ℤ → OpRecord → Ops → Option ℕ → Outcome
  run_self op err_code r t none = none
  run_self op err_code r t (some p) =
      let t' = run_chainer p op owop_self err_code r.ch_param1 r.ch_param2 t in
      if (slot_at op t').s_op =ℤ owop_self
      then none
      else if (slot_at op t').m_op =ℤ owop_null
      then finish op err_code t'
      else to_master op err_code t'

  abbrev pub finalize_found : ℤ → ℤ → Ops → Option OpRecord → Outcome
  finalize_found op err_code t none = some (t, false)
  finalize_found op err_code t (some r) =
      let t' = update op (finalized err_code) t in
      if not (r.op =ℤ op)
      then some (t, false)
      else if not (is_pending r.op_state)
          || (err_code =ℤ pos 1 || not (r.s_op =ℤ owop_null || r.s_op =ℤ owop_self))
      then none
      else if r.s_op =ℤ owop_self
      then run_self op err_code r t' r.chainer
      else to_master op err_code t'

  -- `owatchFinalizeOp`.
  unfoldable pub finalize_op : ℤ → ℤ → Ops → Outcome
  finalize_op op err_code t = finalize_found op err_code t (get_op_record op t)
