-- ===== src/Watch/Chain/Keeps.antt =====
-- Chains and the end of operations keep the count of the free slots.
use okscada.Prelude.{
  ℕ, zero, suc, ◌+◌, ◌≡◌, refl, sym, ◌∙◌, false, List, [], ◌∷◌, Option, none, some, if◌then◌else◌,
  get_elem?, get_or, set, length-set, arith, Bool-cases, Option-cases, inl, inr,
}
use okscada.Prelude.Int.{ℤ, pos, negsuc}
use okscada.Watch.{
  OpRecord, OpHandlerRecord, Ops, is_free, no_of_op, put, get_op_record, zero_record, owop_null,
  owop_self, owop_ok, ◌=ℤ◌,
}
use okscada.Watch.Slots.{Inv, frees, deallocate_op-Inv, get_op_record-used}
use okscada.Watch.Chain.{
  Outcome, slot_at, update, with_master, with_slave, with_chainer, unchained, finalized, chain_ops,
  chain_master, chain_kind, chain_slave, unchain_op, unchain_master, unchain_kind, unchain_slave,
  finalize_op, finalize_found, run_self, to_master, call_master, run_master, after_chainers, finish,
  call_local, call_handlers, call_handler,
}

frees-modify :
    (rs : List OpRecord) (i : ℕ) (r : OpRecord)
    → is_free r.op_state ≡ is_free (get_or rs i zero_record).op_state
    → frees (set rs i r) ≡ frees rs
unfolding frees
frees-modify [] i r e = refl
frees-modify (x ∷ rs) zero r e = rw e refl
frees-modify (x ∷ rs) (suc i) r e = rw (frees-modify rs i r e) refl

put-Inv :
    (op : ℤ) (r : OpRecord) (t : Ops)
    → is_free r.op_state ≡ is_free (slot_at op t).op_state
    → Inv t
    → Inv (put op r t)
put-Inv op r t e i = record {
  size = length-set t.slots (no_of_op op) r ∙ i.size;
  counted = i.counted ∙ sym (frees-modify t.slots (no_of_op op) r e);
}

-- Every outcome but an abort.
abbrev pub Kept : Outcome → Type 0
Kept none = Unit {0}
Kept (some (t, good)) = Inv t

get_or-found :
    (rs : List OpRecord) (n : ℕ) (r : OpRecord)
    → get_elem? rs n ≡ some r
    → is_free r.op_state ≡ false
    → is_free (get_or rs n zero_record).op_state ≡ false
get_or-found [] n r e f = cc
get_or-found (x ∷ rs) zero r e f = grind (arith, e, f)
get_or-found (x ∷ rs) (suc n) r e f = get_or-found rs n r e f

update-Inv :
    (op : ℤ) (g : OpRecord → OpRecord) (t : Ops)
    → is_free (g (slot_at op t)).op_state ≡ is_free (slot_at op t).op_state
    → Inv t
    → Inv (update op g t)
update-Inv op g t e i = put-Inv op (g (slot_at op t)) t e i

unchain_slave-Kept : (op : ℤ) (t : Ops) (s : Option OpRecord) → Inv t → Kept (unchain_slave op t s)
unchain_slave-Kept op t none i = tt
unchain_slave-Kept op t (some s) i =
    let t' = update op (with_master owop_null) t in
    ground (arith, deallocate_op-Inv op t' (update-Inv op (with_master owop_null) t refl i))

unchain_kind-Kept : (op : ℤ) (t : Ops) → Inv t → Kept (unchain_kind op t)
unchain_kind-Kept op t i = ground (arith, unchain_slave-Kept op t (get_op_record op t) i)

unchain_master-Kept :
    (op : ℤ) (t : Ops) (m : Option OpRecord) → Inv t → Kept (unchain_master op t m)
unchain_master-Kept op t none i = tt
unchain_master-Kept op t (some m) i =
    ground
      (arith, unchain_kind-Kept m.s_op (update op unchained t) (update-Inv op unchained t refl i))

-- Unless it ends the process, `owatchUnchainOp` keeps `owatch_free_op_count` equal to the number of
-- the free slots.
pub unchain_op-Kept : (m_op : ℤ) (t : Ops) → Inv t → Kept (unchain_op m_op t)
unfolding unchain_op
unchain_op-Kept m_op t i = unchain_master-Kept m_op t (get_op_record m_op t) i

module _ (run_chainer : ℕ → ℤ → ℤ → ℤ → ℤ → ℤ → Ops → Ops)
    (chainer_keeps : (p : ℕ) (m_op s_op err param1 param2 : ℤ) (t : Ops)
      → Inv t
      → Inv (run_chainer p m_op s_op err param1 param2 t)) where
  chain_slave-Kept :
      (m_op s_op : ℤ) (t : Ops) (s : Option OpRecord)
      → Inv t
      → Kept (chain_slave run_chainer m_op s_op t s)
  chain_slave-Kept m_op s_op t none i = tt
  chain_slave-Kept m_op s_op t (some s) i =
      let t' = update m_op (with_slave s_op) t in
      ground (
        arith,
        update-Inv s_op (with_master m_op) t' refl (update-Inv m_op (with_slave s_op) t refl i),
      )

  chain_kind-Kept :
      (p : ℕ) (m_op s_op param1 param2 : ℤ) (t : Ops)
      → Inv t
      → Kept (chain_kind run_chainer p m_op s_op param1 param2 t)
  chain_kind-Kept p m_op s_op param1 param2 t i = ground (
    arith,
    update-Inv m_op (with_slave s_op) t refl i,
    chainer_keeps p m_op s_op (if s_op =ℤ owop_ok then pos 0 else negsuc 0) param1 param2
        (update m_op (with_slave s_op) t),
    chain_slave-Kept m_op s_op t (get_op_record s_op t) i,
  )

  chain_master-Kept :
      (m_op s_op : ℤ) (chainer : Option ℕ) (param1 param2 : ℤ) (t : Ops) (m : Option OpRecord)
      → Inv t
      → Kept (chain_master run_chainer m_op s_op chainer param1 param2 t m)
  chain_master-Kept m_op s_op chainer param1 param2 t none i = tt
  chain_master-Kept m_op s_op none param1 param2 t (some m) i = tt
  chain_master-Kept m_op s_op (some p) param1 param2 t (some m) i =
      let t' = update m_op (with_chainer p param1 param2) t in
      ground (
        arith,
        chain_kind-Kept p m_op s_op param1 param2 t'
            (update-Inv m_op (with_chainer p param1 param2) t refl i),
      )

  -- Unless it ends the process, `owatchChainOps` keeps `owatch_free_op_count` equal to the number of
  -- the free slots, where the chainers keep it.
  pub chain_ops-Kept :
      (m_op s_op : ℤ) (chainer : Option ℕ) (param1 param2 : ℤ) (t : Ops)
      → Inv t
      → Kept (chain_ops run_chainer m_op s_op chainer param1 param2 t)
  unfolding chain_ops
  chain_ops-Kept m_op s_op chainer param1 param2 t i =
      chain_master-Kept m_op s_op chainer param1 param2 t (get_op_record m_op t) i

  module _ (run_handler : ℕ → ℤ → ℤ → ℤ → Ops → Ops)
      (handler_keeps : (p : ℕ) (param op err : ℤ) (t : Ops)
        → Inv t
        → Inv (run_handler p param op err t)) where
    call_handler-Inv :
        (op err : ℤ) (t : Ops) (h : Option OpHandlerRecord)
        → Inv t
        → Inv (call_handler run_chainer run_handler op err t h)
    call_handler-Inv op err t none i = i
    call_handler-Inv op err t (some h) i = elim (Option-cases h.phand) [
      | inl e ↦ rw e i
      | inr (p, e) ↦ rw e (handler_keeps p h.param op err t i)
    ]

    call_handlers-Inv :
        (n k : ℕ) (op err : ℤ) (t : Ops)
        → Inv t
        → Inv (call_handlers run_chainer run_handler n k op err t)
    unfolding call_handlers
    call_handlers-Inv zero k op err t i = i
    call_handlers-Inv (suc n) k op err t i =
        call_handlers-Inv n (k + 1) op err
          (call_handler run_chainer run_handler op err t (get_elem? t.op_handlers k))
          (call_handler-Inv op err t (get_elem? t.op_handlers k) i)

    call_local-Inv :
        (h : Option ℕ) (param op err : ℤ) (t : Ops)
        → Inv t
        → Inv (call_local run_chainer run_handler h param op err t)
    call_local-Inv none param op err t i = i
    call_local-Inv (some p) param op err t i =
        let t' = run_handler p param op err t in
        let i' : Inv t' = handler_keeps p param op err t i in
        elim (Bool-cases ((slot_at op t').op =ℤ op)) [
          | inl e ↦ rw e (deallocate_op-Inv op t' i')
          | inr e ↦ rw e i'
        ]

    finish-Kept : (op err : ℤ) (t : Ops) → Inv t → Kept (finish run_chainer run_handler op err t)
    finish-Kept op err t i =
        call_local-Inv (slot_at op t).loc_handler (slot_at op t).loc_param op err t i

    after_chainers-Kept :
        (op err : ℤ) (t : Ops) → Inv t → Kept (after_chainers run_chainer run_handler op err t)
    after_chainers-Kept op err t i =
        finish-Kept op err (call_handlers run_chainer run_handler 16 0 op err t)
          (call_handlers-Inv 16 0 op err t i)

    run_master-Kept :
        (op err m_op : ℤ) (m : OpRecord) (t : Ops) (c : Option ℕ)
        → Inv t
        → Kept (run_master run_chainer run_handler op err m_op m t c)
    run_master-Kept op err m_op m t none i = tt
    run_master-Kept op err m_op m t (some p) i =
        let t' = run_chainer p m_op op err m.ch_param1 m.ch_param2 t in
        let i' : Inv t' = chainer_keeps p m_op op err m.ch_param1 m.ch_param2 t i in
        ground (arith, finish-Kept op err t' i', after_chainers-Kept op err t' i')

    call_master-Kept :
        (op err m_op : ℤ) (t : Ops) (m : Option OpRecord)
        → Inv t
        → Kept (call_master run_chainer run_handler op err m_op t m)
    call_master-Kept op err m_op t none i = tt
    call_master-Kept op err m_op t (some m) i = elim (Bool-cases (m.op =ℤ m_op)) [
      | inl e ↦ rw e (run_master-Kept op err m_op m t m.chainer i)
      | inr e ↦ rw e tt
    ]

    to_master-Kept :
        (op err : ℤ) (t : Ops) → Inv t → Kept (to_master run_chainer run_handler op err t)
    to_master-Kept op err t i = elim (Bool-cases ((slot_at op t).m_op =ℤ owop_null)) [
      | inl e ↦ rw e (after_chainers-Kept op err t i)
      | inr e ↦
          rw e
            (call_master-Kept op err (slot_at op t).m_op t (get_op_record (slot_at op t).m_op t) i)
    ]

    run_self-Kept :
        (op err : ℤ) (r : OpRecord) (t : Ops) (c : Option ℕ)
        → Inv t
        → Kept (run_self run_chainer run_handler op err r t c)
    run_self-Kept op err r t none i = tt
    run_self-Kept op err r t (some p) i =
        let t' = run_chainer p op owop_self err r.ch_param1 r.ch_param2 t in
        let i' : Inv t' = chainer_keeps p op owop_self err r.ch_param1 r.ch_param2 t i in
        ground (arith, finish-Kept op err t' i', to_master-Kept op err t' i')

    finalize_found-Kept :
        (op err : ℤ) (t : Ops) (o : Option OpRecord)
        → get_op_record op t ≡ o
        → Inv t
        → Kept (finalize_found run_chainer run_handler op err t o)
    finalize_found-Kept op err t none e i = i
    finalize_found-Kept op err t (some r) e i =
        let (f, u) = get_op_record-used op t r e in
        let t' = update op (finalized err) t in
        let i' : Inv t' =
          update-Inv op (finalized err) t (sym (get_or-found t.slots (no_of_op op) r f u)) i in
        ground (arith, i, run_self-Kept op err r t' r.chainer i', to_master-Kept op err t' i')

    -- Unless it ends the process, `owatchFinalizeOp` keeps `owatch_free_op_count` equal to the number
    -- of the free slots on every path through chainers, handlers and the local handler, where the
    -- chainers and the handlers keep it.
    pub finalize_op-Kept :
        (op err : ℤ) (t : Ops) → Inv t → Kept (finalize_op run_chainer run_handler op err t)
    unfolding finalize_op
    finalize_op-Kept op err t i = finalize_found-Kept op err t (get_op_record op t) refl i
