-- ===== src/Watch/Uses.antt =====
-- Any order of the calls that take, change and give back operations.
use okscada.Prelude.{ℕ, ◌≡◌, Bool, Option, some, subst}
use okscada.Prelude.Int.{ℤ}
use okscada.Watch.{Ops, init_operations, allocate_op, deallocate_op, set_op_data}
use okscada.Watch.Slots.{
  Inv, init_operations-Inv, allocate_op-Inv, deallocate_op-Inv, set_op_data-Inv,
}
use okscada.Watch.Chain.{unchain_op}
use okscada.Watch.Chain.Keeps.{Kept, unchain_op-Kept}

-- The tables that the calls lead to from the start.
pub data Used : Ops → Type 0 where
  start : Used init_operations
  allocate :
      {t : Ops} (pcanc : Option ℕ) (data1 data2 : ℤ)
      → Used t
      → Used (allocate_op pcanc data1 data2 t).0
  deallocate : {t : Ops} (op : ℤ) → Used t → Used (deallocate_op op t).0
  set_data : {t : Ops} (op data1 data2 : ℤ) → Used t → Used (set_op_data op data1 data2 t).0
  unchain :
      {t t' : Ops} (m_op : ℤ) (rc : Bool) → unchain_op m_op t ≡ some (t', rc) → Used t → Used t'

-- In every table that owatchAllocateOp, owatchDeallocateOp, owatchSetOpData and owatchUnchainOp lead to, there are 8000
-- slots, and owatch_free_op_count is the number of the free ones.
pub Used-Inv : (t : Ops) → Used t → Inv t
Used-Inv _ start = init_operations-Inv
Used-Inv _ (allocate {t} pcanc data1 data2 u) = allocate_op-Inv pcanc data1 data2 t (Used-Inv t u)
Used-Inv _ (deallocate {t} op u) = deallocate_op-Inv op t (Used-Inv t u)
Used-Inv _ (set_data {t} op data1 data2 u) = set_op_data-Inv op data1 data2 t (Used-Inv t u)
Used-Inv _ (unchain {t} m_op rc e u) = subst Kept e (unchain_op-Kept m_op t (Used-Inv t u))
