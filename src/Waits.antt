-- ===== src/Waits.antt =====
-- The hub's records of reads and writes at small inputs.
use okscada.Prelude.{◌%◌, ◌≡◌, refl, true, none, some, get_elem?, ◌==◌, if◌then◌else◌, arith}
use okscada.Pending.{
  DataRecord, Pending, no_data, new_record, allocate_data, deallocate_data, find_data,
  cancel_agent_data,
}
use okscada.Pending.Inv.{Inv}
use okscada.Pending.Find.{Allocated, allocate_data-Allocated, deallocate_data-find_data}
use okscada.Pending.Reach.{start, allocate, cancel_agent, Reach-counted}

abbrev one_pending : Pending
one_pending = (allocate_data true (no_data 0)).0

abbrev first_record : DataRecord
first_record = new_record 1 1

one_pending-first : get_elem? one_pending.chain 1 ≡ some first_record
unfolding allocate_data
one_pending-first = refl

allocate_data-Allocated_example : Allocated true (no_data 0) (allocate_data true (no_data 0))
allocate_data-Allocated_example =
    allocate_data-Allocated true (no_data 0) (Reach-counted (no_data 0) (start 0))

deallocate_data-find_data_example :
    find_data 65537 (deallocate_data 1 one_pending)
    ≡ (if 65537 % 65536 == 1 then none else find_data 65537 one_pending)
deallocate_data-find_data_example =
    deallocate_data-find_data 1 one_pending first_record 65537 one_pending-first (omega arith)

Reach-counted_example : Inv (cancel_agent_data 5 (allocate_data true (no_data 0)).0)
Reach-counted_example =
    Reach-counted (cancel_agent_data 5 (allocate_data true (no_data 0)).0)
      (cancel_agent 5 (allocate true (start 0)))
