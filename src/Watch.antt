-- ===== src/Watch.antt =====
-- watch/watch-op.c: the table of asynchronous operations of the watcher library. A function pointer is
-- a number, and a null one is `none`. Where `ologAbort` leaves the process the result is `none`.
pub mod Slots
pub mod Uses
pub mod Access
pub mod Chain
pub mod Handlers
pub mod Idle
pub mod Data
pub mod Registered
use okscada.Prelude.{
  ℕ, zero, suc, ◌+◌, ◌-◌, ◌*◌, ◌%◌, ◌^◌, Bool, true, false, not, ◌&&◌, ◌||◌, List, [], ◌∷◌, Option,
  none, some, length, ltb, leb, ◌==◌, if◌then◌else◌, get_elem?, set, drop, replicate,
}
use okscada.Prelude.Int.{ℤ, pos, negsuc}

infix 50 ◌=ℤ◌
abbrev pub ◌=ℤ◌ : ℤ → ℤ → Bool
pos a =ℤ pos b = a == b
pos a =ℤ negsuc b = false
negsuc a =ℤ pos b = false
negsuc a =ℤ negsuc b = a == b

-- `OWOP_OK`, `OWOP_ERROR`, `OWOP_NULL`, `OWOP_SELF`.
abbrev pub owop_ok : ℤ
owop_ok = pos 0

abbrev pub owop_error : ℤ
owop_error = negsuc 0

abbrev pub owop_null : ℤ
owop_null = negsuc 2

abbrev pub owop_self : ℤ
owop_self = negsuc 3

-- OWATCH_OPS_FREE, OWATCH_OPS_PENDING and OWATCH_OPS_DONE.
pub data OpState : Type 0 where
  free pending done : OpState

abbrev pub is_free : OpState → Bool
is_free free = true
is_free pending = false
is_free done = false

-- `OwatchOpRecord_t`.
pub record OpRecord : Type 0 where
  pub op : ℤ
  pub op_state : OpState
  pub err_code : ℤ
  pub data1 : ℤ
  pub data2 : ℤ
  pub canceller : Option ℕ
  pub m_op : ℤ
  pub s_op : ℤ
  pub chainer : Option ℕ
  pub ch_param1 : ℤ
  pub ch_param2 : ℤ
  pub loc_handler : Option ℕ
  pub loc_param : ℤ

-- `OwatchOpHandlerRecord_t`.
pub record OpHandlerRecord : Type 0 where
  pub phand : Option ℕ
  pub param : ℤ

-- `owatch_ops` and `owatch_op_handlers`, which are empty where they are null, `owatch_free_op_count`
-- and `owatch_next_op_id`.
pub record Ops : Type 0 where
  pub slots : List OpRecord
  pub free_op_count : ℕ
  pub next_op_id : ℕ
  pub op_handlers : List OpHandlerRecord

abbrev pub max_ops : ℕ
max_ops = 8000

-- `oxnew` fills with 0.
abbrev pub zero_record : OpRecord
zero_record = record {
  op = pos 0;
  op_state = free;
  err_code = pos 0;
  data1 = pos 0;
  data2 = pos 0;
  canceller = none;
  m_op = pos 0;
  s_op = pos 0;
  chainer = none;
  ch_param1 = pos 0;
  ch_param2 = pos 0;
  loc_handler = none;
  loc_param = pos 0;
}

-- `owatchInitOperations`.
abbrev pub init_operations : Ops
init_operations = record {
  slots = replicate max_ops zero_record;
  free_op_count = max_ops;
  next_op_id = 4088;
  op_handlers = replicate 16 (record { phand = none; param = pos 0 });
}

-- The step of the counter ahead of an identifier in `MAKE_OP_ID`: 0 is passed over.
abbrev pub next_tag : ℕ → ℕ
next_tag n = if n % 4096 == 0 then (n + 1) % 2 ^ 64 else n

-- `MAKE_OP_ID`: 12 bits for the slot, and 12 bits of the counter above them.
abbrev pub make_op_id : ℕ → ℕ → ℕ
make_op_id n slot = slot % 4096 + next_tag n % 4096 * 4096

-- `NO_OF_OP`.
abbrev pub no_of_op : ℤ → ℕ
no_of_op (pos n) = n % 4096
no_of_op (negsuc n) = 4095 - n % 4096

-- The slots in use ahead of the first free one.
unfoldable pub used_prefix : List OpRecord → ℕ
used_prefix [] = 0
used_prefix (r ∷ rs) = if is_free r.op_state then 0 else suc (used_prefix rs)

-- The slot that the search from 1 on gives, or `max_ops` where it finds none.
abbrev pub free_slot : Ops → ℕ
free_slot t = suc (used_prefix (drop 1 t.slots))

abbrev pub new_record : Option ℕ → ℤ → ℤ → ℕ → ℕ → OpRecord
new_record pcanc data1 data2 n slot = record {
  op = pos (make_op_id n slot);
  op_state = pending;
  err_code = pos 0;
  data1 = data1;
  data2 = data2;
  canceller = pcanc;
  m_op = owop_null;
  s_op = owop_null;
  chainer = none;
  ch_param1 = pos 0;
  ch_param2 = pos 0;
  loc_handler = none;
  loc_param = pos 0;
}

-- The slot `slot` is taken.
abbrev pub take_slot : Option ℕ → ℤ → ℤ → Ops → ℕ → Ops
take_slot pcanc data1 data2 t slot = record t {
  slots = set t.slots slot (new_record pcanc data1 data2 t.next_op_id slot);
  free_op_count = t.free_op_count - 1;
  next_op_id = (next_tag t.next_op_id + 1) % 2 ^ 64;
}

-- `owatchAllocateOp`.
unfoldable pub allocate_op : Option ℕ → ℤ → ℤ → Ops → Ops × ℤ
allocate_op pcanc data1 data2 t =
    let slot = free_slot t in
    if length t.slots == 0 || t.free_op_count == 0
    then (t, owop_error)
    else if leb max_ops slot
    then (t, owop_error)
    else (take_slot pcanc data1 data2 t slot, pos (make_op_id t.next_op_id slot))

abbrev pub in_use : Option OpRecord → Option OpRecord
in_use none = none
in_use (some r) = if is_free r.op_state then none else some r

abbrev pub is_slot : Ops → ℕ → Bool
is_slot t slot = not (ltb slot 1 || (leb max_ops slot || length t.slots == 0))

-- `owatchGetOpRecord`.
unfoldable pub get_op_record : ℤ → Ops → Option OpRecord
get_op_record op t =
    if is_slot t (no_of_op op) then in_use (get_elem? t.slots (no_of_op op)) else none

abbrev pub is_op : ℤ → Option OpRecord → Bool
is_op op none = false
is_op op (some r) = r.op =ℤ op

-- `owatchIsValidOp`, which has the tests of `owatchGetOpRecord` in it.
unfoldable pub is_valid_op : ℤ → Ops → Bool
is_valid_op op t =
    if is_slot t (no_of_op op) then is_op op (in_use (get_elem? t.slots (no_of_op op))) else false

-- The record of an operation gets other contents.
abbrev pub put : ℤ → OpRecord → Ops → Ops
put op r t = record t { slots = set t.slots (no_of_op op) r }

abbrev pub cleared : OpRecord → OpRecord
cleared r = record r {
  err_code = pos 0;
  data1 = pos 0;
  data2 = pos 0;
  canceller = none;
  op = pos (no_of_op r.op);
  op_state = free;
  m_op = owop_null;
  s_op = owop_null;
  chainer = none;
  ch_param1 = pos 0;
  ch_param2 = pos 0;
  loc_handler = none;
  loc_param = pos 0;
}

abbrev pub dealloc_found : ℤ → Ops → Option OpRecord → Ops × Bool
dealloc_found op t none = (t, false)
dealloc_found op t (some r) =
    (record (put op (cleared r) t) { free_op_count = t.free_op_count + 1 }, true)

-- `owatchDeallocateOp`. OK is `true`.
unfoldable pub deallocate_op : ℤ → Ops → Ops × Bool
deallocate_op op t = dealloc_found op t (get_op_record op t)

-- `owatchSetOpData`.
abbrev pub set_data_found : ℤ → ℤ → ℤ → Ops → Option OpRecord → Ops × Bool
set_data_found op data1 data2 t none = (t, false)
set_data_found op data1 data2 t (some r) =
    if r.op =ℤ op then (put op (record r { data1 = data1; data2 = data2 }) t, true) else (t, false)

unfoldable pub set_op_data : ℤ → ℤ → ℤ → Ops → Ops × Bool
set_op_data op data1 data2 t = set_data_found op data1 data2 t (get_op_record op t)

-- `owatchGetOpData`: OK with both words, or ERROR with 0 for both.
abbrev pub data_found : ℤ → Option OpRecord → (ℤ × ℤ) × Bool
data_found op none = ((pos 0, pos 0), false)
data_found op (some r) = if r.op =ℤ op then ((r.data1, r.data2), true) else ((pos 0, pos 0), false)

unfoldable pub get_op_data : ℤ → Ops → (ℤ × ℤ) × Bool
get_op_data op t = data_found op (get_op_record op t)

-- `owatchReuseSlaveOp`; `none` is the end of the process. The test `oprec->s_op` is of the number, and
-- OWOP_NULL is not 0.
abbrev pub reuse_found : ℤ → Option ℕ → ℤ → ℤ → Ops → Option OpRecord → Option (Ops × ℤ)
reuse_found op pcanc data1 data2 t none = none
reuse_found op pcanc data1 data2 t (some r) =
    let op' = pos (make_op_id t.next_op_id (no_of_op r.op)) in
    let r' = record r {
      op = op';
      op_state = pending;
      err_code = pos 0;
      data1 = data1;
      data2 = data2;
      canceller = pcanc;
    } in
    if not (r.op =ℤ op) || (not (r.s_op =ℤ pos 0) || r.m_op =ℤ owop_null)
    then none
    else some (record (put op r' t) { next_op_id = (next_tag t.next_op_id + 1) % 2 ^ 64 }, op')

pub reuse_slave_op : ℤ → Option ℕ → ℤ → ℤ → Ops → Option (Ops × ℤ)
reuse_slave_op op pcanc data1 data2 t = reuse_found op pcanc data1 data2 t (get_op_record op t)
