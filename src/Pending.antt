-- ===== src/Pending.antt =====
-- hub/hub-data.c: the records of the reads and writes that wait for a subject's answer, and the writes that are put off.
-- The quark, the value and its buffer of a record are not modelled. `ready` and `linked` say if an agent has a
-- state and a connection, `gap` is the room in its queue.
pub mod Inv
pub mod Secured
pub mod Reach
pub mod Find
use okscada.Prelude.{
  ℕ, zero, suc, ◌+◌, ◌-◌, ◌*◌, ◌/◌, ◌%◌, Bool, true, false, not, ◌&&◌, ◌||◌, List, [], ◌∷◌, ◌++◌,
  Option, none, some, length, ltb, leb, ◌==◌, if◌then◌else◌, get_elem?, set, drop, replicate,
}
use okscada.Prelude.Int.{ℤ, pos, negsuc}

-- `securing_flag`: FALSE, TRUE and ERROR.
pub data Flag : Type 0 where
  off : Flag
  postponed : Flag
  zombie : Flag

pub record DataRecord : Type 0 where
  pub is_busy : Bool
  pub slot : ℕ
  pub is_write : Bool
  pub id : ℕ
  pub ooid : ℕ
  pub op : ℕ
  pub agent : Option ℕ
  pub watch : Option ℕ
  pub securing_flag : Flag

abbrev pub zero_record : DataRecord
zero_record = record {
  is_busy = false;
  slot = 0;
  is_write = false;
  id = 0;
  ooid = 0;
  op = 0;
  agent = none;
  watch = none;
  securing_flag = off;
}

-- `write_counts` are the `cur_write_count` of the agents.
pub record Pending : Type 0 where
  pub chain : List DataRecord
  pub chain_len : ℕ
  pub next_id : ℕ
  pub securing_qty : ℕ
  pub write_counts : ℕ → ℕ

abbrev pub used_prefix : List DataRecord → ℕ
used_prefix [] = 0
used_prefix (r ∷ rs) = let rest = used_prefix rs in if r.is_busy then suc rest else 0

-- The first slot from 1 on that is not busy, or one behind the end.
abbrev pub free_no : Pending → ℕ
free_no t = suc (used_prefix (drop 1 t.chain))

abbrev pub grown_size : ℕ → ℕ
grown_size size = if ltb 65535 (size * 2 + 4) then 65535 else size * 2 + 4

abbrev pub next_data_id : ℕ → ℕ
next_data_id n = let n' = (n + 1) % 18446744073709551616 in if n' % 65536 == 0 then n' + 1 else n'

abbrev pub new_record : ℕ → ℕ → DataRecord
new_record next_id slot = record zero_record {
  is_busy = true;
  slot = slot;
  id = next_id % 65536 * 65536 + slot;
}

abbrev pub take_slot : ℕ → Pending → Pending
take_slot slot t = record t {
  chain = set t.chain slot (new_record (next_data_id t.next_id) slot);
  chain_len = t.chain_len + 1;
  next_id = next_data_id t.next_id;
}

abbrev pub grown : Pending → Pending
grown t = record t {
  chain = t.chain ++ replicate (grown_size (length t.chain) - length t.chain) zero_record;
}

-- `ohubAllocateData`: the slot that is taken, or `none`. `has_memory` says if oxrenew gives memory.
unfoldable pub allocate_data : Bool → Pending → Pending × Option ℕ
allocate_data has_memory t =
    let slot = free_no t in
    if ltb slot (length t.chain)
    then (take_slot slot t, some slot)
    else if grown_size (length t.chain) == length t.chain || not has_memory
    then (t, none)
    else (take_slot slot (grown t), some slot)

abbrev pub is_secured : Flag → Bool
is_secured off = false
is_secured postponed = true
is_secured zombie = true

abbrev pub clear_slot : ℕ → Pending → Option DataRecord → Pending
clear_slot slot t none = t
clear_slot slot t (some r) = record t {
  chain = set t.chain slot zero_record;
  chain_len = t.chain_len - 1;
  securing_qty = if is_secured r.securing_flag then t.securing_qty - 1 else t.securing_qty;
}

-- `ohubDeallocateData` of the record in a slot.
unfoldable pub deallocate_data : ℕ → Pending → Pending
deallocate_data slot t = clear_slot slot t (get_elem? t.chain slot)

abbrev pub if_named : ℕ → Option DataRecord → Option DataRecord
if_named id none = none
if_named id (some r) = if r.is_busy && r.id == id then some r else none

-- `ohubFindData`.
unfoldable pub find_data : ℕ → Pending → Option DataRecord
find_data id t =
    let slot = id % 65536 in
    if slot == 0 || leb (length t.chain) slot then none else if_named id (get_elem? t.chain slot)

-- What ohubHandleOoidWrite and ohubHandleOoidRead write into the record that they have taken.
abbrev pub filled : Bool → ℕ → ℕ → Option ℕ → Option ℕ → DataRecord → DataRecord
filled is_write ooid op agent watch r = record r {
  is_write = is_write;
  ooid = ooid;
  op = op;
  agent = agent;
  watch = watch;
}

abbrev pub fill_slot : (DataRecord → DataRecord) → ℕ → Pending → Option DataRecord → Pending
fill_slot f slot t none = t
fill_slot f slot t (some r) = record t { chain = set t.chain slot (f r) }

abbrev pub has_watch : Option ℕ → Bool
has_watch none = false
has_watch (some w) = true

abbrev pub complete_record : ℕ → Pending → Option DataRecord → Pending
complete_record slot t none = t
complete_record slot t (some r) = if has_watch r.watch then deallocate_data slot t else t

-- `ohubCompleteWriteReply` and `ohubCompleteReadReply` of a record, without the packet.
unfoldable pub complete_reply : ℕ → Pending → Pending
complete_reply slot t = complete_record slot t (get_elem? t.chain slot)

abbrev pub is_agent : Option ℕ → ℕ → Bool
is_agent none a = false
is_agent (some x) a = x == a

abbrev pub cancel_agent_record : ℕ → ℕ → Pending → Option DataRecord → Pending
cancel_agent_record a slot t none = t
cancel_agent_record a slot t (some r) =
    if r.is_busy && is_agent r.agent a then complete_reply slot t else t

abbrev pub cancel_agent_from : ℕ → ℕ → ℕ → Pending → Pending
cancel_agent_from a zero slot t = t
cancel_agent_from a (suc n) slot t =
    cancel_agent_from a n (slot + 1) (cancel_agent_record a slot t (get_elem? t.chain slot))

-- `ohubCancelAgentData`.
unfoldable pub cancel_agent_data : ℕ → Pending → Pending
cancel_agent_data a t = cancel_agent_from a (length t.chain) 0 t

abbrev pub with_flag : Flag → DataRecord → DataRecord
with_flag f r = record r { securing_flag = f }

abbrev pub count_write : ℕ → (ℕ → ℕ) → ℕ → ℕ
count_write a counts b = if b == a then counts b + 1 else counts b

-- ohubAgentHandleIncoming on OLANG_DATA_WRITE_REPLY: the count of the agent goes down, but not below 0.
abbrev pub write_answered : ℕ → Pending → Pending
write_answered a t = record t {
  write_counts = λ b. if b == a then t.write_counts b - 1 else t.write_counts b;
}

-- ohubSetAgentState: the count begins at 0 again.
abbrev pub reset_writes : ℕ → Pending → Pending
reset_writes a t = record t { write_counts = λ b. if b == a then 0 else t.write_counts b }

module _ (ready linked : ℕ → Bool) (gap : ℕ → Pending → ℤ) where
  abbrev pub few : ℤ → Bool
  few (pos n) = ltb n 10
  few (negsuc n) = true

  abbrev pub is_tight : ℤ → Bool
  is_tight (pos n) = ltb n 10
  is_tight (negsuc n) = false

  -- `ohubSendSecureWriteRequest` of the record `r` in a slot, without the packet. `sent` is what ohubSendWriteRequest returns.
  abbrev pub send_or_postpone : Bool → ℕ → DataRecord → ℕ → Pending → Pending × Bool
  send_or_postpone sent slot r a t =
      if is_secured r.securing_flag
      then (t, true)
      else if few (gap a t) || ltb 32 (t.write_counts a)
      then (
        record t {
          chain = set t.chain slot (with_flag postponed r);
          securing_qty = t.securing_qty + 1;
        },
        true,
      )
      else (record t { write_counts = count_write a t.write_counts }, sent)

  abbrev pub secure_record : Bool → ℕ → Pending → Option DataRecord → Pending × Bool
  secure_record sent slot t none = (t, false)
  secure_record sent slot t (some r) = if not r.is_write then (t, false) else elim r.agent [
    | none ↦ (t, false)
    | some a ↦
        if not (ready a) || not (linked a) then (t, false) else send_or_postpone sent slot r a t
  ]

  unfoldable pub send_secure_write : Bool → ℕ → Pending → Pending × Bool
  send_secure_write sent slot t = secure_record sent slot t (get_elem? t.chain slot)

  abbrev pub is_zombie : Flag → Bool
  is_zombie off = false
  is_zombie postponed = false
  is_zombie zombie = true

  -- A postponed write is sent: its record goes, if its watcher has gone, or waits for the answer.
  abbrev pub let_go : ℕ → DataRecord → ℕ → Pending → Pending
  let_go slot r a t =
      let t' = record t { write_counts = count_write a t.write_counts } in
      if is_zombie r.securing_flag then deallocate_data slot t' else record t' {
        chain = set t.chain slot (with_flag off r);
        securing_qty = t.securing_qty - 1;
      }

  abbrev pub secure_agent : ℕ → DataRecord → ℕ → Pending → Pending × ℕ
  secure_agent slot r a t =
      if not (ready a) || not (linked a)
      then (if is_zombie r.securing_flag then deallocate_data slot t else t, 0)
      else if ltb 32 (t.write_counts a) || is_tight (gap a t)
      then (t, 0)
      else (let_go slot r a t, 1)

  abbrev pub secure_one : ℕ → Pending → Option DataRecord → Pending × ℕ
  secure_one slot t none = (t, 0)
  secure_one slot t (some r) =
      if not r.is_busy || (not r.is_write || not (is_secured r.securing_flag))
      then (t, 0)
      else elim r.agent [ none ↦ (t, 0) | some a ↦ secure_agent slot r a t ]

  -- The loop of ohubSecureMoreWrites from a slot on, and how many were sent.
  abbrev pub secure_from : ℕ → ℕ → ℕ → Pending → Pending × ℕ
  secure_from zero slot qty t = (t, qty)
  secure_from (suc n) slot qty t =
      let one = secure_one slot t (get_elem? t.chain slot) in
      let next = secure_from n (slot + 1) (qty + one.1) one.0 in
      if leb 32 qty || t.securing_qty == 0 then (t, qty) else next

  -- `ohubSecureMoreWrites`.
  unfoldable pub secure_more_writes : Pending → Pending × ℕ
  secure_more_writes t =
      if t.securing_qty == 0 || length t.chain == 0
      then (t, 0)
      else secure_from (length t.chain - 1) 1 0 t

  abbrev pub is_named : Option ℕ → ℕ → Bool
  is_named none w = false
  is_named (some x) w = x == w

  abbrev pub is_there : Option ℕ → Bool
  is_there none = false
  is_there (some a) = ready a && linked a

  -- A record of a watcher that goes: a write that was put off for an agent that is there is still sent.
  abbrev pub cancel_record : ℕ → ℕ → Pending → Option DataRecord → Pending
  cancel_record w slot t none = t
  cancel_record w slot t (some r) =
      if not r.is_busy || not (is_named r.watch w)
      then t
      else if is_secured r.securing_flag && is_there r.agent
      then record t { chain = set t.chain slot (with_flag zombie r) }
      else deallocate_data slot t

  abbrev pub cancel_from : ℕ → ℕ → ℕ → Pending → Pending
  cancel_from w zero slot t = t
  cancel_from w (suc n) slot t =
      cancel_from w n (slot + 1) (cancel_record w slot t (get_elem? t.chain slot))

  -- `ohubCancelWatchData` of a watcher.
  unfoldable pub cancel_watch_data : ℕ → Pending → Pending
  cancel_watch_data w t = cancel_from w (length t.chain) 0 t

-- `ohubInitData`: no slots, and the identifiers begin at the clock.
abbrev pub no_data : ℕ → Pending
no_data clock = record {
  chain = [];
  chain_len = 0;
  next_id = clock;
  securing_qty = 0;
  write_counts = λ a. 0;
}
