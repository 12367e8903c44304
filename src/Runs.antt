-- ===== src/Runs.antt =====
-- Runs of the message registry, the operation table and the strings on small inputs.
use okscada.Prelude.{
  inl, inr, not, ℕ, zero, suc, ◌+◌, ◌≡◌, refl, ap, Bool, true, false, ◌||◌, List, [], ◌∷◌, ◌++◌,
  Option, none, some, length-append, length-replicate, replicate, arith, ◌==◌, if◌then◌else◌,
}
use okscada.Prelude.Int.{ℤ, pos, negsuc}
use okscada.Msg.{MsgNode, Registry, add, empty_registry, is_registered}
use okscada.Msg.Send.{Target, Message, handle_msg_send, routed, to_watch, delivered, rcvr_down}
use okscada.Msg.KlassNum.{Call, register, act, run}
use okscada.Msg.Unique.{Unique, run-Unique}
use okscada.Msg.Unicast.{handle_msg_send-unicast}
use okscada.Msg.Broadcast.{receivers, members, outcome, handle_msg_send-broadcast}
use okscada.Watch.{
  OpRecord, Ops, used_prefix, free_slot, allocate_op, deallocate_op, get_op_record, get_op_data,
  is_valid_op, init_operations, zero_record, new_record,
}
use okscada.Watch.Uses.{start, allocate, deallocate, Used-Inv}
use okscada.Watch.Slots.{Inv, frees, init_operations-Inv, allocate_op-Inv}
use okscada.Watch.Access.{allocate_op-get_op_data, allocate_op-lost, deallocate_op-get_op_record}
use okscada.Watch.Chain.{finalize_op}
use okscada.Watch.Chain.Keeps.{Kept, finalize_op-Kept}
use okscada.Paths.{last_sep}

-- Two watchers, of which the second has subscribed to class 7.
abbrev calls : List Call
calls =
    register (some 1) none add (97 ∷ [])
    ∷ register (some 2) none add (98 ∷ [])
    ∷ act (some 2) none 6 1 (7 ∷ [])
    ∷ []

abbrev agent : ℕ → ℕ
agent s = s

abbrev watchers : Registry
watchers = record {
  nodes =
      record {
        id = 1;
        name = 97 ∷ [];
        is_full = false;
        klass_num = 0;
        subject = none;
        watch = some 1;
      }
      ∷ record {
        id = 2;
        name = 98 ∷ [];
        is_full = false;
        klass_num = 0;
        subject = none;
        watch = some 2;
      }
      ∷ [];
  classes = record { klass = 7; node_list = 2 ∷ 1 ∷ [] } ∷ [];
  next_id = 3;
}

abbrev notice : Message
notice = record { op = 9; s_len = 1; m_len = 4; dest = []; klass = 7 }

abbrev up : Target → Bool
up t = true

handle_msg_send-broadcast_example :
    handle_msg_send agent up (some 1) none 23 notice watchers
    ≡ outcome agent up
        (some 1)
        none
        watchers.nodes
        notice.op
        (receivers agent up (some 1) none watchers.nodes (members notice.klass watchers.classes))
handle_msg_send-broadcast_example =
    handle_msg_send-broadcast agent up (some 1) none 23 notice watchers
      (refl, refl, refl, refl, refl)

run-Unique_example : Unique (run agent empty_registry calls).nodes
run-Unique_example = run-Unique agent calls

-- A letter to the second watcher.
abbrev letter : Message
letter = record { op = 9; s_len = 1; m_len = 4; dest = 98 ∷ []; klass = 0 }

abbrev second : MsgNode
second = record {
  id = 2;
  name = 98 ∷ [];
  is_full = false;
  klass_num = 0;
  subject = none;
  watch = some 2;
}

watchers-Unique : Unique watchers.nodes
unfolding is_registered
watchers-Unique = (refl, (refl, tt))

handle_msg_send-unicast_example :
    handle_msg_send agent up (some 1) none 24 letter watchers
    ≡ routed
        (to_watch 2 ∷ [])
        (if up (to_watch 2) then delivered else rcvr_down)
        (not (letter.op == 0))
handle_msg_send-unicast_example =
    handle_msg_send-unicast agent up (some 1) none 24 letter watchers second (to_watch 2)
      watchers-Unique (inr (inl refl)) refl refl refl refl refl refl

used_prefix-zeros : (n : ℕ) → used_prefix (replicate (suc n) zero_record) ≡ 0
unfolding used_prefix
used_prefix-zeros n = refl

init-free_slot : free_slot init_operations ≡ 1
init-free_slot = ap suc (used_prefix-zeros 7998)

allocate_op-get_op_data_example :
    let (t', op) = allocate_op none (pos 3) (negsuc 3) init_operations in
    (is_valid_op op t' ≡ true) × (get_op_data op t' ≡ ((pos 3, negsuc 3), true))
allocate_op-get_op_data_example =
    allocate_op-get_op_data none (pos 3) (negsuc 3) init_operations init_operations-Inv
      (omega (arith, init-free_slot))

-- A table with one operation.
one_op : Ops
one_op = (allocate_op none (pos 3) (negsuc 3) init_operations).0

one_op-Inv : Inv one_op
unfolding one_op
one_op-Inv = allocate_op-Inv none (pos 3) (negsuc 3) init_operations init_operations-Inv

deallocate_op-get_op_record_example :
    let t' = (deallocate_op (pos 16744449) one_op).0 in
    (get_op_record (pos 16744449) t' ≡ none)
    × (is_valid_op (pos 16744449) t' ≡ false)
    × (get_op_record (pos 2) t' ≡ get_op_record (pos 2) one_op)
deallocate_op-get_op_record_example =
    deallocate_op-get_op_record (pos 16744449) (pos 2) one_op (λ e. absurd (omega (arith, e)))

abbrev still : ℕ → ℤ → ℤ → ℤ → ℤ → ℤ → Ops → Ops
still p m_op s_op err param1 param2 t = t

abbrev quiet : ℕ → ℤ → ℤ → ℤ → Ops → Ops
quiet p param op err t = t

finalize_op-Kept_example : Kept (finalize_op still quiet (pos 16744449) (negsuc 10) one_op)
finalize_op-Kept_example =
    finalize_op-Kept still (λ p m_op s_op err param1 param2 t i. i) quiet (λ p param op err t i. i)
      (pos 16744449) (negsuc 10) one_op one_op-Inv

-- 4095 operations in use, and 3905 slots that are free.
abbrev used_record : OpRecord
used_record = new_record none (pos 0) (pos 0) 1 1

abbrev crowd : List OpRecord
crowd = replicate 4095 used_record ++ replicate 3904 zero_record

abbrev crowded : Ops
crowded = record init_operations { slots = zero_record ∷ crowd; free_op_count = 3905 }

used_prefix-used :
    (n : ℕ) (rs : List OpRecord) → used_prefix (replicate n used_record ++ rs) ≡ n + used_prefix rs
unfolding used_prefix
used_prefix-used zero rs = omega arith
used_prefix-used (suc n) rs = omega (arith, used_prefix-used n rs)

frees-used : (n : ℕ) (rs : List OpRecord) → frees (replicate n used_record ++ rs) ≡ frees rs
unfolding frees
frees-used zero rs = refl
frees-used (suc n) rs = frees-used n rs

frees-zeros : (n : ℕ) → frees (replicate n zero_record) ≡ n
unfolding frees
frees-zeros zero = refl
frees-zeros (suc n) = ap suc (frees-zeros n)

frees-first : (rs : List OpRecord) → frees (zero_record ∷ rs) ≡ suc (frees rs)
unfolding frees
frees-first rs = refl

crowded-Inv : Inv crowded
crowded-Inv = record {
  size = omega (
    arith,
    length-append (replicate 4095 used_record) (replicate 3904 zero_record),
    length-replicate 4095 used_record,
    length-replicate 3904 zero_record,
  );
  counted =
      omega
        (arith, frees-first crowd, frees-used 4095 (replicate 3904 zero_record), frees-zeros 3904);
}

crowded-free_slot : free_slot crowded ≡ 4096
crowded-free_slot =
    omega (arith, used_prefix-used 4095 (replicate 3904 zero_record), used_prefix-zeros 3903)

allocate_op-lost_example :
    let (t', op) = allocate_op none (pos 3) (pos 4) crowded in
    (t'.free_op_count + 1 ≡ crowded.free_op_count)
    × (get_op_record op t' ≡ none)
    × (deallocate_op op t' ≡ (t', false))
allocate_op-lost_example =
    allocate_op-lost none (pos 3) (pos 4) crowded crowded-Inv crowded-free_slot

abbrev letters : ℕ → Bool
letters c = c == 97 || c == 98

-- The variable `a` has the value `b`.
abbrev env : List ℕ → Option (List ℕ)
env [] = none
env (c ∷ s) = if c == 97 then some (98 ∷ []) else none

no_sep_b : last_sep (98 ∷ []) ≡ none
unfolding last_sep
no_sep_b = refl

Used-Inv_example :
    Inv (deallocate_op (pos 16744449) (allocate_op none (pos 3) (negsuc 3) init_operations).0).0
Used-Inv_example =
    Used-Inv
      (deallocate_op (pos 16744449) (allocate_op none (pos 3) (negsuc 3) init_operations).0).0
      (deallocate (pos 16744449) (allocate none (pos 3) (negsuc 3) start))
