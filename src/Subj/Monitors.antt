-- ===== src/Subj/Monitors.antt =====
-- subj/subj-monitor.c: the monitors of a subject, a doubly linked list of records in memory, with osubjHandleDataReg,
-- osubjHandleDataUnreg and osubjHandleDataGroupUnreg. A pointer is the address of a record, and NULL is `none`.
-- `heap` gives the record at an address that is allocated.
pub mod Segs
pub mod Relink
pub mod Links
pub mod Found
pub mod Handlers
pub mod Registered
pub mod Runs
pub mod Reach
use okscada.Prelude.{
  ℕ, zero, suc, ◌+◌, ◌-◌, ◌*◌, Bool, true, false, not, ◌&&◌, ◌||◌, List, [], ◌∷◌, Option, none,
  some, ltb, leb, ◌==◌, if◌then◌else◌,
}
use okscada.Subj.{Word, Memory, byte_at, net_long, net_short}
use okscada.Subj.Access.{plus, hibit}

-- `now` and `before` are the two halves of `buf`.
pub record Monitor : Type 0 where
  pub ooid : ℕ
  pub adr : ℕ
  pub off : ℕ
  pub len : ℕ
  pub boff : ℕ
  pub blen : ℕ
  pub ptr : ℕ
  pub type : ℕ
  pub undef : Bool
  pub hibit : Bool
  pub force_count : ℕ
  pub now : Word
  pub before : Word

pub record Node : Type 0 where
  pub mon : Monitor
  pub next : Option ℕ
  pub prev : Option ℕ

abbrev pub Heap : Type 0
Heap = ℕ → Option Node

pub record Monitors : Type 0 where
  pub heap : Heap
  pub first_mon : Option ℕ
  pub last_mon : Option ℕ
  pub cur_mon : Option ℕ
  pub mon_qty : ℕ

abbrev pub change : Heap → ℕ → (Option Node → Option Node) → Heap
change h p f x = if x == p then f (h x) else h x

abbrev pub with_next : Option ℕ → Option Node → Option Node
with_next nx none = none
with_next nx (some nd) = some (record nd { next = nx })

abbrev pub with_prev : Option ℕ → Option Node → Option Node
with_prev pv none = none
with_prev pv (some nd) = some (record nd { prev = pv })

-- `p->next = nx` and `p->prev = pv`, under `if (p)`.
abbrev pub set_next : Heap → Option ℕ → Option ℕ → Heap
set_next h none nx = h
set_next h (some p) nx = change h p (with_next nx)

abbrev pub set_prev : Heap → Option ℕ → Option ℕ → Heap
set_prev h none pv = h
set_prev h (some p) pv = change h p (with_prev pv)

abbrev pub points_to : Option ℕ → ℕ → Bool
points_to none p = false
points_to (some x) p = x == p

abbrev pub or_first : Option ℕ → ℕ → Option ℕ
or_first none p = some p
or_first (some x) p = some x

-- `osubjAllocateMonitor`, with the record that its caller writes, at the address that osubjNew gives.
abbrev pub allocate_monitor : ℕ → Monitor → Monitors → Monitors
allocate_monitor p mon s = record s {
  heap =
      set_next (change s.heap p (λ o. some (record { mon = mon; next = none; prev = s.last_mon })))
        s.last_mon (some p);
  first_mon = or_first s.first_mon p;
  last_mon = some p;
  mon_qty = s.mon_qty + 1;
}

abbrev pub freed : Option Node → Option Node
freed o = none

-- `osubjDeallocateMonitor` of the record `nd` at `p`.
abbrev pub deallocate_monitor : ℕ → Node → Monitors → Monitors
deallocate_monitor p nd s = record s {
  heap = change (set_next (set_prev s.heap nd.next nd.prev) nd.prev nd.next) p freed;
  first_mon = if points_to s.first_mon p then nd.next else s.first_mon;
  last_mon = if points_to s.last_mon p then nd.prev else s.last_mon;
  mon_qty = s.mon_qty - 1;
}

-- The record for an ooid that the links from a pointer lead to. The fuel is the number of records.
abbrev pub follow : (Node → Option ℕ) → Heap → ℕ → ℕ → Option ℕ → Option (ℕ × Node)
follow step h ooid zero p = none
follow step h ooid (suc n) none = none
follow step h ooid (suc n) (some p) = elim (h p) [
  | none ↦ none
  | some nd ↦
      let rest = follow step h ooid n (step nd) in
      if nd.mon.ooid == ooid then some (p, nd) else rest
]

abbrev pub find_forward : ℕ → Monitors → Option (ℕ × Node)
find_forward ooid s = follow (λ nd. nd.next) s.heap ooid s.mon_qty s.first_mon

abbrev pub find_backward : ℕ → Monitors → Option (ℕ × Node)
find_backward ooid s = follow (λ nd. nd.prev) s.heap ooid s.mon_qty s.last_mon

pub data Reply : Type 0 where
  reg_ack : ℕ → Reply
  reg_nak : ℕ → Reply
  unreg_ack : ℕ → Reply
  unreg_nak : ℕ → Reply

-- `send_rc` is what osubjAddDataMonReply returns.
abbrev pub remove_found : Bool → ℕ → Monitors → Option (ℕ × Node) → Monitors × Bool × Reply
remove_found send_rc ooid s none = (s, false, unreg_nak ooid)
remove_found send_rc ooid s (some (p, nd)) = (
  deallocate_monitor p nd
      (record s { cur_mon = if points_to s.cur_mon p then nd.next else s.cur_mon }),
  send_rc,
  unreg_ack ooid,
)

-- `osubjUnregisterMonitoring`.
unfoldable pub unregister_monitoring : Bool → ℕ → Monitors → Monitors × Bool × Reply
unregister_monitoring send_rc ooid s = remove_found send_rc ooid s (find_backward ooid s)

-- The variable in a packet of osubjHandleDataReg. The offset of a direct pointer goes to the address.
abbrev pub requested : Memory → Monitor
requested buf =
    let direct = byte_at buf 14 == 68 in
    record {
      ooid = net_long buf 0;
      adr = if direct then plus (net_long buf 4) (net_long buf 8) else net_long buf 4;
      off = if direct then 0 else net_long buf 8;
      len = net_short buf 12;
      boff = byte_at buf 16;
      blen = byte_at buf 17;
      ptr = byte_at buf 14;
      type = byte_at buf 15;
      undef = false;
      hibit = hibit (byte_at buf 15);
      force_count = 1;
      now = λ i. false;
      before = λ i. false;
    }

abbrev pub is_pointer_kind : ℕ → Bool
is_pointer_kind ptr = ptr == 68 || (ptr == 73 || (ptr == 82 || ptr == 80))

abbrev pub is_found : Option (ℕ × Node) → Bool
is_found none = false
is_found (some x) = true

-- The tests of osubjHandleDataReg before it allocates. A length from 32768 on is negative as a short.
abbrev pub is_refused : Monitor → Monitors → Bool
is_refused mon s =
    mon.ooid == 0
    || (is_found (find_forward mon.ooid s)
        || (not (is_pointer_kind mon.ptr) || (mon.len == 0 || leb 4192 mon.len)))

abbrev pub add_monitor : Option ℕ → Monitor → Monitors → Monitors × Bool × Reply
add_monitor none mon s = (s, false, reg_nak mon.ooid)
add_monitor (some p) mon s = (allocate_monitor p mon s, true, reg_ack mon.ooid)

-- `osubjHandleDataReg` of a packet of 18 bytes. `new` is the address that osubjNew gives.
unfoldable pub register_monitor : Option ℕ → Memory → Monitors → Monitors × Bool × Reply
register_monitor new buf s =
    let mon = requested buf in
    if is_refused mon s then (s, false, reg_nak mon.ooid) else add_monitor new mon s
