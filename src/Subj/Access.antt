-- ===== src/Subj/Access.antt =====
-- subj/subj-monitor.c: osubjHandleDataRead, osubjHandleDataWrite and osubjEverWrite. A packet is memory from its first
-- byte on. Where the memory at an address cannot be accessed the source's process ends; such
-- faults are not modelled.
pub mod Confined
pub mod Back
pub mod Permitted
use okscada.Prelude.{
  ℕ, zero, suc, ◌+◌, ◌*◌, ◌%◌, Bool, true, false, not, ◌&&◌, ◌||◌, List, [], ◌∷◌, Option, none,
  some, ltb, leb, ◌==◌, if◌then◌else◌, set, replicate,
}
use okscada.Prelude.Int.{ℤ, pos, negsuc}
use okscada.Subj.{
  Word, Memory, load, store, get_field, set_field, byte_at, long_at, net_long, net_short,
}

-- What the two handlers use of the state: the variables are in `memory`.
pub record Subject : Type 0 where
  pub initialized : Bool
  pub aborted : Bool
  pub ever_write : List ℕ
  pub ban_write : Bool
  pub memory : Memory

pub record DataRequest : Type 0 where
  pub id : ℕ
  pub adr : ℕ
  pub off : ℕ
  pub n : ℕ
  pub ptr : ℕ
  pub type : ℕ
  pub boff : ℕ
  pub blen : ℕ

abbrev pub parse_request : Memory → DataRequest
parse_request buf = record {
  id = net_long buf 0;
  adr = net_long buf 8;
  off = net_long buf 12;
  n = net_short buf 16;
  ptr = byte_at buf 18;
  type = byte_at buf 19;
  boff = byte_at buf 20;
  blen = byte_at buf 21;
}

-- `NULL_ADDR`: from -8 to 0, as an address of 32 bits.
abbrev pub null_addr : ℕ → Bool
null_addr a = a == 0 || leb 4294967288 a

-- What the `switch` on the kind of pointer comes to.
pub data Target : Type 0 where
  at : ℕ → Target
  null_pointer : Target
  bad_ptr : Target

abbrev pub address : ℕ → Target
address a = if null_addr a then null_pointer else at a

abbrev pub plus : ℕ → ℕ → ℕ
plus a off = (a + off) % 4294967296

-- The kinds of pointers are the characters D, I, R and P.
abbrev pub resolve : ℕ → ℕ → ℕ → Memory → Target
resolve ptr adr off m =
    if ptr == 68
    then address (plus adr off)
    else if ptr == 73
    then (if null_addr adr then null_pointer else address (long_at m (plus adr off)))
    else if ptr == 82
    then (if null_addr adr then null_pointer else address (plus (long_at m adr) off))
    else if ptr == 80
    then (if null_addr adr || null_addr (plus (long_at m adr) off)
        then null_pointer
        else address (long_at m (plus (long_at m adr) off)))
    else bad_ptr

abbrev pub target : DataRequest → Memory → Target
target r m = resolve r.ptr r.adr r.off m

abbrev pub bad_length : ℕ → Bool
bad_length n = n == 0 || leb 4192 n

abbrev pub has_fields : ℕ → Bool
has_fields n = n == 4 || (n == 2 || n == 1)

-- The types b, h, i, l and q are signed.
abbrev pub hibit : ℕ → Bool
hibit type = type == 98 || (type == 104 || (type == 105 || (type == 108 || type == 113)))

abbrev pub holds : ℕ → List ℕ → Bool
holds a [] = false
holds a (x ∷ xs) = x == a || holds a xs

pub record WriteReply : Type 0 where
  pub id : ℕ
  pub err : ℤ

abbrev pub write_at : Memory → DataRequest → ℕ → Memory → Memory × ℤ
write_at buf r a m =
    if r.blen == 0
    then (store r.n m a (load r.n buf 24), pos 0)
    else if has_fields r.n
    then (store r.n m a (set_field (8 * r.n) r.boff r.blen (load r.n m a) (load r.n buf 24)), pos 0)
    else (m, negsuc 0)

abbrev pub write_target : Subject → Memory → DataRequest → Target → Memory × ℤ
write_target s buf r (at a) =
    if s.ban_write && not (not (a == 0) && holds a s.ever_write)
    then (s.memory, negsuc 0)
    else write_at buf r a s.memory
write_target s buf r null_pointer = (s.memory, negsuc 126)
write_target s buf r bad_ptr = (s.memory, negsuc 0)

abbrev pub write_data : Subject → Memory → DataRequest → Memory × ℤ
write_data s buf r =
    if bad_length r.n then (s.memory, negsuc 0) else write_target s buf r (target r s.memory)

abbrev pub write_reply : Subject → DataRequest → Memory × ℤ → Subject × Option WriteReply
write_reply s r (m, err) = (record s { memory = m }, some (record { id = r.id; err = err }))

-- `osubjHandleDataWrite`. `none`: it returns ERROR and sends no reply.
unfoldable pub handle_data_write : Subject → ℕ → Memory → Subject × Option WriteReply
handle_data_write s len buf =
    let r = parse_request buf in
    if not s.initialized || s.aborted
    then (s, none)
    else if ltb len 25
    then (s, none)
    else if not (len == 24 + r.n)
    then (s, none)
    else write_reply s r (write_data s buf r)

-- `bytes` are those behind the header, `none` where the source leaves them as they were.
pub record ReadReply : Type 0 where
  pub id : ℕ
  pub err : ℤ
  pub plen : ℕ
  pub bytes : Option Word

abbrev pub read_at : DataRequest → ℕ → Memory → Option Word
read_at r a m =
    if r.blen == 0
    then some (load r.n m a)
    else if has_fields r.n
    then some (get_field (8 * r.n) r.boff r.blen (hibit r.type) (load r.n m a))
    else none

abbrev pub failed_read : DataRequest → ℤ → ReadReply
failed_read r err = record { id = r.id; err = err; plen = 6; bytes = none }

abbrev pub read_target : DataRequest → Memory → Target → ReadReply
read_target r m (at a) = record { id = r.id; err = pos 0; plen = 8 + r.n; bytes = read_at r a m }
read_target r m null_pointer = failed_read r (negsuc 126)
read_target r m bad_ptr = failed_read r (negsuc 126)

-- `osubjHandleDataRead`. `has_memory` says if osubjNew gives a buffer for a long reply.
unfoldable pub handle_data_read : Bool → Subject → ℕ → Memory → Option ReadReply
handle_data_read has_memory s len buf =
    let r = parse_request buf in
    if not s.initialized || s.aborted
    then none
    else if not (len == 24)
    then none
    else if bad_length r.n
    then some (failed_read r (negsuc 1))
    else if not (ltb (r.n + 32) 128) && not has_memory
    then some (failed_read r (negsuc 2))
    else some (read_target r s.memory (target r s.memory))

-- The first slot that holds `old` is given `new`. `none`: there is no such slot.
abbrev pub replace_first : ℕ → ℕ → List ℕ → Option (List ℕ)
replace_first old new [] = none
replace_first old new (x ∷ xs) =
    let rest = replace_first old new xs in
    if x == old then some (new ∷ xs) else elim rest [ none ↦ none | some ys ↦ some (x ∷ ys) ]

abbrev pub or_error : List ℕ → Option (List ℕ) → List ℕ × Bool
or_error t none = (t, false)
or_error t (some u) = (u, true)

-- `osubjEverWrite`, on the table of the addresses that may be written, where 0 is an empty slot.
unfoldable pub ever_write : ℕ → Bool → List ℕ → List ℕ × Bool
ever_write adr enable t =
    if enable
    then (if holds adr t then (t, true) else or_error t (replace_first 0 adr t))
    else or_error t (replace_first adr 0 t)

-- `OSUBJ_MAX_EVER_WRITE` empty slots.
abbrev pub no_ever_write : List ℕ
no_ever_write = replicate 32 0
