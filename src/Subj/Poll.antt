-- ===== src/Subj/Poll.antt =====
-- subj/subj-monitor.c: osubjMonitoring, which reads the monitored variables and sends those that have changed in packets.
-- The bits that `|` joins are apart, so it is written +.
pub mod Filled
pub mod Sent
pub mod Walk
pub mod Kept
use okscada.Prelude.{
  ℕ, zero, suc, ◌+◌, ◌-◌, ◌*◌, ◌/◌, ◌%◌, Bool, true, false, not, ◌&&◌, ◌||◌, List, [], ◌∷◌, ◌++◌,
  Option, none, some, length, ltb, leb, ◌==◌, if◌then◌else◌,
}
use okscada.Subj.{Word, Memory, bits_value, load, get_field}
use okscada.Subj.Access.{Target, at, null_pointer, bad_ptr, address, resolve, has_fields}
use okscada.Subj.Monitors.{Monitor, Node, Heap, Monitors, change}

-- The limits are off at 0. `elapsed` gives the milliseconds since the start when that many variables were read.
pub record Settings : Type 0 where
  pub buf_len : ℕ
  pub max_sent_bytes : ℕ
  pub max_polled_qty : ℕ
  pub max_changed_qty : ℕ
  pub max_time_ms : ℕ
  pub elapsed : ℕ → ℕ
  pub use_time : Bool
  pub cur_time : ℕ
  pub connected : Bool
  pub sel_address : ℕ

-- What a variable is sent with: `undef` is 0, 128 or 1, and `n` the length of its bytes.
pub record Change : Type 0 where
  pub ooid : ℕ
  pub type : ℕ
  pub undef : ℕ
  pub time : Option ℕ
  pub bytes : List ℕ

abbrev pub word_bytes : ℕ → Word → List ℕ
word_bytes zero w = []
word_bytes (suc n) w = bits_value 8 w ∷ word_bytes n (λ i. w (8 + i))

abbrev pub long_bytes : ℕ → List ℕ
long_bytes x = (x / 16777216) % 256 ∷ (x / 65536) % 256 ∷ (x / 256) % 256 ∷ x % 256 ∷ []

abbrev pub time_bytes : Option ℕ → List ℕ
time_bytes none = []
time_bytes (some t) = long_bytes t

abbrev pub time_flag : Option ℕ → ℕ
time_flag none = 0
time_flag (some t) = 64

-- The bytes of a change in a packet.
abbrev pub encode : Change → List ℕ
encode c =
    let n = length c.bytes in
    let flags = c.undef + time_flag c.time in
    let head = if ltb n 32 then n + flags else 32 + (n / 256) % 32 + flags in
    let tail = if ltb n 32 then c.bytes else (n % 256) ∷ c.bytes in
    long_bytes c.ooid ++ (c.type ∷ head ∷ (time_bytes c.time ++ tail))

-- The address of a variable. The offset of a direct pointer is 0.
abbrev pub poll_target : Monitor → Memory → Target
poll_target mon m = if mon.ptr == 68 then address mon.adr else resolve mon.ptr mon.adr mon.off m

-- `undef`, and the two halves of the buffer.
abbrev pub read_value : Monitor → Memory → Target → ℕ × Monitor
read_value mon m (at a) =
    if mon.blen == 0
    then (0, record mon { now = load mon.len m a; before = mon.now })
    else if has_fields mon.len
    then (
      0,
      record mon {
        now = get_field (8 * mon.len) mon.boff mon.blen mon.hibit (load mon.len m a);
        before = mon.now;
      },
    )
    else (1, mon)
read_value mon m null_pointer = (128, mon)
read_value mon m bad_ptr = (128, mon)

abbrev pub same_bytes : List ℕ → List ℕ → Bool
same_bytes [] ys = true
same_bytes (x ∷ xs) [] = true
same_bytes (x ∷ xs) (y ∷ ys) = x == y && same_bytes xs ys

-- `strncmp` gives 0.
abbrev pub same_string : List ℕ → List ℕ → Bool
same_string [] ys = true
same_string (x ∷ xs) [] = true
same_string (x ∷ xs) (y ∷ ys) = x == y && (x == 0 || same_string xs ys)

abbrev pub is_same : Monitor → Bool
is_same mon =
    let now = word_bytes mon.len mon.now in
    let before = word_bytes mon.len mon.before in
    if mon.type == 115 then same_string now before else same_bytes now before

-- A variable is not sent if nothing has changed.
abbrev pub is_quiet : ℕ → Monitor → Bool
is_quiet undef mon =
    (mon.force_count == 0)
    && ((not (undef == 0) && mon.undef) || ((undef == 0 && not mon.undef) && is_same mon))

pub record Packet : Type 0 where
  pub selected : Bool
  pub bytes : List ℕ

-- `mbuf` without its first byte, the counts, and the packets that were sent.
pub record Poll : Type 0 where
  pub body : List ℕ
  pub qty : ℕ
  pub polled_qty : ℕ
  pub changed_qty : ℕ
  pub sent_bytes : ℕ
  pub selected : Bool
  pub sent : List Packet

abbrev pub start_poll : Poll
start_poll = record {
  body = [];
  qty = 0;
  polled_qty = 0;
  changed_qty = 0;
  sent_bytes = 0;
  selected = false;
  sent = [];
}

-- `p` of the source.
abbrev pub used : Poll → ℕ
used st = 1 + length st.body

abbrev pub send : Poll → Poll
send st = record st {
  sent_bytes = st.sent_bytes + used st;
  selected = false;
  sent = st.sent ++ record { selected = st.selected; bytes = st.qty ∷ st.body } ∷ [];
}

abbrev pub emptied : Poll → Poll
emptied st = record st { body = []; qty = 0 }

abbrev pub is_full : Settings → ℕ → Poll → Bool
is_full cfg n st = ltb 254 st.qty || ltb cfg.buf_len (used st + n + 16)

abbrev pub make_room : Settings → ℕ → Poll → Poll
make_room cfg n st =
    if is_full cfg n st then emptied (if cfg.connected && ltb 0 st.qty then send st else st) else st

abbrev pub over : ℕ → ℕ → Bool
over limit n = ltb 0 limit && ltb limit n

-- The loop ends at a limit.
abbrev pub must_stop : Settings → ℕ → Poll → Bool
must_stop cfg n st =
    let st' = make_room cfg n st in
    (is_full cfg n st && over cfg.max_sent_bytes st'.sent_bytes)
    || (over cfg.max_polled_qty st'.polled_qty
        || (over cfg.max_changed_qty st'.changed_qty
            || ((ltb 0 cfg.max_time_ms && st'.polled_qty % 10 == 0)
                && ltb cfg.max_time_ms (cfg.elapsed st'.polled_qty))))

abbrev pub change_of : Settings → ℕ → Monitor → Change
change_of cfg undef mon = record {
  ooid = mon.ooid;
  type = mon.type;
  undef = undef;
  time = if cfg.use_time then some cfg.cur_time else none;
  bytes = if undef == 0 then word_bytes mon.len mon.now else [];
}

abbrev pub is_selected : Settings → Target → Bool
is_selected cfg (at a) = not (cfg.sel_address == 0) && a == cfg.sel_address
is_selected cfg null_pointer = false
is_selected cfg bad_ptr = false

abbrev pub put_change : Bool → Change → Poll → Poll
put_change sel c st = record st {
  body = st.body ++ encode c;
  qty = st.qty + 1;
  changed_qty = st.changed_qty + 1;
  selected = sel || st.selected;
}

-- What follows the read: the record, and the buffer with the change if there is one.
abbrev pub note : Settings → Target → ℕ → Monitor → Poll → Monitor × Poll
note cfg t undef mon st = if is_quiet undef mon then (mon, st) else (
  record mon { undef = not (undef == 0); force_count = mon.force_count - 1 },
  put_change (is_selected cfg t) (change_of cfg undef mon) st,
)

abbrev pub visit : Settings → Memory → Monitor → Poll → Monitor × Poll
visit cfg m mon st =
    let t = poll_target mon m in
    let (undef, mon') = read_value mon m t in
    note cfg t undef mon' (record st { polled_qty = st.polled_qty + 1 })

abbrev pub with_mon : Monitor → Option Node → Option Node
with_mon mon none = none
with_mon mon (some nd) = some (record nd { mon = mon })

-- A record with no ooid, or one whose bytes never fit, is passed over.
abbrev pub is_passed_over : Settings → Monitor → Bool
is_passed_over cfg mon = mon.ooid == 0 || ltb cfg.buf_len (mon.len + 16)

-- The loop from a record on. The fuel is the number of records.
abbrev pub poll : Settings → Memory → ℕ → Heap → Option ℕ → Poll → Heap × Option ℕ × Poll
poll cfg m zero h p st = (h, p, st)
poll cfg m (suc n) h none st = (h, none, st)
poll cfg m (suc n) h (some p) st = elim (h p) [
  | none ↦ (h, none, st)
  | some nd ↦ elim (is_passed_over cfg nd.mon) [
    | true ↦ poll cfg m n h nd.next st
    | false ↦ elim (must_stop cfg nd.mon.len st) [
      | true ↦ (h, some p, make_room cfg nd.mon.len st)
      | false ↦
          poll cfg m n (change h p (with_mon (visit cfg m nd.mon (make_room cfg nd.mon.len st)).0))
            nd.next (visit cfg m nd.mon (make_room cfg nd.mon.len st)).1
    ]
  ]
]

abbrev pub or_first_mon : Option ℕ → Option ℕ → Option ℕ
or_first_mon none p = p
or_first_mon (some c) p = some c

-- The last packet, and the result.
abbrev pub finish : Settings → Poll → Poll × Bool
finish cfg st =
    if st.qty == 0 then (st, true) else if cfg.connected then (send st, true) else (st, false)

-- `osubjMonitoring`, with memory for its buffer, where it is `running`. The result of osubjSendPacket is taken to be OK.
unfoldable pub monitoring : Settings → Memory → Bool → Monitors → Monitors × Bool × List Packet
monitoring cfg m running s =
    if not running
    then (s, false, [])
    else if s.mon_qty == 0
    then (s, true, [])
    else (let (h, p, st) =
          poll cfg m s.mon_qty s.heap (or_first_mon s.cur_mon s.first_mon) start_poll in
        (record s { heap = h; cur_mon = p }, (finish cfg st).1, (finish cfg st).0.sent))
