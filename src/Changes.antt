-- ===== src/Changes.antt =====
-- hub/hub-monitor.c: ohubHandleMonitoring, which reads the changes of variables out of a packet of a subject and puts them
-- into the table of the hub's monitors. A packet is a function from a position to the byte there, also behind its
-- end. The state of watchers and the memory of strings are not modelled.
pub mod Wire
pub mod Handed
pub mod Readable
pub mod Framed
use okscada.Prelude.{
  ℕ, zero, suc, ◌+◌, ◌-◌, ◌*◌, ◌/◌, ◌%◌, Bool, true, false, not, ◌&&◌, ◌||◌, List, [], ◌∷◌, ◌++◌,
  Option, none, some, length, ltb, leb, ◌==◌, if◌then◌else◌,
}

-- The value of a monitor; for a string `bytes` is what its buffer has.
pub record Value : Type 0 where
  pub type : ℕ
  pub undef : Bool
  pub time : ℕ
  pub len : ℕ
  pub bytes : List ℕ

-- `type` and `len` are those of its quark.
pub record HubMonitor : Type 0 where
  pub ooid : ℕ
  pub type : ℕ
  pub len : ℕ
  pub value : Value

-- What is read of a change before its monitor is sought, and the position behind it.
pub record Received : Type 0 where
  pub ooid : ℕ
  pub type : ℕ
  pub undef : Bool
  pub time : ℕ
  pub len : ℕ
  pub bytes : List ℕ

abbrev pub Packet : Type 0
Packet = ℕ → ℕ

abbrev pub long_in : Packet → ℕ → ℕ
long_in buf p = 16777216 * buf p + (65536 * buf (p + 1) + (256 * buf (p + 2) + buf (p + 3)))

abbrev pub has_bit : ℕ → ℕ → Bool
has_bit b x = (x / b) % 2 == 1

abbrev pub bytes_in : Packet → ℕ → ℕ → List ℕ
bytes_in buf zero p = []
bytes_in buf (suc n) p = buf p ∷ bytes_in buf n (p + 1)

-- The position behind the time, and the length.
abbrev pub after_time : Packet → ℕ → ℕ
after_time buf p = if has_bit 64 (buf (p + 5)) then p + 10 else p + 6

abbrev pub length_in : Packet → ℕ → ℕ
length_in buf p =
    let h = buf (p + 5) in if has_bit 32 h then h % 32 * 256 + buf (after_time buf p) else h % 32

abbrev pub after_length : Packet → ℕ → ℕ
after_length buf p = if has_bit 32 (buf (p + 5)) then after_time buf p + 1 else after_time buf p

abbrev pub received : Packet → ℕ → Received
received buf p =
    let undef = has_bit 128 (buf (p + 5)) in
    record {
      ooid = long_in buf p;
      type = buf (p + 4);
      undef = undef;
      time = if has_bit 64 (buf (p + 5)) then long_in buf (p + 6) else 0;
      len = length_in buf p;
      bytes = if undef then [] else bytes_in buf (length_in buf p) (after_length buf p);
    }

abbrev pub after_change : Packet → ℕ → ℕ
after_change buf p =
    if has_bit 128 (buf (p + 5)) then after_length buf p else after_length buf p + length_in buf p

-- The table is a list here, and not an array that a hash tree leads into.
abbrev pub search_monitor : ℕ → List HubMonitor → Option HubMonitor
search_monitor ooid [] = none
search_monitor ooid (m ∷ ms) =
    let rest = search_monitor ooid ms in if m.ooid == ooid then some m else rest

-- `ohubFindMonitorByOoid`.
abbrev pub find_monitor : ℕ → List HubMonitor → Option HubMonitor
find_monitor ooid ms = if ooid == 0 then none else search_monitor ooid ms

-- A change of another type is undefined: the agent was restarted.
abbrev pub checked : HubMonitor → Received → Received
checked m c = if c.type == m.type then c else record c { undef = true; len = 0; bytes = [] }

-- The length is not that of the variable.
abbrev pub is_wrong : HubMonitor → Received → Bool
is_wrong m c = not (c.type == 115) && not (c.len == m.len)

module _ (rotate : ℕ → List ℕ → List ℕ) where
  -- `rotate` is what ohubRotate does to the bytes of a type.
  abbrev pub value_of : Received → Value
  value_of c = record {
    type = c.type;
    undef = c.undef;
    time = c.time;
    len = if c.undef && c.type == 115 then 0 else c.len;
    bytes = if c.undef then [] else if c.type == 115 then c.bytes else rotate c.type c.bytes;
  }

  abbrev pub set_value : ℕ → Value → List HubMonitor → List HubMonitor
  set_value ooid v [] = []
  set_value ooid v (m ∷ ms) =
      let rest = set_value ooid v ms in
      if m.ooid == ooid then record m { value = v } ∷ ms else m ∷ rest

  -- The table, the ooids that were announced, and `err`.
  abbrev pub Handled : Type 0
  Handled = List HubMonitor × List ℕ × ℕ

  abbrev pub announce : ℕ → Handled → Handled
  announce ooid (ms, told, err) = (ms, ooid ∷ told, err)

  -- A change for a monitor goes on with `rest` of the table it leaves, unless the packet ends before it.
  abbrev pub apply_change :
      Bool → Received → List HubMonitor → (List HubMonitor → Handled) → Option HubMonitor → Handled
  apply_change cut c ms rest none = rest ms
  apply_change cut c ms rest (some m) =
      if is_wrong m (checked m c)
      then (ms, [], 4)
      else if cut
      then (ms, [], 5)
      else announce c.ooid (rest (set_value c.ooid (value_of (checked m c)) ms))

  -- The loop over the changes from a position on.
  abbrev pub handle_changes : Packet → ℕ → ℕ → ℕ → List HubMonitor → Handled
  handle_changes buf len zero p ms = (ms, [], if p == len then 0 else 8)
  handle_changes buf len (suc n) p ms =
      let c = received buf p in
      let rest = handle_changes buf len n (after_change buf p) in
      if ltb len (p + 6)
      then (ms, [], 2)
      else if c.undef && not (c.len == 0)
      then (ms, [], 3)
      else apply_change (ltb len (after_change buf p)) c ms rest (find_monitor c.ooid ms)

  -- `ohubHandleMonitoring`. The result is OK if `err` is 0.
  unfoldable pub handle_monitoring : Packet → ℕ → List HubMonitor → Handled
  handle_monitoring buf len ms =
      if ltb (buf 0) 1 then (ms, [], 1) else handle_changes buf len (buf 0) 1 ms
