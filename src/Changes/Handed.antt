-- ===== src/Changes/Handed.antt =====
-- What the hub does with a packet of changes.
use okscada.Prelude.{
  ℕ, zero, suc, ◌+◌, ◌≤◌, ◌≡◌, inl, inr, refl, sym, ap, ◌∙◌, subst, Bool, true, false, not, ◌&&◌,
  ◌||◌, none, some, Bool-cases, Option-cases, List, [], ◌∷◌, ◌++◌, Option, length, length-append,
  ltb, ◌==◌, if◌then◌else◌, arith,
}
use okscada.Changes.{
  Packet, Received, Value, HubMonitor, received, after_change, search_monitor, find_monitor,
  checked, is_wrong, value_of, set_value, Handled, apply_change, handle_changes, handle_monitoring,
}
use okscada.Subj.Poll.{Change, encode}
use okscada.Changes.Wire.{
  Agrees, Agrees-append, IsWritable, as_received, time_value, received-encode,
}

-- The changes behind each other.
abbrev pub encode_all : List Change → List ℕ
encode_all [] = []
encode_all (c ∷ cs) = encode c ++ encode_all cs

abbrev pub AllWritable : List Change → Type 0
AllWritable [] = Unit {0}
AllWritable (c ∷ cs) = IsWritable c × AllWritable cs

-- The first monitor of an ooid, of which 0 is none.
abbrev pub monitor_of : ℕ → List HubMonitor → Option HubMonitor
monitor_of zero ms = none
monitor_of (suc n) [] = none
monitor_of (suc n) (m ∷ ms) = if m.ooid == suc n then some m else monitor_of (suc n) ms

monitor_of-search :
    (n : ℕ) (ms : List HubMonitor) → search_monitor (suc n) ms ≡ monitor_of (suc n) ms
monitor_of-search n [] = refl
monitor_of-search n (m ∷ ms) =
    ap (λ o. if m.ooid == suc n then some m else o) (monitor_of-search n ms)

monitor_of_lem : (n : ℕ) (ms : List HubMonitor) → find_monitor n ms ≡ monitor_of n ms
monitor_of_lem zero ms = refl
monitor_of_lem (suc n) ms =
    let z : (suc n == 0) ≡ false = ground arith in rw z (monitor_of-search n ms)

-- The first monitor of an ooid gets a value.
abbrev pub store_value : ℕ → Value → List HubMonitor → List HubMonitor
store_value n v [] = []
store_value n v (m ∷ ms) =
    if m.ooid == n
    then record { ooid = m.ooid; type = m.type; len = m.len; value = v } ∷ ms
    else m ∷ store_value n v ms

abbrev pub is_defined : Change → HubMonitor → Bool
is_defined c m = c.undef == 0 && c.type == m.type

-- A string has any length; any other variable its own, also where the change is undefined or of another type.
abbrev pub fits_monitor : Change → HubMonitor → Bool
fits_monitor c m = c.type == 115 || (if c.type == m.type then length c.bytes else 0) == m.len

module _ (rotate : ℕ → List ℕ → List ℕ) where
  -- A change that is undefined or of another type leaves an undefined value without bytes.
  abbrev pub taken_value : Change → HubMonitor → Value
  taken_value c m =
      if is_defined c m
      then record {
        type = c.type;
        undef = false;
        time = time_value c.time;
        len = length c.bytes;
        bytes = if c.type == 115 then c.bytes else rotate c.type c.bytes;
      }
      else record { type = c.type; undef = true; time = time_value c.time; len = 0; bytes = [] }

  -- The changes one after the other, up to the first whose length is not the one of its variable.
  -- The table, the ooids whose watchers are told, and the error.
  abbrev pub apply_all : List Change → List HubMonitor → Handled rotate
  apply_all [] ms = (ms, [], 0)
  apply_all (c ∷ cs) ms = elim (monitor_of c.ooid ms) [
    | none ↦ apply_all cs ms
    | some m ↦
        let next = apply_all cs (store_value c.ooid (taken_value c m) ms) in
        if fits_monitor c m then (next.0, c.ooid ∷ next.1, next.2) else (ms, [], 4)
  ]

  store_value_lem :
      (n : ℕ) (v : Value) (ms : List HubMonitor) → set_value rotate n v ms ≡ store_value n v ms
  store_value_lem n v [] = refl
  store_value_lem n v (m ∷ ms) =
      ap (λ o. if m.ooid == n then record m { value = v } ∷ ms else m ∷ o) (store_value_lem n v ms)

  value_lem :
      (c : Change) (m : HubMonitor)
      → IsWritable c
      → value_of rotate (checked m (as_received c)) ≡ taken_value c m
  value_lem c m w = elim (Bool-cases (c.type == m.type)) [
    | inr e ↦ rw e (elim (Bool-cases (c.undef == 0)) [
      | inl z ↦ rw z (elim (Bool-cases (c.type == 115)) [ inl y ↦ rw y refl | inr y ↦ rw y refl ])
      | inr z ↦ rw z (elim (Bool-cases (c.type == 115)) [ inl y ↦ rw y refl | inr y ↦ rw y refl ])
    ])
    | inl e ↦ elim w.undef_ok [
      | inl z ↦ rw (e, z) refl
      | inr (z, b) ↦
          rw (e, z, b) (elim (Bool-cases (c.type == 115)) [ inl y ↦ rw y refl | inr y ↦ rw y refl ])
    ]
  ]

  wrong_lem :
      (c : Change) (m : HubMonitor)
      → is_wrong m (checked m (as_received c)) ≡ not (fits_monitor c m)
  wrong_lem c m = elim (Bool-cases (c.type == m.type)) [
    | inl e ↦ rw e (de_morgan (c.type == 115) (length c.bytes == m.len))
    | inr e ↦ rw e (de_morgan (c.type == 115) (0 == m.len))
  ]
    where
      de_morgan : (a b : Bool) → (not a && not b) ≡ not (a || b)
      de_morgan true b = refl
      de_morgan false b = refl

  -- The code's own handling of a change is the one that is described here.
  apply_change_lem :
      (c : Change) (cs : List Change) (ms : List HubMonitor)
      → IsWritable c
      → apply_change rotate false (as_received c) ms (apply_all cs) (find_monitor c.ooid ms)
        ≡ apply_all (c ∷ cs) ms
  apply_change_lem c cs ms w =
      ap (λ o. apply_change rotate false (as_received c) ms (apply_all cs) o)
        (monitor_of_lem c.ooid ms)
      ∙ elim (Option-cases (monitor_of c.ooid ms)) [
        | inl e ↦ rw (e, apply_all) refl
        | inr (m, e) ↦
            rw (e, apply_all)
              (let v = value_lem c m w in
                let q = store_value_lem c.ooid (taken_value c m) ms in
                elim (Bool-cases (fits_monitor c m)) [
                  | inl f ↦ rw (wrong_lem c m, f, v, q) refl
                  | inr f ↦ rw (wrong_lem c m, f) refl
                ])
      ]

  abbrev turn :
      ℕ → ℕ → Received → ℕ → List HubMonitor → (List HubMonitor → Handled rotate) → Handled rotate
  turn len p c q ms rest =
      if ltb len (p + 6)
      then (ms, [], 2)
      else if c.undef && not (c.len == 0)
      then (ms, [], 3)
      else apply_change rotate (ltb len q) c ms rest (find_monitor c.ooid ms)

  handle_changes-turn :
      (buf : Packet) (len n p : ℕ) (ms : List HubMonitor)
      → handle_changes rotate buf len (suc n) p ms
        ≡ turn len p
            (received buf p)
            (after_change buf p)
            ms
            (handle_changes rotate buf len n (after_change buf p))
  handle_changes-turn buf len n p ms = refl

  writable_empty :
      (c : Change) → IsWritable c → (not (c.undef == 0) && not (length c.bytes == 0)) ≡ false
  writable_empty c w = elim w.undef_ok [ inl z ↦ rw z refl | inr (z, b) ↦ rw (z, b) refl ]

  -- The tests of a turn at a change that is whole.
  turn-whole :
      (len p q : ℕ) (c : Change) (ms : List HubMonitor) (rest : List HubMonitor → Handled rotate)
      → IsWritable c
      → p + 6 ≤ len
      → q ≤ len
      → turn len p (as_received c) q ms rest
        ≡ apply_change rotate false (as_received c) ms rest (find_monitor c.ooid ms)
  turn-whole len p q c ms rest w h h' =
      let a : ltb len (p + 6) ≡ false = ground (arith, h) in
      let b : ltb len q ≡ false = ground (arith, h') in rw (a, writable_empty c w, b) refl

  encode-long : (c : Change) → 6 ≤ length (encode c)
  encode-long c = omega arith

  apply_change-ext :
      (c : Received) (ms : List HubMonitor) (f g : List HubMonitor → Handled rotate)
      (o : Option HubMonitor)
      → ((x : List HubMonitor) → f x ≡ g x)
      → apply_change rotate false c ms f o ≡ apply_change rotate false c ms g o
  apply_change-ext c ms f g o e = ap (λ h. apply_change rotate false c ms h o) (λ i. λ x. e x i)

  handle_changes-encode_all :
      (buf : Packet) (len : ℕ) (cs : List Change) (p : ℕ)
      → AllWritable cs
      → Agrees buf p (encode_all cs)
      → len ≡ p + length (encode_all cs)
      → (ms : List HubMonitor) → handle_changes rotate buf len (length cs) p ms ≡ apply_all cs ms
  handle_changes-encode_all buf len [] p w a e ms =
      let b : (p == len) ≡ true = ground (arith, e) in rw b refl
  handle_changes-encode_all buf len (c ∷ cs) p (w, ws) a e ms =
      let (b, d) = Agrees-append buf p (encode c) (encode_all cs) a in
      let (r, q) = received-encode buf p c w b in
      let n = length cs in
      let l = length-append (encode c) (encode_all cs) in
      handle_changes-turn buf len n p ms
      ∙ ap
          (λ x.
            turn len p x (after_change buf p) ms
              (handle_changes rotate buf len n (after_change buf p)))
          r
      ∙ turn-whole len p (after_change buf p) c ms
          (handle_changes rotate buf len n (after_change buf p)) w
          (omega (arith, e, l, encode-long c)) (omega (arith, e, l, q))
      ∙ apply_change-ext (as_received c) ms (handle_changes rotate buf len n (after_change buf p))
          (apply_all cs) (find_monitor c.ooid ms)
          (handle_changes-encode_all buf len cs (after_change buf p) ws
            (subst (λ z. Agrees buf z (encode_all cs)) (sym q) d) (omega (arith, e, l, q)))
      ∙ apply_change_lem c cs ms w

  -- From a packet with the number of changes and what osubjMonitoring writes for each, of which there are some, with
  -- numbers in their widths and undefined ones without bytes and marked by 128, ohubHandleMonitoring takes just these
  -- changes. One without a monitor is passed over. One with a monitor stores its type and time and its bytes, rotated
  -- unless they are a string, or stores an undefined value where it is undefined or of another type than
  -- the variable; and it is announced. At the first change of no string whose length, which is
  -- 0 for another type, is not that of its variable, the error is 4 and the rest is left; else there is
  -- no error.
  pub handle_monitoring-encode_all :
      (buf : Packet) (cs : List Change) (ms : List HubMonitor)
      → 1 ≤ length cs
      → AllWritable cs
      → Agrees buf 0 (length cs ∷ encode_all cs)
      → handle_monitoring rotate buf (1 + length (encode_all cs)) ms ≡ apply_all cs ms
  unfolding handle_monitoring
  handle_monitoring-encode_all buf cs ms h w (e, a) =
      let len = 1 + length (encode_all cs) in
      let b : ltb (buf 0) 1 ≡ false = ground (arith, e, h) in
      rw b (
        subst (λ n. handle_changes rotate buf len n 1 ms ≡ apply_all cs ms) (sym e)
          (handle_changes-encode_all buf len cs 1 w a refl ms))
