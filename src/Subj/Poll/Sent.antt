-- ===== src/Subj/Poll/Sent.antt =====
-- What is in the packets that osubjMonitoring sends.
use okscada.Prelude.{
  ℕ, zero, suc, ◌+◌, ◌≤◌, ◌<◌, ◌≡◌, ◌⊎◌, inl, inr, refl, subst, Bool, true, false, not, ◌||◌, [],
  Option, none, some, length, ◌==◌, if◌then◌else◌, arith, Bool-cases, Option-cases,
}
use okscada.Subj.{Memory}
use okscada.Subj.Access.{Target, at, null_pointer, bad_ptr, has_fields}
use okscada.Subj.Monitors.{Monitor, Node, Heap, Monitors, change}
use okscada.Subj.Poll.{
  Settings, poll_target, read_value, is_quiet, Poll, start_poll, used, send, make_room, must_stop,
  change_of, is_selected, note, visit, with_mon, is_passed_over, poll, or_first_mon, finish,
  monitoring,
}
use okscada.Changes.Wire.{IsWritable, time_value}
use okscada.Subj.Poll.Filled.{
  AllSound, IsFilled, IsSendable, length-word_bytes, make_room-Filled, put_change-Filled,
  send-Filled,
}

time_small :
    (cfg : Settings)
    → cfg.cur_time < 4294967296
    → time_value (if cfg.use_time then some cfg.cur_time else none) < 4294967296
time_small cfg t = elim (Bool-cases cfg.use_time) [ inl e ↦ rw e t | inr e ↦ rw e (omega arith) ]

-- A change of a monitor whose value was read, or is undefined.
change_of-Writable :
    (cfg : Settings) (undef : ℕ) (mon : Monitor)
    → cfg.cur_time < 4294967296
    → IsSendable mon
    → (undef ≡ 0) ⊎ (undef ≡ 128)
    → IsWritable (change_of cfg undef mon) × (length (change_of cfg undef mon).bytes ≤ mon.len)
change_of-Writable cfg undef mon t s u =
    let l = length-word_bytes mon.len mon.now in
    elim u [
      | inl z ↦ rw z (
        record {
          ooid_ok = s.ooid_ok;
          time_ok = time_small cfg t;
          length_ok = omega (arith, l, s.len_ok);
          undef_ok = inl refl;
        },
        omega (arith, l),
      )
      | inr z ↦ rw z (
        record {
          ooid_ok = s.ooid_ok;
          time_ok = time_small cfg t;
          length_ok = omega arith;
          undef_ok = inr (refl, refl);
        },
        omega arith,
      )
    ]

-- What a read comes to, for a monitor that can be sent.
record IsRead (mon : Monitor) (r : ℕ × Monitor) : Type 0 where
  undef_ok : (r.0 ≡ 0) ⊎ (r.0 ≡ 128)
  sendable : IsSendable r.1
  same_len : r.1.len ≡ mon.len

read_value-Read :
    (mon : Monitor) (m : Memory) (t : Target) → IsSendable mon → IsRead mon (read_value mon m t)
read_value-Read mon m (at a) s = elim (Bool-cases (mon.blen == 0)) [
  | inl e ↦ rw e (record {
    undef_ok = inl refl;
    sendable = record { ooid_ok = s.ooid_ok; len_ok = s.len_ok; field_ok = s.field_ok };
    same_len = refl;
  })
  | inr e ↦ elim (Bool-cases (has_fields mon.len)) [
    | inl f ↦
        rw (e, f)
          (record {
            undef_ok = inl refl;
            sendable = record { ooid_ok = s.ooid_ok; len_ok = s.len_ok; field_ok = s.field_ok };
            same_len = refl;
          })
    | inr f ↦ absurd (no_field (mon.blen == 0) (has_fields mon.len) e f s.field_ok)
  ]
]
  where
    no_field : (a b : Bool) → a ≡ false → b ≡ false → (a || b) ≡ true → ⊥
    no_field a b e f g = grind (arith, e, f, g)
read_value-Read mon m null_pointer s = record { undef_ok = inr refl; sendable = s; same_len = refl }
read_value-Read mon m bad_ptr s = record { undef_ok = inr refl; sendable = s; same_len = refl }

note-Filled :
    (cfg : Settings) (t : Target) (undef : ℕ) (mon : Monitor) (st : Poll)
    → cfg.cur_time < 4294967296
    → IsSendable mon
    → (undef ≡ 0) ⊎ (undef ≡ 128)
    → IsFilled cfg 254 st
    → used st + mon.len + 15 ≤ cfg.buf_len
    → IsFilled cfg 255 (note cfg t undef mon st).1 × IsSendable (note cfg t undef mon st).0
note-Filled cfg t undef mon st time s u f r = elim (Bool-cases (is_quiet undef mon)) [
  | inl e ↦ rw e (
    record {
      changes = f.changes;
      written = f.written;
      counted = f.counted;
      few_changes = omega (arith, f.few_changes);
      fits = f.fits;
      writable = f.writable;
      all_sound = f.all_sound;
    },
    s,
  )
  | inr e ↦ rw e (
      let (w, l) = change_of-Writable cfg undef mon time s u in
      (
        put_change-Filled cfg (is_selected cfg t) (change_of cfg undef mon) st f w
            (omega (arith, r, l)),
        record { ooid_ok = s.ooid_ok; len_ok = s.len_ok; field_ok = s.field_ok },
      ))
]

visit-Filled :
    (cfg : Settings) (m : Memory) (mon : Monitor) (st : Poll)
    → cfg.cur_time < 4294967296
    → IsSendable mon
    → IsFilled cfg 254 st
    → used st + mon.len + 15 ≤ cfg.buf_len
    → IsFilled cfg 255 (visit cfg m mon st).1 × IsSendable (visit cfg m mon st).0
visit-Filled cfg m mon st time s f r =
    let t = poll_target mon m in
    let v = read_value-Read mon m t s in
    let l : (read_value mon m t).1.len ≡ mon.len = v.same_len in
    note-Filled cfg t (read_value mon m t).0 (read_value mon m t).1
      (record st { polled_qty = st.polled_qty + 1 }) time v.sendable v.undef_ok
      (record {
        changes = f.changes;
        written = f.written;
        counted = f.counted;
        few_changes = f.few_changes;
        fits = f.fits;
        writable = f.writable;
        all_sound = f.all_sound;
      })
      (omega (arith, r, l))

abbrev pub NodeSendable : Option Node → Type 0
NodeSendable none = Unit {0}
NodeSendable (some nd) = IsSendable nd.mon

abbrev pub HeapSendable : Heap → Type 0
HeapSendable h = (p : ℕ) → NodeSendable (h p)

change-Sendable :
    (h : Heap) (p : ℕ) (mon : Monitor)
    → HeapSendable h
    → IsSendable mon
    → HeapSendable (change h p (with_mon mon))
change-Sendable h p mon a s q = elim (Bool-cases (q == p)) [
  | inl e ↦ rw e (with_mon-Sendable (h q))
  | inr e ↦ rw e (a q)
]
  where
    with_mon-Sendable : (o : Option Node) → NodeSendable (with_mon mon o)
    with_mon-Sendable none = tt
    with_mon-Sendable (some nd) = s

widen : (cfg : Settings) (st : Poll) → IsFilled cfg 254 st → IsFilled cfg 255 st
widen cfg st f = record {
  changes = f.changes;
  written = f.written;
  counted = f.counted;
  few_changes = omega (arith, f.few_changes);
  fits = f.fits;
  writable = f.writable;
  all_sound = f.all_sound;
}

room :
    (cfg : Settings) (mon : Monitor) (st : Poll)
    → is_passed_over cfg mon ≡ false
    → IsFilled cfg 255 st
    → IsFilled cfg 254 (make_room cfg mon.len st)
      × (used (make_room cfg mon.len st) + mon.len + 15 ≤ cfg.buf_len)
room cfg mon st b f = make_room-Filled cfg mon.len st (ground (arith, b)) f

poll-Filled :
    (cfg : Settings) (m : Memory) (n : ℕ) (h : Heap) (p : Option ℕ) (st : Poll)
    → cfg.cur_time < 4294967296
    → HeapSendable h
    → IsFilled cfg 255 st
    → IsFilled cfg 255 (poll cfg m n h p st).2
poll-Filled cfg m zero h p st time a f = f
poll-Filled cfg m (suc n) h none st time a f = f
poll-Filled cfg m (suc n) h (some p) st time a f = elim (Option-cases (h p)) [
  | inl e ↦ rw (e, poll) f
  | inr (nd, e) ↦
      rw (e, poll)
        (elim (Bool-cases (is_passed_over cfg nd.mon)) [
          | inl b ↦ rw b (poll-Filled cfg m n h nd.next st time a f)
          | inr b ↦ elim (Bool-cases (must_stop cfg nd.mon.len st)) [
            | inl c ↦ rw (b, c) (widen cfg (make_room cfg nd.mon.len st) (room cfg nd.mon st b f).0)
            | inr c ↦
                rw (b, c)
                  (let s = subst NodeSendable e (a p) in
                    let (f', s') =
                      visit-Filled cfg m nd.mon (make_room cfg nd.mon.len st) time s
                        (room cfg nd.mon st b f).0 (room cfg nd.mon st b f).1 in
                    poll-Filled cfg m n
                      (change h p (with_mon (visit cfg m nd.mon (make_room cfg nd.mon.len st)).0))
                      nd.next (visit cfg m nd.mon (make_room cfg nd.mon.len st)).1 time
                      (change-Sendable h p (visit cfg m nd.mon (make_room cfg nd.mon.len st)).0 a
                        s')
                      f')
          ]
        ])
]

finish-AllSound :
    (cfg : Settings) (st : Poll) → IsFilled cfg 255 st → AllSound cfg (finish cfg st).0.sent
finish-AllSound cfg st f = elim (Bool-cases (st.qty == 0)) [
  | inl e ↦ rw e f.all_sound
  | inr e ↦ rw e (last cfg.connected (ground (arith, e)))
]
  where
    last :
        (b : Bool)
        → 1 ≤ st.qty
        → AllSound cfg (if◌then◌else◌ {A = Poll × Bool} b (send st, true) (st, false)).0.sent
    last true q = send-Filled cfg 255 st (omega arith) q f
    last false q = f.all_sound

start_poll-Filled : (cfg : Settings) → 1 ≤ cfg.buf_len → IsFilled cfg 255 start_poll
start_poll-Filled cfg h = record {
  changes = [];
  written = refl;
  counted = refl;
  few_changes = omega arith;
  fits = omega (arith, h);
  writable = tt;
  all_sound = tt;
}

-- What the packets are made of.
pub monitoring-written :
    (cfg : Settings) (m : Memory) (running : Bool) (s : Monitors)
    → 1 ≤ cfg.buf_len
    → cfg.cur_time < 4294967296
    → HeapSendable s.heap
    → AllSound cfg (monitoring cfg m running s).2
unfolding monitoring
monitoring-written cfg m running s b t a = elim (Bool-cases (not running)) [
  | inl e ↦ rw e tt
  | inr e ↦ elim (Bool-cases (s.mon_qty == 0)) [
    | inl z ↦ rw (e, z) tt
    | inr z ↦
        rw (e, z)
          (finish-AllSound cfg
            (poll cfg m s.mon_qty s.heap (or_first_mon s.cur_mon s.first_mon) start_poll).2
            (poll-Filled cfg m s.mon_qty s.heap (or_first_mon s.cur_mon s.first_mon) start_poll t a
              (start_poll-Filled cfg b)))
  ]
]
