-- ===== src/Pending/Secured.antt =====
-- What putting off writes and sending them later does to the records.
use okscada.Prelude.{
  ℕ, zero, suc, ◌+◌, ◌-◌, ◌≡◌, ◌≢◌, inl, inr, refl, sym, Bool, true, false, not, ◌&&◌, ◌||◌, some,
  length, ltb, leb, ◌==◌, get_elem?, set, arith, Bool-cases, Option-cases,
}
use okscada.Prelude.Int.{ℤ}
use okscada.Pending.{
  Flag, off, postponed, zombie, DataRecord, Pending, is_secured, with_flag, count_write,
  send_or_postpone, is_named, is_there, cancel_record, cancel_from, cancel_watch_data, let_go,
  secure_agent, secure_one, secure_from, secure_more_writes, is_zombie, few, is_tight,
}
use okscada.Pending.Inv.{Inv, secured, is_placed, put-Inv, busy_total, deallocate_data-Inv}

pub recount : (t : Pending) (counts : ℕ → ℕ) → Inv t → Inv (record t { write_counts = counts })
recount t counts v = record {
  size = v.size;
  counted = v.counted;
  postponed_counted = v.postponed_counted;
  placed = v.placed;
}

flag_placed :
    (i : ℕ) (r : DataRecord) (f : Flag)
    → is_placed i r ≡ true
    → r.is_busy ≡ true
    → is_placed i (with_flag f r) ≡ true
flag_placed i r f p b = ground (arith, p, b)

-- A flag that is set counts, and one that is taken away counts no more.
raise-Inv :
    (t : Pending) (i : ℕ) (r : DataRecord)
    → Inv t
    → get_elem? t.chain i ≡ some r
    → r.is_busy ≡ true
    → is_secured r.securing_flag ≡ false
    → Inv (record t {
      chain = set t.chain i (with_flag postponed r);
      securing_qty = t.securing_qty + 1;
    })
raise-Inv t i r v e b s =
    put-Inv t
      (record t {
        chain = set t.chain i (with_flag postponed r);
        securing_qty = t.securing_qty + 1;
      })
      i r (with_flag postponed r) v e (flag_placed i r postponed (v.placed i r e) b) refl refl
      (ground (arith, s))

lower-Inv :
    (t : Pending) (i : ℕ) (r : DataRecord) (counts : ℕ → ℕ)
    → Inv t
    → get_elem? t.chain i ≡ some r
    → r.is_busy ≡ true
    → is_secured r.securing_flag ≡ true
    → Inv (record t {
      chain = set t.chain i (with_flag off r);
      securing_qty = t.securing_qty - 1;
      write_counts = counts;
    })
lower-Inv t i r counts v e b s =
    let n = busy_total secured t.chain i r e in
    put-Inv t
      (record t {
        chain = set t.chain i (with_flag off r);
        securing_qty = t.securing_qty - 1;
        write_counts = counts;
      })
      i r (with_flag off r) v e (flag_placed i r off (v.placed i r e) b) refl refl
      (ground (arith, s, n, v.postponed_counted))

true_ne_false : true ≢ false
true_ne_false e = cc

is_busy_of : (b x : Bool) → (not b || not x) ≡ false → b ≡ true
is_busy_of true x e = refl
is_busy_of false x e = sym e

pub first_true : (a b : Bool) → (a && b) ≡ true → a ≡ true
first_true true b e = refl
first_true false b e = e

three_tests : (b w s : Bool) → (not b || (not w || not s)) ≡ false → (b ≡ true) × (s ≡ true)
three_tests true true true e = (refl, refl)
three_tests true true false e = (refl, sym e)
three_tests true false s e = (refl, absurd (true_ne_false e))
three_tests false w s e = absurd (true_ne_false e)

module _ (ready linked : ℕ → Bool) (gap : ℕ → Pending → ℤ) where
  pub send_or_postpone-Inv :
      (sent : Bool) (i : ℕ) (r : DataRecord) (a : ℕ) (t : Pending)
      → Inv t
      → get_elem? t.chain i ≡ some r
      → r.is_busy ≡ true
      → Inv (send_or_postpone ready linked gap sent i r a t).0
  send_or_postpone-Inv sent i r a t v e b = elim (Bool-cases (is_secured r.securing_flag)) [
    | inl s ↦ rw s v
    | inr s ↦ elim (Bool-cases (few ready linked gap (gap a t) || ltb 32 (t.write_counts a))) [
      | inl q ↦ rw (s, q) (raise-Inv t i r v e b s)
      | inr q ↦ rw (s, q) (recount t (count_write a t.write_counts) v)
    ]
  ]

  let_go-Inv :
      (i : ℕ) (r : DataRecord) (a : ℕ) (t : Pending)
      → Inv t
      → get_elem? t.chain i ≡ some r
      → r.is_busy ≡ true
      → is_secured r.securing_flag ≡ true
      → Inv (let_go ready linked gap i r a t)
  let_go-Inv i r a t v e b s = elim (Bool-cases (is_zombie ready linked gap r.securing_flag)) [
    | inl z ↦ rw z (
        deallocate_data-Inv i (record t { write_counts = count_write a t.write_counts }) r
          (recount t (count_write a t.write_counts) v) e b)
    | inr z ↦ rw z (lower-Inv t i r (count_write a t.write_counts) v e b s)
  ]

  secure_agent-Inv :
      (i : ℕ) (r : DataRecord) (a : ℕ) (t : Pending)
      → Inv t
      → get_elem? t.chain i ≡ some r
      → r.is_busy ≡ true
      → is_secured r.securing_flag ≡ true
      → Inv (secure_agent ready linked gap i r a t).0
  secure_agent-Inv i r a t v e b s = elim (Bool-cases (not (ready a) || not (linked a))) [
    | inl q ↦ rw q (elim (Bool-cases (is_zombie ready linked gap r.securing_flag)) [
      | inl z ↦ rw z (deallocate_data-Inv i t r v e b)
      | inr z ↦ rw z v
    ])
    | inr q ↦ elim (Bool-cases (ltb 32 (t.write_counts a) || is_tight ready linked gap (gap a t))) [
      | inl z ↦ rw (q, z) v
      | inr z ↦ rw (q, z) (let_go-Inv i r a t v e b s)
    ]
  ]

  secure_one-Inv :
      (i : ℕ) (t : Pending) → Inv t → Inv (secure_one ready linked gap i t (get_elem? t.chain i)).0
  secure_one-Inv i t v = elim (Option-cases (get_elem? t.chain i)) [
    | inl e ↦ rw e v
    | inr (r, e) ↦
        rw e
          (elim (Bool-cases
            (not r.is_busy || (not r.is_write || not (is_secured r.securing_flag)))) [
              | inl q ↦ rw q v
              | inr q ↦ elim (Option-cases r.agent) [
                | inl z ↦ rw (q, z) v
                | inr (a, z) ↦
                    rw (q, z)
                      (let (b, s) =
                          three_tests r.is_busy r.is_write (is_secured r.securing_flag) q in
                        secure_agent-Inv i r a t v e b s)
              ]
            ])
  ]

  secure_from-Inv :
      (n i qty : ℕ) (t : Pending) → Inv t → Inv (secure_from ready linked gap n i qty t).0
  secure_from-Inv zero i qty t v = v
  secure_from-Inv (suc n) i qty t v = elim (Bool-cases (leb 32 qty || t.securing_qty == 0)) [
    | inl e ↦ rw e v
    | inr e ↦ rw e (
        secure_from-Inv n (i + 1) (qty + (secure_one ready linked gap i t (get_elem? t.chain i)).1)
          (secure_one ready linked gap i t (get_elem? t.chain i)).0 (secure_one-Inv i t v))
  ]

  pub secure_more_writes-Inv : (t : Pending) → Inv t → Inv (secure_more_writes ready linked gap t).0
  unfolding secure_more_writes
  secure_more_writes-Inv t v = elim (Bool-cases (t.securing_qty == 0 || length t.chain == 0)) [
    | inl e ↦ rw e v
    | inr e ↦ rw e (secure_from-Inv (length t.chain - 1) 1 0 t v)
  ]

  zombie-Inv :
      (i : ℕ) (t : Pending) (r : DataRecord)
      → Inv t
      → get_elem? t.chain i ≡ some r
      → r.is_busy ≡ true
      → is_secured r.securing_flag ≡ true
      → Inv (record t { chain = set t.chain i (with_flag zombie r) })
  zombie-Inv i t r v e b s =
      put-Inv t (record t { chain = set t.chain i (with_flag zombie r) }) i r (with_flag zombie r) v
        e (flag_placed i r zombie (v.placed i r e) b) refl refl (ground (arith, s))

  cancel_record-Inv :
      (w i : ℕ) (t : Pending)
      → Inv t
      → Inv (cancel_record ready linked gap w i t (get_elem? t.chain i))
  cancel_record-Inv w i t v = elim (Option-cases (get_elem? t.chain i)) [
    | inl e ↦ rw e v
    | inr (r, e) ↦
        rw e (elim (Bool-cases (not r.is_busy || not (is_named ready linked gap r.watch w))) [
          | inl q ↦ rw q v
          | inr q ↦
              elim (Bool-cases (is_secured r.securing_flag && is_there ready linked gap r.agent)) [
                | inl z ↦
                    rw (q, z)
                      (zombie-Inv i t r v e
                        (is_busy_of r.is_busy (is_named ready linked gap r.watch w) q)
                        (first_true (is_secured r.securing_flag) (is_there ready linked gap r.agent)
                          z))
                | inr z ↦
                    rw (q, z)
                      (deallocate_data-Inv i t r v e
                        (is_busy_of r.is_busy (is_named ready linked gap r.watch w) q))
              ]
        ])
  ]

  cancel_from-Inv : (w n i : ℕ) (t : Pending) → Inv t → Inv (cancel_from ready linked gap w n i t)
  cancel_from-Inv w zero i t v = v
  cancel_from-Inv w (suc n) i t v =
      cancel_from-Inv w n (i + 1) (cancel_record ready linked gap w i t (get_elem? t.chain i))
        (cancel_record-Inv w i t v)

  pub cancel_watch_data-Inv :
      (w : ℕ) (t : Pending) → Inv t → Inv (cancel_watch_data ready linked gap w t)
  unfolding cancel_watch_data
  cancel_watch_data-Inv w t v = cancel_from-Inv w (length t.chain) 0 t v
