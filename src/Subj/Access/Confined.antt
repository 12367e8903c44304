-- ===== src/Subj/Access/Confined.antt =====
-- Which memory a write can change.
use okscada.Prelude.{
  ℕ, ◌+◌, ◌-◌, ◌*◌, ◌/◌, ◌%◌, ◌≤◌, ◌<◌, ◌∙◌, ◌≡◌, ◌⊎◌, inl, inr, refl, sym, Bool, true, false, not,
  ◌&&◌, ◌||◌, ltb, ◌==◌, arith, Bool-cases,
}
use okscada.Prelude.Int.{ℤ}
use okscada.Subj.{Memory, load, store, set_field}
use okscada.Subj.Fields.{set_field-outside, store-apart}
use okscada.Subj.Access.{
  Subject, DataRequest, Target, at, null_pointer, bad_ptr, parse_request, target, holds, has_fields,
  bad_length, write_at, write_target, write_reply, handle_data_write,
}

-- The bit `k` of the byte at `x` is one that the request `r` names.
pub record IsWrapped (s : Subject) (r : DataRequest) (x k : ℕ) : Type 0 where
  pub a : ℕ
  pub names : target r s.memory ≡ at a
  pub above : a ≤ x
  pub below : x < a + r.n
  pub permitted : (not s.ban_write || (not (a == 0) && holds a s.ever_write)) ≡ true
  pub in_field :
      (r.blen ≡ 0)
      ⊎ ((r.boff % 32 ≤ 8 * (x - a) + k) × (8 * (x - a) + k < r.boff % 32 + r.blen % 32))

abbrev pub Kept : Subject → DataRequest → ℕ → ℕ → Memory → Type 0
Kept s r x k m = (m x k ≡ s.memory x k) ⊎ IsWrapped s r x k

-- A bit in the range of the store, and one that is not.
range-cases : (a n x : ℕ) → ((a ≤ x) × (x < a + n)) ⊎ ((x < a) ⊎ (a + n ≤ x))
range-cases a n x = grind arith

load-bit :
    (n : ℕ) (m : Memory) (a x k : ℕ)
    → a ≤ x
    → x < a + n
    → k < 8
    → load n m a (8 * (x - a) + k) ≡ m x k
load-bit n m a x k h h' hk =
    let q : a + (8 * (x - a) + k) / 8 ≡ x = omega (arith, h, hk) in
    let t : (8 * (x - a) + k) % 8 ≡ k = omega (arith, hk) in rw (q, t) (ground (arith, h, h', hk))

store-in :
    (n : ℕ) (m : Memory) (a : ℕ) (w : ℕ → Bool) (x k : ℕ)
    → a ≤ x
    → x < a + n
    → store n m a w x k ≡ w (8 * (x - a) + k)
store-in n m a w x k h h' = ground (arith, h, h')

is_zero : (n : ℕ) → (n == 0) ≡ true → n ≡ 0
is_zero n z = ground (arith, z)

may_write : (b p : Bool) → (b && not p) ≡ false → (not b || p) ≡ true
may_write true true e = refl
may_write true false e = sym e
may_write false p e = refl

write_at-Kept :
    (s : Subject) (buf : Memory) (r : DataRequest) (a x k : ℕ)
    → k < 8
    → target r s.memory ≡ at a
    → (not s.ban_write || (not (a == 0) && holds a s.ever_write)) ≡ true
    → Kept s r x k (write_at buf r a s.memory).0
write_at-Kept s buf r a x k hk e p = elim (range-cases a r.n x) [
  | inr o ↦ inl (elim (Bool-cases (r.blen == 0)) [
    | inl z ↦ rw z (store-apart r.n s.memory a (load r.n buf 24) x k o)
    | inr z ↦ elim (Bool-cases (has_fields r.n)) [
      | inl f ↦
          rw (z, f)
            (store-apart r.n s.memory a
              (set_field (8 * r.n) r.boff r.blen (load r.n s.memory a) (load r.n buf 24)) x k o)
      | inr f ↦ rw (z, f) refl
    ]
  ])
  | inl (h, h') ↦ elim (Bool-cases (r.blen == 0)) [
    | inl z ↦ inr (record {
      a = a;
      names = e;
      above = h;
      below = h';
      permitted = p;
      in_field = inl (is_zero r.blen z);
    })
    | inr z ↦ elim (Bool-cases (has_fields r.n)) [
      | inr f ↦ inl (rw (z, f) refl)
      | inl f ↦ elim (range-cases (r.boff % 32) (r.blen % 32) (8 * (x - a) + k)) [
        | inl g ↦
            inr
              (record { a = a; names = e; above = h; below = h'; permitted = p; in_field = inr g })
        | inr g ↦ inl (
            rw (z, f)
              (let w = set_field (8 * r.n) r.boff r.blen (load r.n s.memory a) (load r.n buf 24) in
                store-in r.n s.memory a w x k h h'
                ∙ set_field-outside (8 * r.n) r.boff r.blen (load r.n s.memory a) (load r.n buf 24)
                    (8 * (x - a) + k) (omega (arith, h, h', hk)) g
                ∙ load-bit r.n s.memory a x k h h' hk))
      ]
    ]
  ]
]

write_target-Kept :
    (s : Subject) (buf : Memory) (r : DataRequest) (t : Target) (x k : ℕ)
    → k < 8
    → target r s.memory ≡ t
    → Kept s r x k (write_target s buf r t).0
write_target-Kept s buf r (at a) x k hk e =
    elim (Bool-cases (s.ban_write && not (not (a == 0) && holds a s.ever_write))) [
      | inl b ↦ rw b (inl refl)
      | inr b ↦ rw b (
          write_at-Kept s buf r a x k hk e
            (may_write s.ban_write (not (a == 0) && holds a s.ever_write) b))
    ]
write_target-Kept s buf r null_pointer x k hk e = inl refl
write_target-Kept s buf r bad_ptr x k hk e = inl refl

write_reply-Kept :
    (s : Subject) (r : DataRequest) (p : Memory × ℤ) (x k : ℕ)
    → Kept s r x k p.0
    → Kept s r x k (write_reply s r p).0.memory
write_reply-Kept s r (m, err) x k h = h

-- With the offset and the length of a bit field modulo 32, this is so whatever packet it is given.
pub handle_data_write-IsWrapped :
    (s : Subject) (len : ℕ) (buf : Memory) (x k : ℕ)
    → k < 8
    → ((handle_data_write s len buf).0.memory x k ≡ s.memory x k)
      ⊎ IsWrapped s (parse_request buf) x k
unfolding handle_data_write
handle_data_write-IsWrapped s len buf x k hk =
    let r = parse_request buf in
    elim (Bool-cases (not s.initialized || s.aborted)) [
      | inl i ↦ rw i (inl refl)
      | inr i ↦ elim (Bool-cases (ltb len 25)) [
        | inl l ↦ rw (i, l) (inl refl)
        | inr l ↦ elim (Bool-cases (not (len == 24 + r.n))) [
          | inl e ↦ rw (i, l, e) (inl refl)
          | inr e ↦ elim (Bool-cases (bad_length r.n)) [
            | inl b ↦ rw (i, l, e, b) (inl refl)
            | inr b ↦
                rw (i, l, e, b)
                  (write_reply-Kept s r (write_target s buf r (target r s.memory)) x k
                    (write_target-Kept s buf r (target r s.memory) x k hk refl))
          ]
        ]
      ]
    ]

-- The bit is in the bytes of the request and in its bit field, if it has one, and the address may be written.
pub record IsNamed (s : Subject) (r : DataRequest) (x k : ℕ) : Type 0 where
  pub a : ℕ
  pub names : target r s.memory ≡ at a
  pub above : a ≤ x
  pub below : x < a + r.n
  pub permitted : (not s.ban_write || (not (a == 0) && holds a s.ever_write)) ≡ true
  pub in_field : (r.blen ≡ 0) ⊎ ((r.boff ≤ 8 * (x - a) + k) × (8 * (x - a) + k < r.boff + r.blen))

-- Where the offset and the length of its bit field, if it names one, are below 32, `osubjHandleDataWrite` of a packet
-- changes no bit of the memory but those of the `n` bytes at the address that the request comes to and, where it names
-- a bit field, of that field; and while writes are banned only if osubjEverWrite has permitted that address.
pub handle_data_write-confined :
    (s : Subject) (len : ℕ) (buf : Memory) (x k : ℕ)
    → k < 8
    → (parse_request buf).boff < 32
    → (parse_request buf).blen < 32
    → ((handle_data_write s len buf).0.memory x k ≡ s.memory x k)
      ⊎ IsNamed s (parse_request buf) x k
handle_data_write-confined s len buf x k hk o b =
    elim (handle_data_write-IsWrapped s len buf x k hk) [
      | inl e ↦ inl e
      | inr w ↦ inr (record {
        a = w.a;
        names = w.names;
        above = w.above;
        below = w.below;
        permitted = w.permitted;
        in_field = elim w.in_field [
          | inl z ↦ inl z
          | inr (f, g) ↦ inr (omega (arith, f, o), omega (arith, g, o, b))
        ];
      })
    ]
