-- ===== src/Subj/Access/Back.antt =====
-- What is written is read again.
use okscada.Prelude.{
  ℕ, ◌+◌, ◌*◌, ◌<◌, ◌≡◌, ◌⊎◌, inl, inr, refl, sym, ap, ◌∙◌, ◌≢◌, subst, Bool, true, false, not,
  ◌&&◌, ◌||◌, Option, none, some, ltb, ◌==◌, if◌then◌else◌, arith, Bool-cases,
}
use okscada.Prelude.Int.{pos, negsuc}
use okscada.Subj.{Word, Memory, load, store, set_field, get_field}
use okscada.Subj.Fields.{Fits, extended, set_field-inside, get_field-extended, load-store}
use okscada.Subj.Access.{
  Subject, DataRequest, Target, at, null_pointer, bad_ptr, parse_request, target, holds, has_fields,
  bad_length, write_at, write_target, write_reply, handle_data_write, WriteReply, ReadReply,
  read_at, read_target, handle_data_read, hibit,
}

-- The request reads and writes whole bytes, or a field that is in them.
abbrev pub IsRegular : DataRequest → Type 0
IsRegular r = (r.blen ≡ 0) ⊎ Fits (8 * r.n) r.boff r.blen

-- The bits that a read gives after the `n` bytes `d` were written.
abbrev pub read_back : DataRequest → Word → Word
read_back r d = if r.blen == 0 then d else extended (8 * r.n) r.blen (hibit r.type) d

record DoneAt (s : Subject) (buf : Memory) (r : DataRequest) (a : ℕ) (s' : Subject) (id : ℕ)
    : Type 0 where
  names : target r s.memory ≡ at a
  length_ok : bad_length r.n ≡ false
  state_ok : (not s.initialized || s.aborted) ≡ false
  state : s' ≡ record s { memory = (write_at buf r a s.memory).0 }
  err_ok : (write_at buf r a s.memory).1 ≡ pos 0
  id_ok : id ≡ r.id

abbrev Written : Subject → Memory → DataRequest → Subject × Option WriteReply → Type 0
Written s buf r (s', none) = Unit {0}
Written s buf r (s', some reply) = (reply.err ≢ pos 0) ⊎ ((a : ℕ) × DoneAt s buf r a s' reply.id)

and_false : (b : Bool) → (b && false) ≡ false
and_false true = refl
and_false false = refl

not_zero : (n : ℕ) → negsuc n ≢ pos 0
not_zero n e = cc

nonzero : (n : ℕ) → (n == 0) ≡ false → n ≢ 0
nonzero n z e = ground (arith, z, e)

write_at-err :
    (buf : Memory) (r : DataRequest) (a : ℕ) (m : Memory)
    → ((write_at buf r a m).1 ≢ pos 0) ⊎ ((write_at buf r a m).1 ≡ pos 0)
write_at-err buf r a m = elim (Bool-cases (r.blen == 0)) [
  | inl z ↦ rw z (inr refl)
  | inr z ↦ elim (Bool-cases (has_fields r.n)) [
    | inl f ↦ rw (z, f) (inr refl)
    | inr f ↦ rw (z, f) (inl (not_zero 0))
  ]
]

write_target-Written :
    (s : Subject) (buf : Memory) (r : DataRequest) (t : Target)
    → (not s.initialized || s.aborted) ≡ false
    → bad_length r.n ≡ false
    → target r s.memory ≡ t
    → Written s buf r (write_reply s r (write_target s buf r t))
write_target-Written s buf r (at a) i b e =
    elim (Bool-cases (s.ban_write && not (not (a == 0) && holds a s.ever_write))) [
      | inl p ↦ rw p (inl (not_zero 0))
      | inr p ↦ rw p (elim (write_at-err buf r a s.memory) [
        | inl f ↦ inl f
        | inr f ↦ inr (
          a,
          record { names = e; length_ok = b; state_ok = i; state = refl; err_ok = f; id_ok = refl },
        )
      ])
    ]
write_target-Written s buf r null_pointer i b e = inl (not_zero 126)
write_target-Written s buf r bad_ptr i b e = inl (not_zero 0)

handle_data_write-Written :
    (s : Subject) (len : ℕ) (buf : Memory)
    → Written s buf (parse_request buf) (handle_data_write s len buf)
unfolding handle_data_write
handle_data_write-Written s len buf =
    let r = parse_request buf in
    elim (Bool-cases (not s.initialized || s.aborted)) [
      | inl i ↦ rw i tt
      | inr i ↦ elim (Bool-cases (ltb len 25)) [
        | inl l ↦ rw (i, l) tt
        | inr l ↦ elim (Bool-cases (not (len == 24 + r.n))) [
          | inl e ↦ rw (i, l, e) tt
          | inr e ↦ elim (Bool-cases (bad_length r.n)) [
            | inl b ↦ rw (i, l, e, b) (inl (not_zero 0))
            | inr b ↦ rw (i, l, e, b) (write_target-Written s buf r (target r s.memory) i b refl)
          ]
        ]
      ]
    ]

write_at-refused :
    (buf : Memory) (r : DataRequest) (a : ℕ) (m : Memory)
    → (r.blen == 0) ≡ false
    → has_fields r.n ≡ false
    → (write_at buf r a m).1 ≡ negsuc 0
write_at-refused buf r a m z f = rw (z, f) refl

-- The word that a read finds at the address, and its bits.
read_at-write_at :
    (buf : Memory) (r : DataRequest) (a : ℕ) (m : Memory)
    → IsRegular r
    → (write_at buf r a m).1 ≡ pos 0
    → (w : Word) × (read_at r a (write_at buf r a m).0 ≡ some w)
      × ((i : ℕ) → i < 8 * r.n → w i ≡ read_back r (load r.n buf 24) i)
read_at-write_at buf r a m g e = elim (Bool-cases (r.blen == 0)) [
  | inl z ↦ rw z (
    load r.n (store r.n m a (load r.n buf 24)) a,
    refl,
    λ i. λ h. load-store r.n m a (load r.n buf 24) i h,
  )
  | inr z ↦ elim (Bool-cases (has_fields r.n)) [
    | inr f ↦ absurd (not_zero 0 (sym (write_at-refused buf r a m z f) ∙ e))
    | inl f ↦ elim g [
      | inl z' ↦ absurd (nonzero r.blen z z')
      | inr fits ↦
          rw (z, f)
            (
              get_field width r.boff r.blen (hibit r.type) (load r.n (store r.n m a v) a),
              refl,
              λ i. λ h.
                  get_field-extended width r.boff r.blen (hibit r.type)
                    (load r.n (store r.n m a v) a) d i fits
                    (λ j. λ k.
                      load-store r.n m a v (j + r.boff) (omega (arith, k, fits.inside))
                      ∙ set_field-inside width r.boff r.blen (load r.n m a) d j fits k),
            )
    ]
  ]
]
  where
    width : ℕ
    width = 8 * r.n

    d : Word
    d = load r.n buf 24

    v : Word
    v = set_field width r.boff r.blen (load r.n m a) d

read_target-at :
    (r : DataRequest) (m : Memory) (t : Target) (a : ℕ) (w : Word)
    → t ≡ at a
    → read_at r a m ≡ some w
    → read_target r m t ≡ record { id = r.id; err = pos 0; plen = 8 + r.n; bytes = some w }
read_target-at r m t a w e f = rw (e, f) refl

abbrev ReadsBack : DataRequest → Memory → Option ReadReply → Type 0
ReadsBack r buf reply =
    (w : Word) × (reply ≡ some (record { id = r.id; err = pos 0; plen = 8 + r.n; bytes = some w }))
    × ((i : ℕ) → i < 8 * r.n → w i ≡ read_back r (load r.n buf 24) i)

handle_data_read-read_target :
    (s : Subject) (buf' : Memory)
    → (not s.initialized || s.aborted) ≡ false
    → bad_length (parse_request buf').n ≡ false
    → handle_data_read true s 24 buf'
      ≡ some (read_target (parse_request buf') s.memory (target (parse_request buf') s.memory))
unfolding handle_data_read
handle_data_read-read_target s buf' i b =
    rw (i, b, and_false (not (ltb ((parse_request buf').n + 32) 128))) refl

answer :
    (s : Subject) (buf' : Memory) (r : DataRequest) (a : ℕ) (w : Word)
    → parse_request buf' ≡ r
    → (not s.initialized || s.aborted) ≡ false
    → bad_length r.n ≡ false
    → target r s.memory ≡ at a
    → read_at r a s.memory ≡ some w
    → handle_data_read true s 24 buf'
      ≡ some (record { id = r.id; err = pos 0; plen = 8 + r.n; bytes = some w })
answer s buf' r a w same i b t e =
    handle_data_read-read_target s buf' i (ap (λ x. bad_length x.n) same ∙ b)
    ∙ ap (λ x. some (read_target x s.memory (target x s.memory))) same
    ∙ ap some (read_target-at r s.memory (target r s.memory) a w t e)

after_done :
    (s s' : Subject) (buf buf' : Memory) (r : DataRequest) (a id : ℕ)
    → DoneAt s buf r a s' id
    → parse_request buf' ≡ r
    → target r s'.memory ≡ target r s.memory
    → IsRegular r
    → ReadsBack r buf (handle_data_read true s' 24 buf')
after_done s s' buf buf' r a id d same still g =
    let (w, e, bits) = read_at-write_at buf r a s.memory g d.err_ok in
    let ok = subst (λ x. (not x.initialized || x.aborted) ≡ false) (sym d.state) d.state_ok in
    let there = subst (λ x. read_at r a x.memory ≡ some w) (sym d.state) e in
    (w, answer s' buf' r a w same ok d.length_ok (still ∙ d.names) there, bits)

-- After osubjHandleDataWrite has replied that a request succeeded, osubjHandleDataRead answers a request for the same bytes
-- with the bytes that were written or, for a bit field, with the bits that were written,
-- extended by the field's sign if the type is signed and by zeros if not. The field is in the
-- bytes and has fewer than 32 bits, the write has not changed the pointers on the way to the
-- address, and there is memory for the reply.
pub handle_data_write-read :
    (s s' : Subject) (len : ℕ) (buf buf' : Memory) (reply : WriteReply)
    → handle_data_write s len buf ≡ (s', some reply)
    → reply.err ≡ pos 0
    → parse_request buf' ≡ parse_request buf
    → target (parse_request buf) s'.memory ≡ target (parse_request buf) s.memory
    → IsRegular (parse_request buf)
    → (w : Word) × (handle_data_read true s' 24 buf'
        ≡ some (record {
          id = (parse_request buf).id;
          err = pos 0;
          plen = 8 + (parse_request buf).n;
          bytes = some w;
        }))
      × ((i : ℕ)
          → i < 8 * (parse_request buf).n
          → w i ≡ read_back (parse_request buf) (load (parse_request buf).n buf 24) i)
handle_data_write-read s s' len buf buf' reply e f same still g =
    elim (subst (Written s buf (parse_request buf)) e (handle_data_write-Written s len buf)) [
      | inl bad ↦ absurd (bad f)
      | inr (a, d) ↦ after_done s s' buf buf' (parse_request buf) a reply.id d same still g
    ]
