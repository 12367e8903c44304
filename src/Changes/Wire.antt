-- ===== src/Changes/Wire.antt =====
-- What the hub reads of a change is what the subject wrote.
use okscada.Prelude.{
  ℕ, ◌+◌, ◌/◌, ◌%◌, ◌<◌, ◌≡◌, ◌⊎◌, inl, inr, refl, sym, ap, ◌∙◌, subst, Bool, true, false, not,
  List, [], ◌∷◌, ◌++◌, Option, none, some, length, length-append, ltb, ◌==◌, if◌then◌else◌, arith,
  Bool-cases,
}
use okscada.Changes.{
  Packet, Received, long_in, has_bit, bytes_in, after_time, length_in, after_length, received,
  after_change,
}
use okscada.Subj.Poll.{Change, encode, long_bytes, time_bytes, time_flag}

-- The bytes of a list from a position on.
abbrev pub Agrees : Packet → ℕ → List ℕ → Type 0
Agrees buf p [] = Unit {0}
Agrees buf p (b ∷ bs) = (buf p ≡ b) × Agrees buf (p + 1) bs

pub Agrees-append :
    (buf : Packet) (p : ℕ) (xs ys : List ℕ)
    → Agrees buf p (xs ++ ys)
    → Agrees buf p xs × Agrees buf (p + length xs) ys
Agrees-append buf p [] ys a = (tt, subst (λ z. Agrees buf z ys) (omega arith) a)
Agrees-append buf p (x ∷ xs) ys (e, a) =
    let (b, c) = Agrees-append buf (p + 1) xs ys a in
    ((e, b), subst (λ z. Agrees buf z ys) (omega arith) c)

bytes_in-Agrees :
    (buf : Packet) (p : ℕ) (bs : List ℕ) → Agrees buf p bs → bytes_in buf (length bs) p ≡ bs
bytes_in-Agrees buf p [] a = refl
bytes_in-Agrees buf p (b ∷ bs) (e, a) = rw (e, bytes_in-Agrees buf (p + 1) bs a) refl

-- Four bytes, and those behind them.
agree_long :
    (buf : Packet) (q x : ℕ) (rest : List ℕ)
    → x < 4294967296
    → Agrees buf q (long_bytes x ++ rest)
    → (long_in buf q ≡ x) × Agrees buf (q + 4) rest
agree_long buf q x rest h (a, (b, (c, (d, r)))) =
    let c' : buf (q + 2) ≡ (x / 256) % 256 = subst (λ z. buf z ≡ (x / 256) % 256) (omega arith) c in
    let d' : buf (q + 3) ≡ x % 256 = subst (λ z. buf z ≡ x % 256) (omega arith) d in
    (omega (arith, a, b, c', d', h), subst (λ z. Agrees buf z rest) (omega arith) r)

abbrev flag : Bool → ℕ → ℕ
flag b v = if b then v else 0

-- The three flags of the head of a change.
head_flags :
    (k : ℕ) (l t u : Bool)
    → k < 32
    → (has_bit 128 (k + (flag l 32 + (flag t 64 + flag u 128))) ≡ u)
      × (has_bit 64 (k + (flag l 32 + (flag t 64 + flag u 128))) ≡ t)
      × (has_bit 32 (k + (flag l 32 + (flag t 64 + flag u 128))) ≡ l)
      × ((k + (flag l 32 + (flag t 64 + flag u 128))) % 32 ≡ k)
head_flags k true true true h = (ground arith, ground arith, ground arith, omega arith)
head_flags k true true false h = (ground arith, ground arith, ground arith, omega arith)
head_flags k true false true h = (ground arith, ground arith, ground arith, omega arith)
head_flags k true false false h = (ground arith, ground arith, ground arith, omega arith)
head_flags k false true true h = (ground arith, ground arith, ground arith, omega arith)
head_flags k false true false h = (ground arith, ground arith, ground arith, omega arith)
head_flags k false false true h = (ground arith, ground arith, ground arith, omega arith)
head_flags k false false false h = (ground arith, ground arith, ground arith, omega arith)

abbrev pub is_timed : Option ℕ → Bool
is_timed none = false
is_timed (some t) = true

abbrev pub time_value : Option ℕ → ℕ
time_value none = 0
time_value (some t) = t

-- A change that can be written: its numbers are in their widths, and it is defined, or undefined
-- and without bytes.
pub record IsWritable (c : Change) : Type 0 where
  pub ooid_ok : c.ooid < 4294967296
  pub time_ok : time_value c.time < 4294967296
  pub length_ok : length c.bytes < 8192
  pub undef_ok : (c.undef ≡ 0) ⊎ ((c.undef ≡ 128) × (c.bytes ≡ []))

-- What the hub is meant to read.
abbrev pub as_received : Change → Received
as_received c = record {
  ooid = c.ooid;
  type = c.type;
  undef = not (c.undef == 0);
  time = time_value c.time;
  len = length c.bytes;
  bytes = c.bytes;
}

abbrev head : Change → ℕ
head c =
    let n = length c.bytes in
    let flags = c.undef + time_flag c.time in
    if ltb n 32 then n + flags else 32 + (n / 256) % 32 + flags

abbrev tail : Change → List ℕ
tail c = if ltb (length c.bytes) 32 then c.bytes else (length c.bytes % 256) ∷ c.bytes

-- The low bits of the head.
abbrev low : ℕ → ℕ
low n = if ltb n 32 then n else n / 256

flags_sum :
    (u : ℕ) (time : Option ℕ)
    → (u ≡ 0) ⊎ (u ≡ 128)
    → u + time_flag time ≡ flag (is_timed time) 64 + flag (not (u == 0)) 128
flags_sum u none (inl e) = ground (arith, e)
flags_sum u none (inr e) = ground (arith, e)
flags_sum u (some t) (inl e) = ground (arith, e)
flags_sum u (some t) (inr e) = ground (arith, e)

flags_of :
    (c : Change)
    → IsWritable c
    → c.undef + time_flag c.time ≡ flag (is_timed c.time) 64 + flag (not (c.undef == 0)) 128
flags_of c w = flags_sum c.undef c.time (elim w.undef_ok [ inl e ↦ inl e | inr (e, z) ↦ inr e ])

head_parts :
    (c : Change)
    → IsWritable c
    → head c
      ≡ low (length c.bytes)
        + (flag (not (ltb (length c.bytes) 32)) 32
            + (flag (is_timed c.time) 64 + flag (not (c.undef == 0)) 128))
head_parts c w = elim (Bool-cases (ltb (length c.bytes) 32)) [
  | inl e ↦ rw e (omega (arith, flags_of c w))
  | inr e ↦ rw e (omega (arith, flags_of c w, w.length_ok))
]

low_bound : (n : ℕ) → n < 8192 → low n < 32
low_bound n h = ground (arith, h)

time_read :
    (buf : Packet) (p : ℕ) (time : Option ℕ) (rest : List ℕ)
    → time_value time < 4294967296
    → has_bit 64 (buf (p + 5)) ≡ is_timed time
    → Agrees buf (p + 6) (time_bytes time ++ rest)
    → ((if has_bit 64 (buf (p + 5)) then long_in buf (p + 6) else 0) ≡ time_value time)
      × (after_time buf p ≡ p + 6 + length (time_bytes time))
      × Agrees buf (after_time buf p) rest
time_read buf p none rest h e a = rw e (refl, omega arith, a)
time_read buf p (some t) rest h e a =
    let (v, r) = agree_long buf (p + 6) t rest h a in
    rw e (v, omega arith, subst (λ z. Agrees buf z rest) (omega arith) r)

length_cases :
    (small : Bool) (buf : Packet) (p : ℕ) (bs : List ℕ)
    → has_bit 32 (buf (p + 5)) ≡ not small
    → buf (p + 5) % 32 ≡ (if small then length bs else length bs / 256)
    → Agrees buf (after_time buf p) (if small then bs else (length bs % 256) ∷ bs)
    → (length_in buf p ≡ length bs)
      × (after_length buf p ≡ after_time buf p + (if small then 0 else 1))
      × Agrees buf (after_length buf p) bs
length_cases true buf p bs e m a = rw e (m, omega arith, a)
length_cases false buf p bs e m (b, a) = rw e (omega (arith, m, b), refl, a)

length_read :
    (buf : Packet) (p : ℕ) (bs : List ℕ)
    → has_bit 32 (buf (p + 5)) ≡ not (ltb (length bs) 32)
    → buf (p + 5) % 32 ≡ low (length bs)
    → Agrees buf (after_time buf p) (if ltb (length bs) 32 then bs else (length bs % 256) ∷ bs)
    → (length_in buf p ≡ length bs)
      × (after_length buf p ≡ after_time buf p + (if ltb (length bs) 32 then 0 else 1))
      × Agrees buf (after_length buf p) bs
length_read buf p bs e m a = length_cases (ltb (length bs) 32) buf p bs e m a

received_eq :
    {o o' y y' t t' n n' : ℕ} {u u' : Bool} {b b' : List ℕ}
    → o ≡ o'
    → y ≡ y'
    → u ≡ u'
    → t ≡ t'
    → n ≡ n'
    → b ≡ b'
    → Path Received
        (record { ooid = o; type = y; undef = u; time = t; len = n; bytes = b })
        (record { ooid = o'; type = y'; undef = u'; time = t'; len = n'; bytes = b' })
received_eq e1 e2 e3 e4 e5 e6 =
    λ i. record { ooid = e1 i; type = e2 i; undef = e3 i; time = e4 i; len = e5 i; bytes = e6 i }

-- A defined change has its bytes, and an undefined one has none.
no_more : (q : ℕ) (bs : List ℕ) → bs ≡ [] → q ≡ q + length bs
no_more q bs b = omega (arith, ap length b)

bytes_read :
    (buf : Packet) (q n : ℕ) (c : Change)
    → IsWritable c
    → n ≡ length c.bytes
    → Agrees buf q c.bytes
    → ((if not (c.undef == 0) then [] else bytes_in buf n q) ≡ c.bytes)
      × ((if not (c.undef == 0) then q else q + n) ≡ q + length c.bytes)
bytes_read buf q n c w e a = elim w.undef_ok [
  | inl z ↦ rw z (ap (λ k. bytes_in buf k q) e ∙ bytes_in-Agrees buf q c.bytes a, omega (arith, e))
  | inr (z, b) ↦ rw z (sym b, no_more q c.bytes b)
]

abbrev Reads : Packet → ℕ → Change → Type 0
Reads buf p c = (received buf p ≡ as_received c) × (after_change buf p ≡ p + length (encode c))

five : (p : ℕ) → p + 4 + 1 ≡ p + 5
five p = omega arith

six : (p : ℕ) → p + 4 + 1 + 1 ≡ p + 6
six p = omega arith

length-tail :
    (c : Change) → length (tail c) ≡ length c.bytes + (if ltb (length c.bytes) 32 then 0 else 1)
length-tail c = elim (Bool-cases (ltb (length c.bytes) 32)) [
  | inl e ↦ rw e (omega arith)
  | inr e ↦ rw e (omega arith)
]

pub received-encode :
    (buf : Packet) (p : ℕ) (c : Change) → IsWritable c → Agrees buf p (encode c) → Reads buf p c
received-encode buf p c w a =
    let (o, (y, (h, r))) =
      agree_long buf p c.ooid (c.type ∷ head c ∷ (time_bytes c.time ++ tail c)) w.ooid_ok a in
    let h' : buf (p + 5) ≡ head c = subst (λ z. buf z ≡ head c) (five p) h in
    let r' = subst (λ z. Agrees buf z (time_bytes c.time ++ tail c)) (six p) r in
    let small = ltb (length c.bytes) 32 in
    let hp = h' ∙ head_parts c w in
    let (f₁, f₂, f₃, f₄) =
      head_flags (low (length c.bytes)) (not small) (is_timed c.time) (not (c.undef == 0))
        (low_bound (length c.bytes) w.length_ok) in
    let e₁ = ap (has_bit 128) hp ∙ f₁ in
    let (tv, ta, tr) = time_read buf p c.time (tail c) w.time_ok (ap (has_bit 64) hp ∙ f₂) r' in
    let (lv, la, lr) =
      length_read buf p c.bytes (ap (has_bit 32) hp ∙ f₃) (ap (λ z. z % 32) hp ∙ f₄) tr in
    let (bv, ba) = bytes_read buf (after_length buf p) (length_in buf p) c w lv lr in
    let q = after_length buf p in
    let n = length_in buf p in
    (
      received_eq o y e₁ tv lv
          (subst (λ z. (if z then [] else bytes_in buf n q) ≡ c.bytes) (sym e₁) bv),
      subst (λ z. (if z then q else q + n) ≡ q + length c.bytes) (sym e₁) ba
          ∙ omega (arith, ta, la, length-append (time_bytes c.time) (tail c), length-tail c),
    )
