-- ===== src/Watch/Slots.antt =====
-- The count of the free slots, and what an identifier gives access to.
use okscada.Prelude.{
  ℕ, zero, suc, ◌+◌, ◌<◌, ◌≡◌, refl, sym, ap, ◌∙◌, ◌≢◌, true, false, ◌||◌, List, [], ◌∷◌, Option,
  none, some, length, leb, ◌==◌, if◌then◌else◌, get_elem?, set, drop, replicate, arith, length-set,
  length-replicate, Bool-cases, Option-cases, inl, inr,
}
use okscada.Prelude.Int.{ℤ}
use okscada.Watch.{
  ◌=ℤ◌, OpRecord, Ops, is_free, used_prefix, free_slot, allocate_op, take_slot, new_record,
  no_of_op, get_op_record, in_use, is_slot, cleared, deallocate_op, set_op_data, zero_record,
  init_operations,
}

unfoldable pub frees : List OpRecord → ℕ
frees [] = 0
frees (r ∷ rs) = if is_free r.op_state then suc (frees rs) else frees rs

abbrev pub weight : OpRecord → ℕ
weight r = if is_free r.op_state then 1 else 0

weight-swap :
    (x r r' : OpRecord) (n : ℕ)
    → some x ≡ some r
    → (if is_free r'.op_state then suc n else n) + weight r
      ≡ (if is_free x.op_state then suc n else n) + weight r'
weight-swap x r r' n e = grind arith

pub frees-set :
    (rs : List OpRecord) (i : ℕ) (r r' : OpRecord)
    → get_elem? rs i ≡ some r
    → frees (set rs i r') + weight r ≡ frees rs + weight r'
unfolding frees
frees-set [] i r r' e = cc
frees-set (x ∷ rs) zero r r' e = weight-swap x r r' (frees rs) e
frees-set (x ∷ rs) (suc i) r r' e = ground (arith, frees-set rs i r r' e)

-- The table has its 8000 slots, and the count of the free ones is right.
pub record Inv (t : Ops) : Type 0 where
  pub size : length t.slots ≡ 8000
  pub counted : t.free_op_count ≡ frees t.slots

frees-replicate : (n : ℕ) → frees (replicate n zero_record) ≡ n
unfolding frees
frees-replicate zero = refl
frees-replicate (suc n) = ap suc (frees-replicate n)

pub init_operations-Inv : Inv init_operations
init_operations-Inv = record {
  size = length-replicate 8000 zero_record;
  counted = sym (frees-replicate 8000);
}

used_prefix-used :
    (r : OpRecord) (rs : List OpRecord)
    → is_free r.op_state ≡ false
    → used_prefix (r ∷ rs) ≡ suc (used_prefix rs)
unfolding used_prefix
used_prefix-used r rs e = rw e refl

-- The slot behind the used prefix is free.
used_prefix-free :
    (rs : List OpRecord)
    → used_prefix rs < length rs
    → (r : OpRecord) × (get_elem? rs (used_prefix rs) ≡ some r) × (is_free r.op_state ≡ true)
unfolding used_prefix
used_prefix-free [] h = elim h [ ]
used_prefix-free (r ∷ rs) h = elim (Bool-cases (is_free r.op_state)) [
  | inl e ↦ rw e (r, refl, e)
  | inr e ↦ rw e (used_prefix-free rs (omega (arith, h, used_prefix-used r rs e)))
]

pub free_slot-free :
    (t : Ops)
    → length t.slots ≡ 8000
    → free_slot t < 8000
    → (r : OpRecord) × (get_elem? t.slots (free_slot t) ≡ some r) × (is_free r.op_state ≡ true)
free_slot-free t e h = go t.slots e h
  where
    go :
        (rs : List OpRecord)
        → length rs ≡ 8000
        → suc (used_prefix (drop 1 rs)) < 8000
        → (r : OpRecord) × (get_elem? rs (suc (used_prefix (drop 1 rs))) ≡ some r)
          × (is_free r.op_state ≡ true)
    go [] e h = absurd (omega (arith, e))
    go (r ∷ rs) e h = used_prefix-free rs (omega (arith, e, h))

take_slot-Inv :
    (pcanc : Option ℕ) (data1 data2 : ℤ) (t : Ops)
    → Inv t
    → leb 8000 (free_slot t) ≡ false
    → Inv (take_slot pcanc data1 data2 t (free_slot t))
take_slot-Inv pcanc data1 data2 t i h =
    let (r, e, f) = free_slot-free t i.size (ground (arith, h)) in
    let r' = new_record pcanc data1 data2 t.next_op_id (free_slot t) in
    let w : frees (set t.slots (free_slot t) r') + weight r ≡ frees t.slots + weight r' =
      frees-set t.slots (free_slot t) r r' e in
    let one : weight r ≡ 1 = rw f refl in
    let c : t.free_op_count ≡ frees t.slots = i.counted in
    record {
      size = length-set t.slots (free_slot t) r' ∙ i.size;
      counted = omega (arith, w, one, c);
    }

-- `owatchAllocateOp` keeps the table at 8000 slots and `owatch_free_op_count` equal to the number of the
-- free ones.
pub allocate_op-Inv :
    (pcanc : Option ℕ) (data1 data2 : ℤ) (t : Ops) → Inv t → Inv (allocate_op pcanc data1 data2 t).0
unfolding allocate_op
allocate_op-Inv pcanc data1 data2 t i =
    elim (Bool-cases (length t.slots == 0 || t.free_op_count == 0)) [
      | inl e ↦ rw e i
      | inr e ↦ elim (Bool-cases (leb 8000 (free_slot t))) [
        | inl f ↦ rw (e, f) i
        | inr f ↦ rw (e, f) (take_slot-Inv pcanc data1 data2 t i f)
      ]
    ]

in_use-some :
    (o : Option OpRecord) (r : OpRecord)
    → in_use o ≡ some r
    → (o ≡ some r) × (is_free r.op_state ≡ false)
in_use-some none r e = cc
in_use-some (some x) r e = elim (Bool-cases (is_free x.op_state)) [
  | inl f ↦ grind (arith, f, e)
  | inr f ↦ grind (arith, f, e)
]

pub get_op_record-in_slot :
    (op : ℤ) (t : Ops)
    → is_slot t (no_of_op op) ≡ true
    → in_use (get_elem? t.slots (no_of_op op)) ≡ get_op_record op t
unfolding get_op_record
get_op_record-in_slot op t e = rw e refl

pub get_op_record-no_slot :
    (op : ℤ) (t : Ops) (r : OpRecord)
    → is_slot t (no_of_op op) ≡ false
    → get_op_record op t ≢ some r
unfolding get_op_record
get_op_record-no_slot op t r e f = grind (arith, e, f)

-- The record that an identifier gives is in use.
pub get_op_record-used :
    (op : ℤ) (t : Ops) (r : OpRecord)
    → get_op_record op t ≡ some r
    → (get_elem? t.slots (no_of_op op) ≡ some r) × (is_free r.op_state ≡ false)
unfolding get_op_record
get_op_record-used op t r e = elim (Bool-cases (is_slot t (no_of_op op))) [
  | inl f ↦ in_use-some (get_elem? t.slots (no_of_op op)) r (get_op_record-in_slot op t f ∙ e)
  | inr f ↦ absurd (get_op_record-no_slot op t r f e)
]

-- `owatchDeallocateOp` keeps the table at 8000 slots and `owatch_free_op_count` equal to the number of
-- the free ones, whatever identifier it is given.
pub deallocate_op-Inv : (op : ℤ) (t : Ops) → Inv t → Inv (deallocate_op op t).0
unfolding deallocate_op
deallocate_op-Inv op t i = elim (Option-cases (get_op_record op t)) [
  | inl e ↦ rw e i
  | inr (r, e) ↦ rw e (
      let (f, u) = get_op_record-used op t r e in
      let w : frees (set t.slots (no_of_op op) (cleared r)) + weight r ≡ frees t.slots + 1 =
        frees-set t.slots (no_of_op op) r (cleared r) f in
      let z : weight r ≡ 0 = rw u refl in
      let c : t.free_op_count ≡ frees t.slots = i.counted in
      record {
        size = length-set t.slots (no_of_op op) (cleared r) ∙ i.size;
        counted = omega (arith, w, z, c);
      })
]

pub set_op_data-Inv : (op data1 data2 : ℤ) (t : Ops) → Inv t → Inv (set_op_data op data1 data2 t).0
unfolding set_op_data
set_op_data-Inv op data1 data2 t i = elim (Option-cases (get_op_record op t)) [
  | inl e ↦ rw e i
  | inr (r, e) ↦ rw e (elim (Bool-cases (r.op =ℤ op)) [
    | inr b ↦ rw b i
    | inl b ↦ rw b (
        let (f, u) = get_op_record-used op t r e in
        let r' = record r { data1 = data1; data2 = data2 } in
        let w : frees (set t.slots (no_of_op op) r') + weight r ≡ frees t.slots + weight r =
          frees-set t.slots (no_of_op op) r r' f in
        let c : t.free_op_count ≡ frees t.slots = i.counted in
        record {
          size = length-set t.slots (no_of_op op) r' ∙ i.size;
          counted = omega (arith, w, c);
        })
  ])
]
