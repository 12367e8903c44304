-- ===== src/Watch/Access.antt =====
-- What the identifiers of operations give access to.
use okscada.Prelude.{
  ℕ, zero, suc, ◌+◌, ◌<◌, ◌≤◌, ◌≡◌, refl, ap, ◌∙◌, ◌≢◌, true, false, List, [], ◌∷◌, Option, none,
  some, length, ltb, leb, ==_refl, ==_false, get_elem?, set, arith, length-set, get_elem?-set_self,
  get_elem?-set_ne, Bool-cases, Option-cases, inl, inr,
}
use okscada.Prelude.Int.{ℤ, pos, negsuc}
use okscada.Watch.{
  OpRecord, Ops, is_free, free_slot, allocate_op, take_slot, new_record, make_op_id, no_of_op,
  get_op_record, is_valid_op, in_use, is_op, is_slot, put, cleared, deallocate_op, get_op_data,
  ◌=ℤ◌,
}
use okscada.Watch.Slots.{Inv, free_slot-free, frees}

-- A slot below 4096 is named by the identifiers that are made for it.
no_of_op-make : (n slot : ℕ) → slot < 4096 → no_of_op (pos (make_op_id n slot)) ≡ slot
no_of_op-make n slot h = omega arith

leb-false : (a b : ℕ) → b < a → leb a b ≡ false
leb-false a b h = ground arith

ltb-false : (a b : ℕ) → b ≤ a → ltb a b ≡ false
ltb-false a b h = ground arith

=ℤ_refl : (a : ℤ) → a =ℤ a ≡ true
=ℤ_refl (pos n) = ==_refl n
=ℤ_refl (negsuc n) = ==_refl n

frees-positive :
    (rs : List OpRecord) (i : ℕ) (r : OpRecord)
    → get_elem? rs i ≡ some r
    → is_free r.op_state ≡ true
    → 0 < frees rs
unfolding frees
frees-positive [] i r e f = cc
frees-positive (x ∷ rs) zero r e f = grind (arith, e, f)
frees-positive (x ∷ rs) (suc i) r e f = ground (arith, frees-positive rs i r e f)

allocate_op-taken :
    (pcanc : Option ℕ) (data1 data2 : ℤ) (t : Ops)
    → Inv t
    → free_slot t < 8000
    → allocate_op pcanc data1 data2 t
      ≡ (take_slot pcanc data1 data2 t (free_slot t), pos (make_op_id t.next_op_id (free_slot t)))
unfolding allocate_op
allocate_op-taken pcanc data1 data2 t i h =
    let (r, e, f) = free_slot-free t i.size h in
    let size : length t.slots ≡ 8000 = i.size in
    let used : 0 < t.free_op_count = rw i.counted (frees-positive t.slots (free_slot t) r e f) in
    rw
      (
        ==_false (length t.slots) 0 (omega (arith, size)),
        ==_false t.free_op_count 0 (omega (arith, used)),
        leb-false 8000 (free_slot t) h,
      )
      refl

get_op_record-at :
    (op : ℤ) (t : Ops) (slot : ℕ)
    → no_of_op op ≡ slot
    → length t.slots ≡ 8000
    → 0 < slot
    → slot < 8000
    → get_op_record op t ≡ in_use (get_elem? t.slots slot)
unfolding get_op_record
get_op_record-at op t slot e size p q =
    rw
      (
        e,
        ltb-false slot 1 p,
        leb-false 8000 slot q,
        ==_false (length t.slots) 0 (omega (arith, size)),
      )
      refl

is_valid_op-record : (op : ℤ) (t : Ops) → is_valid_op op t ≡ is_op op (get_op_record op t)
unfolding is_valid_op get_op_record
is_valid_op-record op t = elim (Bool-cases (is_slot t (no_of_op op))) [
  | inl e ↦ rw e refl
  | inr e ↦ rw e refl
]

take_slot-record :
    (pcanc : Option ℕ) (data1 data2 : ℤ) (t : Ops)
    → Inv t
    → free_slot t < 4096
    → get_op_record
        (pos (make_op_id t.next_op_id (free_slot t)))
        (take_slot pcanc data1 data2 t (free_slot t))
      ≡ some (new_record pcanc data1 data2 t.next_op_id (free_slot t))
take_slot-record pcanc data1 data2 t i h =
    let r = new_record pcanc data1 data2 t.next_op_id (free_slot t) in
    let size : length t.slots ≡ 8000 = i.size in
    get_op_record-at (pos (make_op_id t.next_op_id (free_slot t)))
      (take_slot pcanc data1 data2 t (free_slot t)) (free_slot t)
      (no_of_op-make t.next_op_id (free_slot t) h) (length-set t.slots (free_slot t) r ∙ size)
      (omega arith) (omega (arith, h))
    ∙ ap in_use (get_elem?-set_self t.slots (free_slot t) r (omega (arith, h, size)))

-- Where the count of free slots is right and the first free slot is below 4096, the operation that is
-- allocated is valid, and its data are those it was given.
pub allocate_op-get_op_data :
    (pcanc : Option ℕ) (data1 data2 : ℤ) (t : Ops)
    → Inv t
    → free_slot t < 4096
    → let (t', op) = allocate_op pcanc data1 data2 t in
      (is_valid_op op t' ≡ true) × (get_op_data op t' ≡ ((data1, data2), true))
unfolding get_op_data
allocate_op-get_op_data pcanc data1 data2 t i h =
    let op = pos (make_op_id t.next_op_id (free_slot t)) in
    rw
      (
        allocate_op-taken pcanc data1 data2 t i (omega (arith, h)),
        is_valid_op-record op (take_slot pcanc data1 data2 t (free_slot t)),
        take_slot-record pcanc data1 data2 t i h,
        =ℤ_refl op,
      )
      (refl, refl)

get_op_record-zero : (op : ℤ) (t : Ops) → no_of_op op ≡ 0 → get_op_record op t ≡ none
unfolding get_op_record
get_op_record-zero op t e = rw e refl

deallocate_op-missing :
    (op : ℤ) (t : Ops) → get_op_record op t ≡ none → deallocate_op op t ≡ (t, false)
unfolding deallocate_op
deallocate_op-missing op t e = rw e refl

deallocate_op-found :
    (op : ℤ) (t : Ops) (r : OpRecord)
    → get_op_record op t ≡ some r
    → (deallocate_op op t).0 ≡ record (put op (cleared r) t) { free_op_count = t.free_op_count + 1 }
unfolding deallocate_op
deallocate_op-found op t r e = rw e refl

no_of_op-make_last : (n slot : ℕ) → slot ≡ 4096 → no_of_op (pos (make_op_id n slot)) ≡ 0
no_of_op-make_last n slot h = omega (arith, h)

frees-some : (t : Ops) → Inv t → free_slot t < 8000 → 0 < t.free_op_count
frees-some t i h =
    let (r, e, f) = free_slot-free t i.size h in
    rw i.counted (frees-positive t.slots (free_slot t) r e f)

-- Where the count of free slots is right and the slots 1 to 4095 are in use but slot 4096 is free, the
-- next operation takes one of the free slots, but its identifier gives no record, and to free it by
-- its identifier is an error that changes nothing.
pub allocate_op-lost :
    (pcanc : Option ℕ) (data1 data2 : ℤ) (t : Ops)
    → Inv t
    → free_slot t ≡ 4096
    → let (t', op) = allocate_op pcanc data1 data2 t in
      (t'.free_op_count + 1 ≡ t.free_op_count)
      × (get_op_record op t' ≡ none)
      × (deallocate_op op t' ≡ (t', false))
allocate_op-lost pcanc data1 data2 t i h =
    let op = pos (make_op_id t.next_op_id (free_slot t)) in
    let t' = take_slot pcanc data1 data2 t (free_slot t) in
    let lost : get_op_record op t' ≡ none =
      get_op_record-zero op t' (no_of_op-make_last t.next_op_id (free_slot t) h) in
    let some_free : 0 < t.free_op_count = frees-some t i (omega (arith, h)) in
    rw (allocate_op-taken pcanc data1 data2 t i (omega (arith, h)))
      (omega (arith, some_free), lost, deallocate_op-missing op t' lost)

in_use-set :
    (rs : List OpRecord) (i : ℕ) (r : OpRecord)
    → is_free r.op_state ≡ true
    → in_use (get_elem? (set rs i r) i) ≡ none
in_use-set [] i r f = refl
in_use-set (x ∷ rs) zero r f = rw f refl
in_use-set (x ∷ rs) (suc i) r f = in_use-set rs i r f

get_op_record-put :
    (op : ℤ) (t : Ops) (r' : OpRecord) (n : ℕ)
    → is_free r'.op_state ≡ true
    → get_op_record op (record (put op r' t) { free_op_count = n }) ≡ none
unfolding get_op_record
get_op_record-put op t r' n f =
    let t' = record (put op r' t) { free_op_count = n } in
    elim (Bool-cases (is_slot t' (no_of_op op))) [
      | inl e ↦ rw e (in_use-set t.slots (no_of_op op) r' f)
      | inr e ↦ rw e refl
    ]

get_op_record-other :
    (op other : ℤ) (t : Ops) (r : OpRecord) (n : ℕ)
    → no_of_op op ≢ no_of_op other
    → get_op_record other (record (put op r t) { free_op_count = n }) ≡ get_op_record other t
unfolding get_op_record
get_op_record-other op other t r n h =
    rw (length-set t.slots (no_of_op op) r, get_elem?-set_ne t.slots r h) refl

-- After an operation is freed its identifier gives no record and is not valid, and an identifier with
-- another slot gives what it gave before.
pub deallocate_op-get_op_record :
    (op other : ℤ) (t : Ops)
    → no_of_op op ≢ no_of_op other
    → let t' = (deallocate_op op t).0 in
      (get_op_record op t' ≡ none)
      × (is_valid_op op t' ≡ false)
      × (get_op_record other t' ≡ get_op_record other t)
deallocate_op-get_op_record op other t h = elim (Option-cases (get_op_record op t)) [
  | inl e ↦ rw (deallocate_op-missing op t e, is_valid_op-record op t, e) (refl, refl, refl)
  | inr (r, e) ↦
      let t' = record (put op (cleared r) t) { free_op_count = t.free_op_count + 1 } in
      rw
        (
          deallocate_op-found op t r e,
          is_valid_op-record op t',
          get_op_record-put op t (cleared r) (t.free_op_count + 1) refl,
        )
        (refl, refl, get_op_record-other op other t (cleared r) (t.free_op_count + 1) h)
]
