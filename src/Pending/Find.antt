-- ===== src/Pending/Find.antt =====
-- What the identifiers of the records lead to.
use okscada.Prelude.{
  ℕ, zero, suc, ◌+◌, ◌-◌, ◌*◌, ◌%◌, ◌≤◌, ◌<◌, ◌≡◌, ◌≢◌, refl, sym, ap, ◌∙◌, Bool, true, false, not,
  ◌||◌, List, [], ◌∷◌, ◌++◌, Option, none, some, length, set, get_elem?, get_elem?-set_ne,
  replicate, ltb, ltb→lt, leb, leb→le, ◌==◌, if◌then◌else◌, drop, subst, ◌⊎◌, arith, Bool-cases,
  inl, inr,
}
use okscada.Pending.{
  DataRecord, Pending, zero_record, grown, grown_size, free_no, new_record, next_data_id, take_slot,
  allocate_data, deallocate_data, clear_slot, find_data, if_named, used_prefix,
}
use okscada.Pending.Inv.{
  Inv, set_here, in_range, some_eq, free_no-free, appended, room_after, grown-Inv,
}

-- A position behind the end has no record, so that the test of the size can be left out.
abbrev seek : ℕ → List DataRecord → Option DataRecord
seek id rs = if id % 65536 == 0 then none else if_named id (get_elem? rs (id % 65536))

outside : (rs : List DataRecord) (i : ℕ) → leb (length rs) i ≡ true → get_elem? rs i ≡ none
outside [] i h = refl
outside (x ∷ rs) zero h = absurd (omega (arith, leb→le (suc (length rs)) 0 h))
outside (x ∷ rs) (suc i) h = outside rs i (ground (arith, h))

find_data-seek : (id : ℕ) (t : Pending) → find_data id t ≡ seek id t.chain
unfolding find_data
find_data-seek id t = elim (Bool-cases (id % 65536 == 0)) [
  | inl z ↦ rw z refl
  | inr z ↦ elim (Bool-cases (leb (length t.chain) (id % 65536))) [
    | inl h ↦ rw (z, h, outside t.chain (id % 65536) h) refl
    | inr h ↦ rw (z, h) refl
  ]
]

abbrev pub made_id : ℕ → ℕ → ℕ
made_id n i = next_data_id n % 65536 * 65536 + i

not_busy : (id : ℕ) (r : DataRecord) → r.is_busy ≡ false → if_named id (some r) ≡ none
not_busy id r b = rw b refl

seek-set_ne :
    (id i : ℕ) (rs : List DataRecord) (x : DataRecord)
    → (id % 65536 == i) ≡ false
    → seek id (set rs i x) ≡ seek id rs
seek-set_ne id i rs x e =
    ap (λ o. if id % 65536 == 0 then none else if_named id o)
      (get_elem?-set_ne rs x (ne_of (id % 65536) i e))
  where
    ne_of : (a b : ℕ) → (a == b) ≡ false → b ≢ a
    ne_of a b e = ground (arith, e)

at_slot :
    (id i : ℕ) (rs : List DataRecord) (x : DataRecord)
    → (id % 65536 == i) ≡ true
    → 1 ≤ i
    → get_elem? rs i ≡ some x
    → seek id rs ≡ if_named id (some x)
at_slot id i rs x e h g =
    let q : id % 65536 ≡ i = ground (arith, e) in
    let z : (id % 65536 == 0) ≡ false = ground (arith, q, h) in
    rw z (ap (if_named id) (ap (get_elem? rs) q ∙ g))

seek-take :
    (id n i : ℕ) (rs : List DataRecord) (r : DataRecord)
    → get_elem? rs i ≡ some r
    → r.is_busy ≡ false
    → 1 ≤ i
    → i < 65536
    → seek id (set rs i (new_record n i))
      ≡ (if n % 65536 * 65536 + i == id then some (new_record n i) else seek id rs)
seek-take id n i rs r g b h h' = elim (Bool-cases (id % 65536 == i)) [
  | inl e ↦
      at_slot id i (set rs i (new_record n i)) (new_record n i) e h
        (set_here rs i (new_record n i) r g)
      ∙ sym (
          ap (λ o. if n % 65536 * 65536 + i == id then some (new_record n i) else o)
            (at_slot id i rs r e h g ∙ not_busy id r b))
  | inr e ↦
      seek-set_ne id i rs (new_record n i) e
      ∙ ap (λ c. if c then some (new_record n i) else seek id rs) (sym (other_id id n i e h'))
]
  where
    other_id :
        (id n i : ℕ) → (id % 65536 == i) ≡ false → i < 65536 → (n % 65536 * 65536 + i == id) ≡ false
    other_id id n i e h = ground (arith, e, h)

-- Blank records behind the end are not found.
seek-append :
    (id n : ℕ) (rs : List DataRecord) → seek id (rs ++ replicate n zero_record) ≡ seek id rs
seek-append id n rs =
    ap (λ o. if id % 65536 == 0 then none else o) (named_append id n rs (id % 65536))
  where
    named_append :
        (id n : ℕ) (rs : List DataRecord) (i : ℕ)
        → if_named id (get_elem? (rs ++ replicate n zero_record) i) ≡ if_named id (get_elem? rs i)
    named_append id zero [] i = refl
    named_append id (suc n) [] zero = refl
    named_append id (suc n) [] (suc i) = named_append id n [] i
    named_append id n (x ∷ rs) zero = refl
    named_append id n (x ∷ rs) (suc i) = named_append id n rs i

-- No record from slot 1 on is free, and no slots can be added.
pub record Full (has_memory : Bool) (t : Pending) : Type 0 where
  pub none_free : (i : ℕ) (r : DataRecord) → get_elem? t.chain (suc i) ≡ some r → r.is_busy ≡ true
  pub none_added : (has_memory ≡ false) ⊎ (length t.chain ≡ 65535)

used_prefix-all :
    (rs : List DataRecord) (i : ℕ) (r : DataRecord)
    → length rs ≤ used_prefix rs
    → get_elem? rs i ≡ some r
    → r.is_busy ≡ true
used_prefix-all [] i r h e = cc
used_prefix-all (x ∷ rs) zero r h e =
    subst (λ z. z.is_busy ≡ true) (some_eq x r e) (ground (arith, h))
used_prefix-all (x ∷ rs) (suc i) r h e = used_prefix-all rs i r (ground (arith, h)) e

free_no-all :
    (rs : List DataRecord) (i : ℕ) (r : DataRecord)
    → ltb (suc (used_prefix (drop 1 rs))) (length rs) ≡ false
    → get_elem? rs (suc i) ≡ some r
    → r.is_busy ≡ true
free_no-all [] i r h e = cc
free_no-all (x ∷ rs) i r h e = used_prefix-all rs i r (ground (arith, h)) e

not_grown :
    (size : ℕ) (m : Bool)
    → size ≤ 65535
    → (grown_size size == size || not m) ≡ true
    → (m ≡ false) ⊎ (size ≡ 65535)
not_grown size false h e = inl refl
not_grown size true h e = inr (ground (arith, h, e))

-- The new record is found by its identifier, and every other identifier gives what it gave; or none was taken,
-- since there was no room, and nothing has changed.
abbrev pub Allocated : Bool → Pending → Pending × Option ℕ → Type 0
Allocated has_memory t (t', none) = (t' ≡ t) × Full has_memory t
Allocated has_memory t (t', some i) =
    (id : ℕ)
    → find_data id t' ≡ (
        if made_id t.next_id i == id
        then some (new_record (next_data_id t.next_id) i)
        else find_data id t)

take_slot-Allocated :
    (t u : Pending) (i : ℕ) (r : DataRecord)
    → ((id : ℕ) → seek id u.chain ≡ seek id t.chain)
    → u.next_id ≡ t.next_id
    → get_elem? u.chain i ≡ some r
    → r.is_busy ≡ false
    → 1 ≤ i
    → i < 65536
    → (has_memory : Bool) → Allocated has_memory t (take_slot i u, some i)
take_slot-Allocated t u i r s q g b h h' has_memory = λ id.
    find_data-seek id (take_slot i u)
    ∙ ap (λ n. seek id (set u.chain i (new_record (next_data_id n) i))) q
    ∙ seek-take id (next_data_id t.next_id) i u.chain r g b h h'
    ∙ ap
        (λ o. if made_id t.next_id i == id then some (new_record (next_data_id t.next_id) i) else o)
        (s id ∙ sym (find_data-seek id t))

-- From right counts and places, ohubAllocateData takes a record whose identifier ohubFindData leads to it, while every other identifier leads to
-- what it led to; or it takes none and changes nothing, and this only where every slot from 1 on is busy and there is
-- no memory for more or there are 65535 already.
pub allocate_data-Allocated :
    (has_memory : Bool) (t : Pending) → Inv t → Allocated has_memory t (allocate_data has_memory t)
unfolding allocate_data
allocate_data-Allocated has_memory t v = elim (Bool-cases (ltb (free_no t) (length t.chain))) [
  | inl e ↦ rw e (
      let l = ltb→lt (free_no t) (length t.chain) e in
      let (r, q) = in_range t.chain (free_no t) l in
      take_slot-Allocated t t (free_no t) r (λ id. refl) refl q (free_no-free t.chain r q)
        (omega arith) (omega (arith, v.size, l)) has_memory)
  | inr e ↦ elim (Bool-cases (grown_size (length t.chain) == length t.chain || not has_memory)) [
    | inl f ↦
        rw (e, f)
          (
            refl,
            record {
              none_free = λ i. λ r. λ q. free_no-all t.chain i r e q;
              none_added = not_grown (length t.chain) has_memory v.size f;
            },
          )
    | inr f ↦
        rw (e, f)
          (let k = grown_size (length t.chain) - length t.chain in
            let l =
              room_after t (grown_size (length t.chain) == length t.chain) (not has_memory) v.size
                refl f in
            let (r, q) = in_range (grown t).chain (free_no t) l in
            take_slot-Allocated t (grown t) (free_no t) r (λ id. seek-append id k t.chain) refl q
              (elim (appended t.chain k (free_no t) r q) [
                | inl z ↦ free_no-free t.chain r z
                | inr z ↦ ap (λ x. x.is_busy) z
              ])
              (omega arith) (omega (arith, l, (grown-Inv t v).size)) has_memory)
  ]
]

-- After ohubDeallocateData of a record, no identifier for its slot leads to a record, and every other identifier leads
-- to what it led to.
pub deallocate_data-find_data :
    (i : ℕ) (t : Pending) (r : DataRecord) (id : ℕ)
    → get_elem? t.chain i ≡ some r
    → 1 ≤ i
    → find_data id (deallocate_data i t) ≡ (if id % 65536 == i then none else find_data id t)
unfolding deallocate_data
deallocate_data-find_data i t r id e h = rw e (
    find_data-seek id (clear_slot i t (some r)) ∙ elim (Bool-cases (id % 65536 == i)) [
      | inl b ↦ rw b (
          at_slot id i (set t.chain i zero_record) zero_record b h
            (set_here t.chain i zero_record r e))
      | inr b ↦ rw b (seek-set_ne id i t.chain zero_record b ∙ sym (find_data-seek id t))
    ])
