-- ===== src/Watch/Data.antt =====
-- The data that the caller ties to an operation.
use okscada.Prelude.{
  ℕ, zero, suc, ◌≡◌, refl, sym, ◌∙◌, true, false, List, [], ◌∷◌, some, length-set, get_elem?, set,
  Bool-cases, inl, inr,
}
use okscada.Prelude.Int.{ℤ}
use okscada.Watch.{
  OpRecord, Ops, is_free, no_of_op, put, in_use, is_slot, get_op_record, set_op_data, get_op_data,
  ◌=ℤ◌,
}
use okscada.Watch.Slots.{get_op_record-used, get_op_record-in_slot, get_op_record-no_slot}

in_use-set_used :
    (rs : List OpRecord) (i : ℕ) (r r' : OpRecord)
    → get_elem? rs i ≡ some r
    → is_free r'.op_state ≡ false
    → in_use (get_elem? (set rs i r') i) ≡ some r'
in_use-set_used [] i r r' e f = cc
in_use-set_used (x ∷ rs) zero r r' e f = rw f refl
in_use-set_used (x ∷ rs) (suc i) r r' e f = in_use-set_used rs i r r' e f

is_slot-put : (op : ℤ) (t : Ops) (r : OpRecord) (n : ℕ) → is_slot (put op r t) n ≡ is_slot t n
is_slot-put op t r n = rw (length-set t.slots (no_of_op op) r) refl

get_op_record-put_used :
    (op : ℤ) (t : Ops) (r r' : OpRecord)
    → get_op_record op t ≡ some r
    → is_free r'.op_state ≡ false
    → get_op_record op (put op r' t) ≡ some r'
get_op_record-put_used op t r r' e f =
    let (g, u) = get_op_record-used op t r e in
    elim (Bool-cases (is_slot t (no_of_op op))) [
      | inl s ↦
          sym (get_op_record-in_slot op (put op r' t) (is_slot-put op t r' (no_of_op op) ∙ s))
          ∙ in_use-set_used t.slots (no_of_op op) r r' g f
      | inr s ↦ absurd (get_op_record-no_slot op t r s e)
    ]

set_op_data-done :
    (op data1 data2 : ℤ) (t : Ops) (r : OpRecord)
    → get_op_record op t ≡ some r
    → r.op =ℤ op ≡ true
    → set_op_data op data1 data2 t ≡ (put op (record r { data1 = data1; data2 = data2 }) t, true)
unfolding set_op_data
set_op_data-done op data1 data2 t r e f = rw (e, f) refl

-- `owatchSetOpData` of an operation in use, whose identifier is the one given, succeeds, and
-- `owatchGetOpData` gives those data from then on.
pub set_op_data-get_op_data :
    (op data1 data2 : ℤ) (t : Ops) (r : OpRecord)
    → get_op_record op t ≡ some r
    → r.op =ℤ op ≡ true
    → let (t', good) = set_op_data op data1 data2 t in
      (good ≡ true) × (get_op_data op t' ≡ ((data1, data2), true))
unfolding get_op_data
set_op_data-get_op_data op data1 data2 t r e f =
    let r' = record r { data1 = data1; data2 = data2 } in
    let (g, u) = get_op_record-used op t r e in
    rw (set_op_data-done op data1 data2 t r e f, get_op_record-put_used op t r r' e u, f)
      (refl, refl)
