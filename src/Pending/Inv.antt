-- ===== src/Pending/Inv.antt =====
-- The counts of the records and of the writes that are put off, and where the records are.
use okscada.Prelude.{
  ℕ, zero, suc, ◌+◌, ◌-◌, ◌%◌, ◌≤◌, ◌<◌, ◌≡◌, ◌≢◌, ◌⊎◌, inl, inr, refl, sym, ap, ◌∙◌, subst, Bool,
  true, false, not, ◌&&◌, ◌||◌, List, [], ◌∷◌, ◌++◌, some, length, length-set, length-append,
  length-replicate, length-drop, ltb, ltb→lt, ◌==◌, if◌then◌else◌, get_elem?, set, get_elem?-set_ne,
  drop, replicate, arith, Bool-cases,
}
use okscada.Pending.{
  DataRecord, zero_record, Pending, used_prefix, free_no, grown_size, next_data_id, new_record,
  take_slot, grown, allocate_data, is_secured, clear_slot, deallocate_data,
}

abbrev pub busy : DataRecord → ℕ
busy r = if r.is_busy then 1 else 0

abbrev pub secured : DataRecord → ℕ
secured r = if is_secured r.securing_flag then 1 else 0

abbrev pub total : (DataRecord → ℕ) → List DataRecord → ℕ
total w [] = 0
total w (r ∷ rs) = w r + total w rs

pub total-set :
    (w : DataRecord → ℕ) (rs : List DataRecord) (i : ℕ) (r r' : DataRecord)
    → get_elem? rs i ≡ some r
    → total w (set rs i r') + w r ≡ total w rs + w r'
total-set w [] i r r' e = cc
total-set w (x ∷ rs) zero r r' e = omega (arith, ap w (some_eq x r e))
  where
    some_eq : (a b : DataRecord) → some a ≡ some b → a ≡ b
    some_eq a b q = cc
total-set w (x ∷ rs) (suc i) r r' e = omega (arith, total-set w rs i r r' e)

pub total-append :
    (w : DataRecord → ℕ) (xs ys : List DataRecord) → total w (xs ++ ys) ≡ total w xs + total w ys
total-append w [] ys = omega arith
total-append w (x ∷ xs) ys = omega (arith, total-append w xs ys)

pub total-replicate :
    (w : DataRecord → ℕ) (n : ℕ) → w zero_record ≡ 0 → total w (replicate n zero_record) ≡ 0
total-replicate w zero e = refl
total-replicate w (suc n) e = omega (arith, e, total-replicate w n e)

-- A record that is busy has its slot in its number and its identifier, and one that is not is blank.
abbrev pub is_placed : ℕ → DataRecord → Bool
is_placed i r =
    if r.is_busy
    then not (i == 0) && (r.slot == i && r.id % 65536 == i)
    else not (is_secured r.securing_flag)

pub record Inv (t : Pending) : Type 0 where
  pub size : length t.chain ≤ 65535
  pub counted : t.chain_len ≡ total busy t.chain
  pub postponed_counted : t.securing_qty ≡ total secured t.chain
  pub placed : (i : ℕ) (r : DataRecord) → get_elem? t.chain i ≡ some r → is_placed i r ≡ true

pub some_eq : {A : Type 0} (a b : A) → some a ≡ some b → a ≡ b
some_eq a b q = cc

pub set_here :
    (rs : List DataRecord) (j : ℕ) (x y : DataRecord)
    → get_elem? rs j ≡ some y
    → get_elem? (set rs j x) j ≡ some x
set_here [] j x y e = cc
set_here (r ∷ rs) zero x y e = refl
set_here (r ∷ rs) (suc j) x y e = set_here rs j x y e

-- A record is put in place of another.
pub placed_set :
    (rs : List DataRecord) (j : ℕ) (x y : DataRecord)
    → get_elem? rs j ≡ some y
    → is_placed j x ≡ true
    → ((i : ℕ) (r : DataRecord) → get_elem? rs i ≡ some r → is_placed i r ≡ true)
    → (i : ℕ) (r : DataRecord) → get_elem? (set rs j x) i ≡ some r
    → is_placed i r ≡ true
placed_set rs j x y e p a i r q = elim (Bool-cases (j == i)) [
  | inl b ↦
      subst (λ z. is_placed z r ≡ true) (eq_of j i b)
        (subst (λ z. is_placed j z ≡ true)
          (some_eq x r (
            sym (set_here rs j x y e)
            ∙ subst (λ z. get_elem? (set rs j x) z ≡ some r) (sym (eq_of j i b)) q))
          p)
  | inr b ↦ a i r (sym (get_elem?-set_ne rs x (ne_of j i b)) ∙ q)
]
  where
    ne_of : (a b : ℕ) → (a == b) ≡ false → a ≢ b
    ne_of a b e = ground (arith, e)

    eq_of : (a b : ℕ) → (a == b) ≡ true → a ≡ b
    eq_of a b e = ground (arith, e)

-- The slot of `r` gets the record `r'`, and the two counts follow.
pub put-Inv :
    (t t' : Pending) (i : ℕ) (r r' : DataRecord)
    → Inv t
    → get_elem? t.chain i ≡ some r
    → is_placed i r' ≡ true
    → t'.chain ≡ set t.chain i r'
    → t'.chain_len + busy r ≡ t.chain_len + busy r'
    → t'.securing_qty + secured r ≡ t.securing_qty + secured r'
    → Inv t'
put-Inv t t' i r r' v e p c n q =
    let b = total-set busy t.chain i r r' e in
    let s = total-set secured t.chain i r r' e in
    let cb : total busy t'.chain ≡ total busy (set t.chain i r') = ap (total busy) c in
    let cs : total secured t'.chain ≡ total secured (set t.chain i r') = ap (total secured) c in
    let l : length t'.chain ≡ length t.chain = ap length c ∙ length-set t.chain i r' in
    record {
      size = omega (arith, l, v.size);
      counted = omega (arith, n, b, cb, v.counted);
      postponed_counted = omega (arith, q, s, cs, v.postponed_counted);
      placed =
          subst (λ z. (j : ℕ) (x : DataRecord) → get_elem? z j ≡ some x → is_placed j x ≡ true)
            (sym c) (placed_set t.chain i r' r e p v.placed);
    }

-- A busy record is counted, and so is one that is put off.
pub busy_total :
    (w : DataRecord → ℕ) (rs : List DataRecord) (i : ℕ) (r : DataRecord)
    → get_elem? rs i ≡ some r
    → w r ≤ total w rs
busy_total w [] i r e = cc
busy_total w (x ∷ rs) zero r e = omega (arith, ap w (some_eq x r e))
busy_total w (x ∷ rs) (suc i) r e = omega (arith, busy_total w rs i r e)

pub deallocate_data-Inv :
    (i : ℕ) (t : Pending) (r : DataRecord)
    → Inv t
    → get_elem? t.chain i ≡ some r
    → r.is_busy ≡ true
    → Inv (deallocate_data i t)
unfolding deallocate_data
deallocate_data-Inv i t r v e u = rw e (
    put-Inv t (clear_slot i t (some r)) i r zero_record v e refl refl
      (ground (arith, u, busy_total busy t.chain i r e, v.counted))
      (ground (arith, busy_total secured t.chain i r e, v.postponed_counted)))

-- The record behind the used prefix is not busy.
used_prefix-free :
    (rs : List DataRecord) (r : DataRecord)
    → get_elem? rs (used_prefix rs) ≡ some r
    → r.is_busy ≡ false
used_prefix-free [] r e = cc
used_prefix-free (x ∷ rs) r e = elim (Bool-cases x.is_busy) [
  | inl b ↦ used_prefix-free rs r (sym (index b) ∙ e)
  | inr b ↦ subst (λ z. z.is_busy ≡ false) (some_eq x r (sym (index b) ∙ e)) b
]
  where
    index :
        {z : Bool}
        → x.is_busy ≡ z
        → get_elem? (x ∷ rs) (if x.is_busy then suc (used_prefix rs) else 0)
          ≡ get_elem? (x ∷ rs) (if z then suc (used_prefix rs) else 0)
    index b = ap (λ z. get_elem? (x ∷ rs) (if z then suc (used_prefix rs) else 0)) b

used_prefix-short : (rs : List DataRecord) → used_prefix rs ≤ length rs
used_prefix-short [] = omega arith
used_prefix-short (x ∷ rs) = ground (arith, used_prefix-short rs)

pub in_range :
    (rs : List DataRecord) (i : ℕ) → i < length rs → (r : DataRecord) × (get_elem? rs i ≡ some r)
in_range [] i h = elim h [ ]
in_range (x ∷ rs) zero h = (x, refl)
in_range (x ∷ rs) (suc i) h = in_range rs i (omega (arith, h))

pub free_no-free :
    (rs : List DataRecord) (r : DataRecord)
    → get_elem? rs (suc (used_prefix (drop 1 rs))) ≡ some r
    → r.is_busy ≡ false
free_no-free [] r e = cc
free_no-free (x ∷ rs) r e = used_prefix-free rs r e

blank_secured :
    (i : ℕ) (r : DataRecord)
    → is_placed i r ≡ true
    → r.is_busy ≡ false
    → is_secured r.securing_flag ≡ false
blank_secured i r p b = ground (arith, p, b)

pub take_slot-Inv :
    (i : ℕ) (t : Pending) (r : DataRecord)
    → Inv t
    → get_elem? t.chain i ≡ some r
    → r.is_busy ≡ false
    → 1 ≤ i
    → i < 65536
    → Inv (take_slot i t)
take_slot-Inv i t r v e b h h' =
    let q = blank_secured i r (v.placed i r e) b in
    put-Inv t (take_slot i t) i r (new_record (next_data_id t.next_id) i) v e
      (new_placed i (next_data_id t.next_id) h h') refl (ground (arith, b)) (ground (arith, q))
  where
    new_placed : (i n : ℕ) → 1 ≤ i → i < 65536 → is_placed i (new_record n i) ≡ true
    new_placed i n h h' = ground (arith, h, h')

pub appended :
    (xs : List DataRecord) (n i : ℕ) (r : DataRecord)
    → get_elem? (xs ++ replicate n zero_record) i ≡ some r
    → (get_elem? xs i ≡ some r) ⊎ (r ≡ zero_record)
appended [] zero i r e = cc
appended [] (suc n) zero r e = inr (sym (some_eq zero_record r e))
appended [] (suc n) (suc i) r e = appended [] n i r e
appended (x ∷ xs) n zero r e = inl e
appended (x ∷ xs) n (suc i) r e = appended xs n i r e

grown-length :
    (t : Pending) → length t.chain ≤ 65535 → length (grown t).chain ≡ grown_size (length t.chain)
grown-length t h =
    let k = grown_size (length t.chain) - length t.chain in
    ground
      (arith, h, length-append t.chain (replicate k zero_record), length-replicate k zero_record)

pub grown-Inv : (t : Pending) → Inv t → Inv (grown t)
grown-Inv t v =
    let k = grown_size (length t.chain) - length t.chain in
    record {
      size = ground (arith, grown-length t v.size);
      counted = omega (
        arith,
        v.counted,
        total-append busy t.chain (replicate k zero_record),
        total-replicate busy k refl,
      );
      postponed_counted = omega (
        arith,
        v.postponed_counted,
        total-append secured t.chain (replicate k zero_record),
        total-replicate secured k refl,
      );
      placed = λ i. λ r. λ e. elim (appended t.chain k i r e) [
        | inl q ↦ v.placed i r q
        | inr q ↦ subst (λ z. is_placed i z ≡ true) (sym q) refl
      ];
    }

pub room_after :
    (t : Pending) (b m : Bool)
    → length t.chain ≤ 65535
    → (grown_size (length t.chain) == length t.chain) ≡ b
    → (b || m) ≡ false
    → free_no t < length (grown t).chain
room_after t b m h e f =
    let u = used_prefix-short (drop 1 t.chain) in
    ground (arith, h, e, f, u, length-drop 1 t.chain, grown-length t h)

pub grown_slot-Inv :
    (t : Pending)
    → Inv t
    → (b m : Bool) → (grown_size (length t.chain) == length t.chain) ≡ b
    → (b || m) ≡ false
    → Inv (take_slot (free_no t) (grown t))
grown_slot-Inv t v b m e f =
    let k = grown_size (length t.chain) - length t.chain in
    let l = room_after t b m v.size e f in
    let w = grown-Inv t v in
    let (r, q) = in_range (grown t).chain (free_no t) l in
    take_slot-Inv (free_no t) (grown t) r w q
      (elim (appended t.chain k (free_no t) r q) [
        | inl z ↦ free_no-free t.chain r z
        | inr z ↦ ap (λ x. x.is_busy) z
      ])
      (omega arith) (omega (arith, w.size, l))

-- `ohubAllocateData` keeps the invariant.
pub allocate_data-Inv :
    (has_memory : Bool) (t : Pending) → Inv t → Inv (allocate_data has_memory t).0
unfolding allocate_data
allocate_data-Inv has_memory t v = elim (Bool-cases (ltb (free_no t) (length t.chain))) [
  | inl e ↦ rw e (
      let (r, q) = in_range t.chain (free_no t) (ltb→lt (free_no t) (length t.chain) e) in
      take_slot-Inv (free_no t) t r v q (free_no-free t.chain r q) (omega arith)
        (omega (arith, v.size, ltb→lt (free_no t) (length t.chain) e)))
  | inr e ↦ elim (Bool-cases (grown_size (length t.chain) == length t.chain || not has_memory)) [
    | inl f ↦ rw (e, f) v
    | inr f ↦
        rw (e, f)
          (grown_slot-Inv t v (grown_size (length t.chain) == length t.chain) (not has_memory) refl
            f)
  ]
]
