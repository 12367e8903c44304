-- ===== src/Quarks/Load/Chains.antt =====
-- The chains of the records with the same global name.
use okscada.Prelude.{
  ℕ, zero, suc, ◌+◌, ◌≤◌, ◌<◌, ◌≡◌, refl, sym, ap, subst, ◌∙◌, List, [], ◌∷◌, ◌++◌, Option, none,
  some, length, length-append, length-set, get_or-append_left, get_or-append_last, get_or-set_self,
  get_or-set_ne, set, ◌==◌, arith, Bool-cases, Option-cases, inl, inr, ◌⊎◌, ==_iff,
}
use okscada.Prelude.CString.{str_at}
use okscada.Tree.Text.Sound.{EndsIn}
use okscada.Quarks.{Record}
use okscada.Quarks.Load.{zero_record, record_at, last_of, set_next}

-- The global name of the record with that number.
abbrev pub global_name : List ℕ → List Record → ℕ → List ℕ
global_name heap recs k = str_at heap (record_at recs k).glob_off

-- A chain leads to later records of the table, of the same global name.
abbrev pub Chained : List ℕ → List Record → Type 0
Chained heap recs =
    (k j : ℕ)
    → k < length recs
    → (record_at recs k).next_no ≡ some j
    → (k < j) × (j < length recs) × (global_name heap recs j ≡ global_name heap recs k)

-- With fuel for the records that are left, the end of the chain is found.
pub last_of_lem :
    (fuel : ℕ) (heap : List ℕ) (recs : List Record) (k : ℕ)
    → Chained heap recs
    → k < length recs
    → length recs ≤ fuel + k
    → let l = last_of fuel recs k in
      (l < length recs)
      × ((record_at recs l).next_no ≡ none)
      × (global_name heap recs l ≡ global_name heap recs k)
unfolding last_of
last_of_lem zero heap recs k c h e = absurd (omega (arith, h, e))
last_of_lem (suc fuel) heap recs k c h e = elim (Option-cases (record_at recs k).next_no) [
  | inl z ↦ rw (z, last_of) (h, z, refl)
  | inr (j, z) ↦
      let (a, b, g) = c k j h z in
      let (l, n, g') = last_of_lem fuel heap recs j c b (omega (arith, a, e)) in
      rw (z, last_of) (l, n, g' ∙ g)
]

-- The table with one more record, whose global name is `g`: the old ones keep what they had, but for one of that name
-- at the end of its chain, which now leads to the new record.
pub record Linked (heap : List ℕ) (recs recs' : List Record) (r : Record) (g : List ℕ)
    : Type 0 where
  pub one_more : length recs' ≡ suc (length recs)
  pub last : record_at recs' (length recs) ≡ r
  pub olds :
      (k : ℕ)
      → k < length recs
      → (o : Option ℕ) × (record_at recs' k ≡ record (record_at recs k) { next_no = o })
        × ((o ≡ (record_at recs k).next_no)
            ⊎ ((o ≡ some (length recs))
                × ((record_at recs k).next_no ≡ none)
                × (global_name heap recs k ≡ g)))

pub append-Linked :
    (heap : List ℕ) (recs : List Record) (r : Record) (g : List ℕ)
    → Linked heap recs (recs ++ r ∷ []) r g
append-Linked heap recs r g = record {
  one_more = omega (arith, length-append recs (r ∷ []));
  last = get_or-append_last recs r zero_record;
  olds = λ k h.
      ((record_at recs k).next_no, get_or-append_left recs (r ∷ []) k zero_record h, inl refl);
}

pub set_next-Linked :
    (heap : List ℕ) (recs : List Record) (r : Record) (g : List ℕ) (l : ℕ)
    → l < length recs
    → (record_at recs l).next_no ≡ none
    → global_name heap recs l ≡ g
    → Linked heap recs (set_next recs l (length recs) ++ r ∷ []) r g
set_next-Linked heap recs r g l h n e =
    let v = record (record_at recs l) { next_no = some (length recs) } in
    let same = length-set recs l v in
    record {
      one_more = omega (arith, length-append (set recs l v) (r ∷ []), same);
      last =
          subst (λ i. record_at (set recs l v ++ r ∷ []) i ≡ r) same
            (get_or-append_last (set recs l v) r zero_record);
      olds = λ k a.
          let left =
            get_or-append_left (set recs l v) (r ∷ []) k zero_record (omega (arith, same, a)) in
          elim (Bool-cases (l == k)) [
            | inl z ↦
                let q : l ≡ k = (==_iff l k).0 z in
                (
                  some (length recs),
                  left
                      ∙ subst
                          (λ i.
                            record_at (set recs l v) i
                            ≡ record (record_at recs i) { next_no = some (length recs) })
                          q (get_or-set_self recs l v zero_record h),
                  inr (
                    refl,
                    subst (λ i. (record_at recs i).next_no ≡ none) q n,
                    subst (λ i. global_name heap recs i ≡ g) q e,
                  ),
                )
            | inr z ↦ (
              (record_at recs k).next_no,
              left ∙ get_or-set_ne recs l k v zero_record (ground (arith, z)),
              inl refl,
            )
          ];
    }

-- Each record's name ends in the heap, for the field that has its place.
abbrev pub Ends : (Record → ℕ) → List ℕ → List Record → Type 0
Ends off heap recs = (k : ℕ) → k < length recs → EndsIn heap (off (record_at recs k))

-- A field that the chain is not.
abbrev pub Apart : (Record → ℕ) → Type 0
Apart off = (r : Record) (o : Option ℕ) → off (record r { next_no = o }) ≡ off r

pub off_kept :
    {heap : List ℕ} {recs recs' : List Record} {r : Record} {g : List ℕ} (off : Record → ℕ)
    → Apart off
    → Linked heap recs recs' r g
    → (k : ℕ) → k < length recs
    → off (record_at recs' k) ≡ off (record_at recs k)
off_kept off apart l k h = let (o, e, _) = l.olds k h in ap off e ∙ apart _ o

pub name_kept :
    {heap : List ℕ} {recs recs' : List Record} {r : Record} {g : List ℕ} (off : Record → ℕ)
    (names more : List ℕ)
    → Apart off
    → Linked heap recs recs' r g
    → Ends off names recs
    → (k : ℕ) → k < length recs
    → str_at (names ++ more) (off (record_at recs' k)) ≡ str_at names (off (record_at recs k))
name_kept off names more apart l ends k h =
    ap (str_at (names ++ more)) (off_kept off apart l k h) ∙ ends k h more

some_eq : (a b : ℕ) → some a ≡ some b → a ≡ b
some_eq a b e = cc

pub Linked-Chained :
    (heap more : List ℕ) (recs recs' : List Record) (r : Record) (g : List ℕ)
    → Linked heap recs recs' r g
    → Ends (λ x. x.glob_off) heap recs
    → Chained heap recs
    → r.next_no ≡ none
    → str_at (heap ++ more) r.glob_off ≡ g
    → Chained (heap ++ more) recs'
Linked-Chained heap more recs recs' r g l ends c none_yet named k j h n =
    let kept = name_kept (λ x. x.glob_off) heap more (λ x o. refl) l ends in
    let new_name : global_name (heap ++ more) recs' (length recs) ≡ g =
      ap (λ x. str_at (heap ++ more) x.glob_off) l.last ∙ named in
    elim (Bool-cases (k == length recs)) [
      | inl z ↦
          let q : k ≡ length recs = (==_iff k (length recs)).0 z in
          let stop : r.next_no ≡ some j =
            ap (λ x. x.next_no) (sym l.last) ∙ ap (λ i. (record_at recs' i).next_no) (sym q) ∙ n in
          cc (stop, none_yet)
      | inr z ↦
          let old : k < length recs = ground (arith, z, h, l.one_more) in
          let (o, e, way) = l.olds k old in
          let next : o ≡ some j = sym (ap (λ x. x.next_no) e) ∙ n in
          elim way [
            | inl same ↦
                let (a, b, s) = c k j old (sym same ∙ next) in
                (a, omega (arith, b, l.one_more), kept j b ∙ s ∙ sym (kept k old))
            | inr (to_new, _, s) ↦
                let q : length recs ≡ j = some_eq (length recs) j (sym to_new ∙ next) in
                (
                  omega (arith, q, old),
                  omega (arith, q, l.one_more),
                  ap (global_name (heap ++ more) recs') (sym q)
                      ∙ new_name
                      ∙ sym s
                      ∙ sym (kept k old),
                )
          ]
    ]
