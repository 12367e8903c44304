-- ===== src/Quarks/Desc/Search.antt =====
-- The search for a record by its canonical name.
use okscada.Prelude.{
  ℕ, ◌≡◌, refl, sym, ap, ◌∙◌, Bool, not, ◌&&◌, ◌||◌, List, [], ◌∷◌, ◌++◌, Option, none, some,
  get_elem?, if◌then◌else◌, arith, Bool-cases, Option-cases, inl, inr,
}
use okscada.Prelude.CString.{StringCompare, bytes_eq, bytes_eq_iff}
use okscada.Tree.{Tree}
use okscada.Tree.Text.{tree_find}
use okscada.Tree.Text.Sound.{IsText, text_lookup}
use okscada.Tree.Text.Refine.{tree_find_refines}
use okscada.Quarks.{Record, Module}
use okscada.Quarks.Desc.{name_fits, is_empty, find_canonical_record, find_record}

-- The empty name stands for every name.
unfoldable pub names : List ℕ → List ℕ → Bool
names name other = is_empty name || bytes_eq name other

-- The names of a module, and the record.
abbrev pub named : Option (Module × Record) → Option (List ℕ × List ℕ × Record)
named none = none
named (some (m, r)) = some (m.subject_name, m.nick_name, r)

abbrev pub or_else {ℓ} : {A : Type ℓ} → Option A → Option A → Option A
or_else none b = b
or_else (some a) b = some a

-- The record that a number leads to.
abbrev pub picked :
    Module → Option ℕ → Option (List ℕ × List ℕ × Record) → Option (List ℕ × List ℕ × Record)
picked m none rest = rest
picked m (some k) rest = elim (get_elem? m.records k) [
  | none ↦ none
  | some r ↦ some (m.subject_name, m.nick_name, r)
]

module _ (c : StringCompare) where
  -- The record of the first module of these names whose map has the path.
  unfoldable pub first_record :
      List ℕ → List ℕ → List ℕ → List Module → Option (List ℕ × List ℕ × Record)
  first_record module_name subject path [] = none
  first_record module_name subject path (m ∷ ms) =
      let rest = first_record module_name subject path ms in
      if names module_name m.nick_name && names subject m.subject_name
      then picked m (text_lookup c m.quarks_byname path) rest
      else rest

  abbrev pub AllText : List Module → Type 0
  AllText [] = Unit {0}
  AllText (m ∷ ms) = IsText m.quarks_byname × AllText ms

  -- Only the depths in the trees differ.
  pub record SameModule (m m' : Module) : Type 0 where
    pub text : IsText m'.quarks_byname
    pub same : m' ≡ record m { quarks_byname = m'.quarks_byname }
    pub lookups : (s : List ℕ) → text_lookup c m'.quarks_byname s ≡ text_lookup c m.quarks_byname s

  abbrev pub SameModules : List Module → List Module → Type 0
  SameModules [] [] = Unit {0}
  SameModules [] (m' ∷ ms') = ⊥
  SameModules (m ∷ ms) [] = ⊥
  SameModules (m ∷ ms) (m' ∷ ms') = SameModule m m' × SameModules ms ms'

  names-name_fits : (name other : List ℕ) → name_fits c name other ≡ names name other
  unfolding names
  names-name_fits name other = ground (arith, c.strcmp_iff name other, bytes_eq_iff name other)

  same_modules : (ms : List Module) → AllText ms → SameModules ms ms
  same_modules [] h = tt
  same_modules (m ∷ ms) (t, h) =
      (record { text = t; same = refl; lookups = λ s. refl }, same_modules ms h)

  searched :
      (m : Module) (path : List ℕ)
      → IsText m.quarks_byname
      → SameModule m (record m { quarks_byname = (tree_find c m.quarks_byname path).0 })
  searched m path t = record {
    text = (tree_find_refines c m.quarks_byname path [] t).0;
    same = refl;
    lookups = λ s. (tree_find_refines c m.quarks_byname path s t).2;
  }

  de_morgan : (x y : Bool) → (not x || not y) ≡ not (x && y)
  de_morgan x y = ground arith

  find_canonical_record-first :
      (module_name subject path : List ℕ) (ms : List Module)
      → AllText ms
      → let (ms', r) = find_canonical_record c module_name subject path ms in
        SameModules ms ms' × (named r ≡ first_record module_name subject path ms)
  unfolding find_canonical_record first_record
  find_canonical_record-first module_name subject path [] h = (tt, refl)
  find_canonical_record-first module_name subject path (m ∷ ms) (t, h) =
      let (s, r) = find_canonical_record-first module_name subject path ms h in
      let here = searched m path t in
      let got = (tree_find_refines c m.quarks_byname path [] t).1 in
      let a = names-name_fits module_name m.nick_name in
      let b = names-name_fits subject m.subject_name in
      let d = de_morgan (names module_name m.nick_name) (names subject m.subject_name) in
      let unchanged : SameModule m m = record { text = t; same = refl; lookups = λ s. refl } in
      elim (Bool-cases (names module_name m.nick_name && names subject m.subject_name)) [
        | inl e ↦ elim (Option-cases (text_lookup c m.quarks_byname path)) [
          | inl z ↦ rw (a, b, d, e, got, z) ((here, s), r)
          | inr (k, z) ↦ elim (Option-cases (get_elem? m.records k)) [
            | inl g ↦ rw (a, b, d, e, got, z, picked, g) ((here, same_modules ms h), refl)
            | inr (x, g) ↦ rw (a, b, d, e, got, z, picked, g) ((here, same_modules ms h), refl)
          ]
        ]
        | inr e ↦ rw (a, b, d, e) ((unchanged, s), r)
      ]

  same_text : (ms ms' : List Module) → SameModules ms ms' → AllText ms'
  same_text [] [] s = tt
  same_text [] (m' ∷ ms') s = absurd s
  same_text (m ∷ ms) [] s = absurd s
  same_text (m ∷ ms) (m' ∷ ms') (e, s) = (e.text, same_text ms ms' s)

  with_tree :
      {a b : Module} {t : Tree}
      → a ≡ b
      → record a { quarks_byname = t } ≡ record b { quarks_byname = t }
  with_tree e = rw e refl

  SameModule-trans : (a b d : Module) → SameModule a b → SameModule b d → SameModule a d
  SameModule-trans a b d i j = record {
    text = j.text;
    same = j.same ∙ with_tree i.same;
    lookups = λ s. j.lookups s ∙ i.lookups s;
  }

  SameModules-trans : (a b d : List Module) → SameModules a b → SameModules b d → SameModules a d
  SameModules-trans [] [] d i j = j
  SameModules-trans [] (y ∷ b) d i j = absurd i
  SameModules-trans (x ∷ a) [] d i j = absurd i
  SameModules-trans (x ∷ a) (y ∷ b) [] i j = absurd j
  SameModules-trans (x ∷ a) (y ∷ b) (z ∷ d) (i, s) (j, t) =
      (SameModule-trans x y z i j, SameModules-trans a b d s t)

  first-same :
      (module_name subject path : List ℕ) (ms ms' : List Module)
      → SameModules ms ms'
      → first_record module_name subject path ms' ≡ first_record module_name subject path ms
  unfolding first_record
  first-same module_name subject path [] [] s = refl
  first-same module_name subject path [] (m' ∷ ms') s = absurd s
  first-same module_name subject path (m ∷ ms) [] s = absurd s
  first-same module_name subject path (m ∷ ms) (m' ∷ ms') (e, s) =
      let rest = first-same module_name subject path ms ms' s in
      rw (e.lookups path, rest, e.same) refl

  -- With trees that are well-formed, the record that is found is the one of the first module of these names whose map
  -- has the path, or else the one for the path with a '+' behind it; nothing but the depths in the trees is changed.
  pub find_record-first :
      (module_name subject path : List ℕ) (ms : List Module)
      → AllText ms
      → let (ms', r) = find_record c module_name subject path ms in
        SameModules ms ms'
        × (named r
            ≡ or_else
                (first_record module_name subject path ms)
                (first_record module_name subject (path ++ 43 ∷ []) ms))
  unfolding find_record
  find_record-first module_name subject path ms h =
      let once = find_canonical_record c module_name subject path ms in
      let (s, r) = find_canonical_record-first module_name subject path ms h in
      let (s', r') =
        find_canonical_record-first module_name subject (path ++ 43 ∷ []) once.0
          (same_text ms once.0 s) in
      let plus = first_record module_name subject (path ++ 43 ∷ []) ms in
      elim (Option-cases once.1) [
        | inl e ↦
            rw (find_record, e)
              (
                SameModules-trans ms once.0 _ s s',
                r'
                    ∙ first-same module_name subject (path ++ 43 ∷ []) ms once.0 s
                    ∙ ap (λ o. or_else o plus) (sym (ap named e) ∙ r),
              )
        | inr (x, e) ↦ rw (find_record, e) (s, ap (λ o. or_else o plus) (sym (ap named e) ∙ r))
      ]
