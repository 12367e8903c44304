-- ===== src/Quarks/Load/Inv.antt =====
-- What the trees, the heaps and the records of a module keep true of one another while its lines are loaded.
use okscada.Prelude.{
  ℕ, ◌<◌, ◌≡◌, refl, sym, ap, subst, ◌∙◌, true, false, List, [], ◌∷◌, ◌++◌, none, some, length,
  ◌==◌, if◌then◌else◌, arith, Bool-cases, inl, inr, ◌⊎◌, ==_iff,
}
use okscada.Prelude.CString.{
  str_at, str_at-append, IsCStr, StringCompare, bytes_eq, bytes_eq_iff, bytes_eq_refl,
  bytes_eq-false,
}
use okscada.Tree.{Tree, ushort_mod}
use okscada.Tree.Map.{add_key}
use okscada.Tree.Text.{tree_find, tree_add}
use okscada.Tree.Text.Sound.{IsText, text_lookup, EndsIn, EndsIn-append, EndsIn-new}
use okscada.Tree.Text.Refine.{
  tree_find_refines, tree_add_lookups, find-resized, resized, resized-IsText, lookup-resized,
}
use okscada.Quarks.{Record, Module}
use okscada.Quarks.Load.{record_at}
use okscada.Quarks.Load.Chains.{Chained, Linked, Ends, Apart, off_kept, name_kept}

module _ (c : StringCompare) where
  -- The tree leads from a name to a record of that name.
  abbrev pub Named : (Record → ℕ) → List ℕ → List Record → Tree → Type 0
  Named off heap recs t =
      (s : List ℕ) (k : ℕ)
      → text_lookup c t s ≡ some k
      → (k < length recs) × (str_at heap (off (record_at recs k)) ≡ s)

  -- The tree leads from each record's name to its number.
  abbrev pub Leads : (Record → ℕ) → List ℕ → List Record → Tree → Type 0
  Leads off heap recs t =
      (k : ℕ) → k < length recs → text_lookup c t (str_at heap (off (record_at recs k))) ≡ some k

  -- The tree leads from each record's name to some record.
  abbrev pub Reaches : (Record → ℕ) → List ℕ → List Record → Tree → Type 0
  Reaches off heap recs t =
      (k : ℕ)
      → k < length recs
      → (j : ℕ) × (text_lookup c t (str_at heap (off (record_at recs k))) ≡ some j)

  -- What a tree leads to leads somewhere in the other.
  abbrev pub Keeps : Tree → Tree → Type 0
  Keeps t u =
      (s : List ℕ) (k : ℕ) → text_lookup c t s ≡ some k → (j : ℕ) × (text_lookup c u s ≡ some j)

  -- Each path and each global name leads to a record of that name, each record's path to that record, each record's global name to a record, the chains lead on to records of the same global name,
  -- and each record has its number and that of the module.
  pub record Inv (m : Module) : Type 0 where
    pub path_text : IsText m.quarks_byname
    pub glob_text : IsText m.globals_byname
    pub by_path : Named (λ r. r.path_off) m.path_heap m.records m.quarks_byname
    pub by_glob : Named (λ r. r.glob_off) m.glob_heap m.records m.globals_byname
    pub paths_lead : Leads (λ r. r.path_off) m.path_heap m.records m.quarks_byname
    pub globs_lead : Reaches (λ r. r.glob_off) m.glob_heap m.records m.globals_byname
    pub path_ends : Ends (λ r. r.path_off) m.path_heap m.records
    pub glob_ends : Ends (λ r. r.glob_off) m.glob_heap m.records
    pub chained : Chained m.glob_heap m.records
    pub numbered :
        (k : ℕ)
        → k < length m.records
        → ((record_at m.records k).ikey ≡ k) × ((record_at m.records k).obj_ikey ≡ m.ikey)

  -- What a tree holds behind an addition: what it held, or the new name.
  abbrev pub Held : Tree → Tree → List ℕ → ℕ → Type 0
  Held t u name n =
      (s : List ℕ) (k : ℕ)
      → text_lookup c u s ≡ some k
      → (text_lookup c t s ≡ some k) ⊎ ((s ≡ name) × (k ≡ n))

  some_same : (a b : ℕ) → some a ≡ some b → a ≡ b
  some_same a b e = cc

  pub find_added :
      (t : Tree) (name s : List ℕ) (n : ℕ)
      → IsText t
      → IsCStr name
      → length t.e_arr < ushort_mod
      → text_lookup c t name ≡ none
      → let u = (tree_add c true true (tree_find c t name).0 name n).0 in
        IsText u × (text_lookup c u s ≡ (if bytes_eq s name then some n else text_lookup c t s))
  unfolding add_key
  find_added t name s n w h room e =
      let (m, f) = find-resized c t name w in
      let t' = resized t t.s_lim t.e_lim m in
      let none_yet = lookup-resized c t t.s_lim t.e_lim m name ∙ e in
      let (i, j, _) =
        tree_add_lookups c t' name s n (resized-IsText t _ _ m w) h (unfold resized in room) in
      rw f (
        i,
        rw none_yet at j
            ∙ ap (λ o. if bytes_eq s name then some n else o)
                (lookup-resized c t t.s_lim t.e_lim m s),
      )

  pub find_add :
      (t : Tree) (name : List ℕ) (n : ℕ)
      → IsText t
      → IsCStr name
      → length t.e_arr < ushort_mod
      → text_lookup c t name ≡ none
      → let u = (tree_add c true true (tree_find c t name).0 name n).0 in IsText u × Held t u name n
  find_add t name n w h room e = (
    (find_added t name [] n w h room e).0,
    λ s k f.
        let got = sym (find_added t name s n w h room e).1 ∙ f in
        elim (Bool-cases (bytes_eq s name)) [
          | inl z ↦ inr ((bytes_eq_iff s name).0 z, sym (some_same n k (rw z at got)))
          | inr z ↦ inl (rw z at got)
        ],
  )

  pub found-Held :
      (t : Tree) (name other : List ℕ) (n : ℕ)
      → IsText t
      → IsText (tree_find c t name).0 × Held t (tree_find c t name).0 other n
  found-Held t name other n w = (
    (tree_find_refines c t name [] w).0,
    λ s k f. inl (sym (tree_find_refines c t name s w).2 ∙ f),
  )

  -- More text behind a heap changes no name.
  pub Named-more :
      (off : Record → ℕ) (heap more : List ℕ) (recs : List Record) (t u : Tree)
      → Ends off heap recs
      → Named off heap recs t
      → ((s : List ℕ) → text_lookup c u s ≡ text_lookup c t s)
      → Named off (heap ++ more) recs u
  Named-more off heap more recs t u ends named same s k f =
      let (l, e) = named s k (sym (same s) ∙ f) in (l, ends k l more ∙ e)

  pub Ends-more :
      (off : Record → ℕ) (heap more : List ℕ) (recs : List Record)
      → Ends off heap recs
      → Ends off (heap ++ more) recs
  Ends-more off heap more recs ends k l = EndsIn-append heap more _ (ends k l)

  pub Linked-Named :
      {glob_heap : List ℕ} {recs recs' : List Record} {r : Record} {g : List ℕ} (off : Record → ℕ)
      (heap name : List ℕ) (t u : Tree)
      → Apart off
      → Linked glob_heap recs recs' r g
      → Ends off heap recs
      → Named off heap recs t
      → off r ≡ length heap
      → IsCStr name
      → Held t u name (length recs)
      → Named off (heap ++ (name ++ 0 ∷ [])) recs' u
  Linked-Named {recs = recs} {recs' = recs'} {r = r} off heap name t u apart l ends named place h
        held s k f =
      elim (held s k f) [
        | inl e ↦
            let (a, b) = named s k e in
            (omega (arith, a, l.one_more), name_kept off heap (name ++ 0 ∷ []) apart l ends k a ∙ b)
        | inr (e, z) ↦ (
          omega (arith, z, l.one_more),
          ap (λ i. str_at (heap ++ (name ++ 0 ∷ [])) (off (record_at recs' i))) z
              ∙ ap (str_at (heap ++ (name ++ 0 ∷ []))) (ap off l.last ∙ place)
              ∙ str_at-append heap name [] h
              ∙ sym e,
        )
      ]

  pub Linked-Ends :
      {glob_heap : List ℕ} {recs recs' : List Record} {r : Record} {g : List ℕ} (off : Record → ℕ)
      (heap name : List ℕ)
      → Apart off
      → Linked glob_heap recs recs' r g
      → Ends off heap recs
      → off r ≡ length heap
      → IsCStr name
      → Ends off (heap ++ (name ++ 0 ∷ [])) recs'
  Linked-Ends {recs = recs} {recs' = recs'} off heap name apart l ends place h k a =
      elim (Bool-cases (k == length recs)) [
        | inl z ↦
            subst (EndsIn (heap ++ (name ++ 0 ∷ [])))
              (sym (
                ap (λ i. off (record_at recs' i)) ((==_iff k (length recs)).0 z)
                ∙ ap off l.last
                ∙ place))
              (EndsIn-new heap name h)
        | inr z ↦
            let old : k < length recs = ground (arith, z, a, l.one_more) in
            subst (EndsIn (heap ++ (name ++ 0 ∷ []))) (sym (off_kept off apart l k old))
              (EndsIn-append heap (name ++ 0 ∷ []) _ (ends k old))
      ]

  pub Linked-Leads :
      {glob_heap : List ℕ} {recs recs' : List Record} {r : Record} {g : List ℕ} (off : Record → ℕ)
      (heap name : List ℕ) (t u : Tree)
      → Apart off
      → Linked glob_heap recs recs' r g
      → Ends off heap recs
      → Leads off heap recs t
      → off r ≡ length heap
      → IsCStr name
      → text_lookup c t name ≡ none
      → ((s : List ℕ)
          → text_lookup c u s ≡ (if bytes_eq s name then some (length recs) else text_lookup c t s))
      → Leads off (heap ++ (name ++ 0 ∷ [])) recs' u
  Linked-Leads {recs = recs} {recs' = recs'} off heap name t u apart l ends leads place h fresh
        looks k a =
      elim (Bool-cases (k == length recs)) [
        | inl z ↦
            let q : k ≡ length recs = (==_iff k (length recs)).0 z in
            let there : str_at (heap ++ (name ++ 0 ∷ [])) (off (record_at recs' k)) ≡ name =
              ap (λ i. str_at (heap ++ (name ++ 0 ∷ [])) (off (record_at recs' i))) q
              ∙ ap (str_at (heap ++ (name ++ 0 ∷ []))) (ap off l.last ∙ place)
              ∙ str_at-append heap name [] h in
            ap (text_lookup c u) there ∙ looks name ∙ rw (bytes_eq_refl name) (ap some (sym q))
        | inr z ↦
            let old : k < length recs = ground (arith, z, a, l.one_more) in
            let kept = name_kept off heap (name ++ 0 ∷ []) apart l ends k old in
            let s = str_at heap (off (record_at recs k)) in
            let other : bytes_eq s name ≡ false =
              bytes_eq-false s name (λ e. cc (leads k old, ap (text_lookup c t) e, fresh)) in
            ap (text_lookup c u) kept ∙ looks s ∙ rw other (leads k old)
      ]

  pub Linked-Reaches :
      {glob_heap : List ℕ} {recs recs' : List Record} {r : Record} {g : List ℕ} (off : Record → ℕ)
      (heap name : List ℕ) (t u : Tree)
      → Apart off
      → Linked glob_heap recs recs' r g
      → Ends off heap recs
      → Reaches off heap recs t
      → off r ≡ length heap
      → IsCStr name
      → Keeps t u
      → (j : ℕ) × (text_lookup c u name ≡ some j)
      → Reaches off (heap ++ (name ++ 0 ∷ [])) recs' u
  Linked-Reaches {recs = recs} {recs' = recs'} off heap name t u apart l ends leads place h keeps
        (i, here) k a =
      elim (Bool-cases (k == length recs)) [
        | inl z ↦
            let q : k ≡ length recs = (==_iff k (length recs)).0 z in
            let there : str_at (heap ++ (name ++ 0 ∷ [])) (off (record_at recs' k)) ≡ name =
              ap (λ i. str_at (heap ++ (name ++ 0 ∷ [])) (off (record_at recs' i))) q
              ∙ ap (str_at (heap ++ (name ++ 0 ∷ []))) (ap off l.last ∙ place)
              ∙ str_at-append heap name [] h in
            (i, ap (text_lookup c u) there ∙ here)
        | inr z ↦
            let old : k < length recs = ground (arith, z, a, l.one_more) in
            let kept = name_kept off heap (name ++ 0 ∷ []) apart l ends k old in
            let s = str_at heap (off (record_at recs k)) in
            let (j, e) = leads k old in
            let (j', e') = keeps s j e in (j', ap (text_lookup c u) kept ∙ e')
      ]

  -- An addition of a new name, and a search for an old one.
  pub find_add-Keeps :
      (t : Tree) (name : List ℕ) (n : ℕ)
      → IsText t
      → IsCStr name
      → length t.e_arr < ushort_mod
      → text_lookup c t name ≡ none
      → let u = (tree_add c true true (tree_find c t name).0 name n).0 in
        Keeps t u × ((j : ℕ) × (text_lookup c u name ≡ some j))
  find_add-Keeps t name n w h room e = (
    λ s k f.
        let got = (find_added t name s n w h room e).1 in
        elim (Bool-cases (bytes_eq s name)) [
          | inl z ↦ (n, got ∙ rw z refl)
          | inr z ↦ (k, got ∙ rw z f)
        ],
    (n, (find_added t name name n w h room e).1 ∙ rw (bytes_eq_refl name) refl),
  )

  pub found-Keeps :
      (t : Tree) (name : List ℕ) (k : ℕ)
      → IsText t
      → text_lookup c t name ≡ some k
      → let u = (tree_find c t name).0 in Keeps t u × ((j : ℕ) × (text_lookup c u name ≡ some j))
  found-Keeps t name k w e = (
    λ s j f. (j, (tree_find_refines c t name s w).2 ∙ f),
    (k, (tree_find_refines c t name name w).2 ∙ e),
  )
