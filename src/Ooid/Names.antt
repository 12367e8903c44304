-- ===== src/Ooid/Names.antt =====
-- What a client of the factory gets: identifiers that lead back to their paths.
use okscada.Prelude.{
  ℕ, ◌+◌, ◌%◌, ◌^◌, ◌≤◌, ◌<◌, ◌≡◌, refl, sym, ◌∙◌, ap, inl, inr, Bool, true, false, List, Option,
  none, some, length, arith, Option-cases,
}
use native.Mathlib.Nat.{mod-eq_of_lt}
use okscada.Prelude.CString.{IsCStr, StringCompare, bytes_eq_refl}
use okscada.Tree.{Tree, ushort_mod}
use okscada.Tree.Text.{tree_find}
use okscada.Tree.Text.Bounds.{Fits, max_str, tree_find-Fits, tree_add-Fits}
use okscada.Tree.Numeric.{find-sized}
use okscada.Tree.Text.Sound.{text_lookup}
use okscada.Tree.Text.Refine.{find-resized, resized, resized-IsText, lookup-resized}
use okscada.Ooid.{
  Factory, of_int, to_int, add_ooid_path, next_seq, name_found, find_ooid_by_name,
  find_name_by_ooid,
}
use okscada.Ooid.Inv.{all_memory, Inv, Names, add_ooid_path-Inv, IsText-added}

module _ (c : StringCompare) where
  -- The depth that a search leaves in the tree is no part of the invariant.
  searched : Factory → ℕ → Factory
  searched f m = record f { by_path = resized f.by_path f.by_path.s_lim f.by_path.e_lim m }

  searched-Inv : (f : Factory) (m : ℕ) → Inv c f → Inv c (searched f m)
  unfolding searched
  searched-Inv f m w = record {
    text = resized-IsText f.by_path _ _ m w.text;
    numeric = w.numeric;
    small = w.small;
    named = λ s v e. w.named s v (sym (lookup-resized c f.by_path _ _ m s) ∙ e);
    fresh = w.fresh;
  }

  -- Where the path leads to an identifier, the identifier leads to the path.
  name_of :
      (f : Factory) (v : ℕ) (s : List ℕ)
      → Inv c f
      → v < 2 ^ 31
      → Names f v s
      → (find_name_by_ooid f v).1 ≡ some s
  unfolding find_name_by_ooid
  name_of f v s w l (off, a, b, _) =
      let (m, e) = find-sized f.by_ooid v w.numeric in
      let small : v % 2 ^ 32 ≡ v = omega arith in rw (small, e, a) (ap some b)

  -- The path has identifier `o`, one of those up to `seq`.
  record Answer (g : Factory) (path : List ℕ) (o : ℕ) : Type 0 where
    inv : Inv c g
    entry : text_lookup c g.by_path path ≡ some o

  known_case :
      (f : Factory) (m : ℕ) (path : List ℕ) (v : ℕ) (can_add : Bool)
      → Inv c f
      → text_lookup c f.by_path path ≡ some v
      → let (g, o) = name_found c all_memory (searched f m) path can_add (some v) in
        Answer g path o × (o ≡ v)
  known_case f m path v can_add w e =
      let (_, l, _) = w.named path v e in
      let same : of_int v ≡ v = ground (arith, w.small) in
      rw same (
        record {
          inv = searched-Inv f m w;
          entry = unfold searched in (lookup-resized c f.by_path _ _ m path ∙ e);
        },
        refl,
      )

  next_seq_lem : (seq : ℕ) → seq + 1 < 2 ^ 31 → next_seq seq ≡ seq + 1
  next_seq_lem seq h = ground (arith, mod-eq_of_lt {n = seq + 1} {m = 2 ^ 64} (omega arith))

  new_case :
      (f : Factory) (path : List ℕ)
      → Inv c f
      → IsCStr path
      → f.seq + 1 < 2 ^ 31
      → length f.by_path.e_arr < ushort_mod
      → length f.by_ooid.e_arr < ushort_mod
      → text_lookup c f.by_path path ≡ none
      → let (g, o) = name_found c all_memory f path true none in Answer g path o × (o ≡ f.seq + 1)
  new_case f path w h top room room' e = rw (next_seq_lem f.seq top) (
    record {
      inv = add_ooid_path-Inv c f path w h top room room' e;
      entry = (IsText-added c f path w h top room room' e path).1 ∙ rw (bytes_eq_refl path);
    },
    refl,
  )

  find-Answer :
      (f : Factory) (path : List ℕ)
      → Inv c f
      → IsCStr path
      → f.seq + 1 < 2 ^ 31
      → length f.by_path.e_arr < ushort_mod
      → length f.by_ooid.e_arr < ushort_mod
      → let (g, o) = find_ooid_by_name c all_memory f path true in Answer g path o
  unfolding find_ooid_by_name searched
  find-Answer f path w h top room room' =
      let (m, e) = find-resized c f.by_path path w.text in
      rw e (elim (Option-cases (text_lookup c f.by_path path)) [
        | inl z ↦
            rw z
              (new_case (searched f m) path (searched-Inv f m w) h (unfold searched in top)
                (unfold searched resized in room) (unfold searched in room')
                (unfold searched in (lookup-resized c f.by_path _ _ m path ∙ z))).0
        | inr (v, z) ↦ rw z (known_case f m path v true w z).0
      ])

  -- A path that has an identifier keeps it.
  find_known :
      (g : Factory) (path : List ℕ) (o : ℕ) (can_add : Bool)
      → Inv c g
      → text_lookup c g.by_path path ≡ some o
      → (find_ooid_by_name c all_memory g path can_add).1 ≡ o
  unfolding find_ooid_by_name searched
  find_known g path o can_add w e =
      let (m, f) = find-resized c g.by_path path w.text in
      rw (f, e) (known_case g m path o can_add w e).1

  -- The identifier and its path, also where the buffer of the paths was overrun.
  find_ooid_by_name_lookups :
      (f : Factory) (path : List ℕ) (again : Bool)
      → Inv c f
      → IsCStr path
      → f.seq + 1 < 2 ^ 31
      → length f.by_path.e_arr < ushort_mod
      → length f.by_ooid.e_arr < ushort_mod
      → let (g, o) = find_ooid_by_name c all_memory f path true in
        Inv c g
        × (0 < o)
        × ((find_name_by_ooid g o).1 ≡ some path)
        × ((find_ooid_by_name c all_memory g path again).1 ≡ o)
  find_ooid_by_name_lookups f path again w h top room room' =
      let a = find-Answer f path w h top room room' in
      let g = (find_ooid_by_name c all_memory f path true).0 in
      let (pos, l, n) = a.inv.named path _ a.entry in
      (
        a.inv,
        pos,
        name_of g _ path a.inv (omega (arith, a.inv.small)) n,
        find_known g path _ again a.inv a.entry,
      )

  found-Fits :
      (f : Factory) (path : List ℕ) (can_add : Bool) (p : Tree × Option ℕ)
      → Fits p.0
      → length path ≤ max_str
      → Fits (name_found c all_memory (record f { by_path = p.0 }) path can_add p.1).0.by_path
  unfolding add_ooid_path
  found-Fits f path can_add (t, some v) w h = w
  found-Fits f path false (t, none) w h = w
  found-Fits f path true (t, none) w h = tree_add-Fits c t path (to_int (next_seq f.seq)) w h

  -- For a consistent factory with room in both trees, memory to grow them, paths within their buffer and a sequence
  -- below 2^31 - 1, and for a path without a 0 of at most 1023 bytes, `ohubFindOoidByName (path, TRUE)` keeps the
  -- factory consistent, copies nothing past the end of the buffer of paths, and gives an identifier other than 0, from
  -- which `ohubFindNameByOoid` gives the path back, and which a second request for the path gives
  -- again.
  pub find_ooid_by_name_roundtrip :
      (f : Factory) (path : List ℕ) (again : Bool)
      → Inv c f
      → Fits f.by_path
      → IsCStr path
      → length path ≤ max_str
      → f.seq + 1 < 2 ^ 31
      → length f.by_path.e_arr < ushort_mod
      → length f.by_ooid.e_arr < ushort_mod
      → let (g, o) = find_ooid_by_name c all_memory f path true in
        Inv c g
        × Fits g.by_path
        × (0 < o)
        × ((find_name_by_ooid g o).1 ≡ some path)
        × ((find_ooid_by_name c all_memory g path again).1 ≡ o)
  unfolding find_ooid_by_name
  find_ooid_by_name_roundtrip f path again w b h short top room room' =
      let (i, j, k, l) = find_ooid_by_name_lookups f path again w h top room room' in
      (
        i,
        found-Fits f path true (tree_find c f.by_path path) (tree_find-Fits c f.by_path path b)
            short,
        j,
        k,
        l,
      )

  -- A request without `can_add` for a path that a consistent factory has not registered gives 0, keeps the
  -- factory consistent, and changes the identifier of no path.
  pub find_ooid_by_name_unknown :
      (f : Factory) (path s : List ℕ)
      → Inv c f
      → text_lookup c f.by_path path ≡ none
      → let (g, o) = find_ooid_by_name c all_memory f path false in
        Inv c g × (o ≡ 0) × (text_lookup c g.by_path s ≡ text_lookup c f.by_path s)
  unfolding find_ooid_by_name searched
  find_ooid_by_name_unknown f path s w z =
      let (m, e) = find-resized c f.by_path path w.text in
      rw (e, z) (searched-Inv f m w, refl, lookup-resized c f.by_path _ _ m s)
