-- ===== src/Ooid/Inv.antt =====
-- What the trees and the path heap of the factory keep true of one another.
use okscada.Prelude.{
  ℕ, ◌+◌, ◌^◌, ◌≤◌, ◌<◌, ◌≡◌, refl, sym, ◌∙◌, inl, inr, true, List, [], ◌∷◌, ◌++◌, none, some,
  length, ◌==◌, if◌then◌else◌, arith, Bool-cases, ==_false, ==_refl, append_assoc,
}
use okscada.Prelude.CString.{str_at, str_at-append, IsCStr, StringCompare, bytes_eq, bytes_eq_iff}
use okscada.Tree.{ushort_mod}
use okscada.Tree.Map.{add_key}
use okscada.Tree.Numeric.{IsNumeric, num_lookup}
use okscada.Tree.Refine.{tree_num_add_refines, fresh-IsNumeric, fresh-num_lookup}
use okscada.Tree.Text.Sound.{IsText, text_lookup, EndsIn, EndsIn-append}
use okscada.Tree.Text.Refine.{tree_add_lookups, fresh-IsText, fresh-text_lookup}
use okscada.Ooid.{Factory, Memory, to_int, ooid_bytes, init_factory, add_ooid_path}

abbrev pub all_memory : Memory
all_memory = record { path_buf = true; path_arr = true; ooid_arr = true }

-- The tree of identifiers leads from `v` to a place of the heap where `s` stands.
abbrev pub Names : Factory → ℕ → List ℕ → Type 0
Names f v s =
    (off : ℕ) × (num_lookup f.by_ooid v ≡ some off) × (str_at f.heap off ≡ s) × EndsIn f.heap off

some_eq : (a b : ℕ) → some a ≡ some b → a ≡ b
some_eq a b e = cc

module _ (c : StringCompare) where
  -- Each registered path has an identifier from 1 to `seq` that leads back to it, and no
  -- identifier above `seq` is taken.
  pub record Inv (f : Factory) : Type 0 where
    pub text : IsText f.by_path
    pub numeric : IsNumeric f.by_ooid
    pub small : f.seq < 2 ^ 31
    pub named :
        (s : List ℕ) (v : ℕ)
        → text_lookup c f.by_path s ≡ some v
        → (0 < v) × (v ≤ f.seq) × Names f v s
    pub fresh : (v : ℕ) → f.seq < v → v < 2 ^ 32 → num_lookup f.by_ooid v ≡ none

  pub init_factory-Inv : Inv init_factory
  init_factory-Inv = record {
    text = fresh-IsText;
    numeric = fresh-IsNumeric;
    small = omega arith;
    named = λ s v e. cc (fresh-text_lookup c s);
    fresh = λ v _ _. fresh-num_lookup v;
  }

  module _ (f : Factory) (path : List ℕ) (w : Inv f) (h : IsCStr path) (top : f.seq + 1 < 2 ^ 31)
      (room : length f.by_path.e_arr < ushort_mod) (room' : length f.by_ooid.e_arr < ushort_mod)
      (unknown : text_lookup c f.by_path path ≡ none) where
    abbrev pub added : Factory
    added = (add_ooid_path c all_memory (record f { seq = f.seq + 1 }) path (f.seq + 1)).0

    same_int : to_int (f.seq + 1) ≡ f.seq + 1
    same_int = omega arith

    pub IsText-added :
        (s : List ℕ)
        → IsText added.by_path
          × (text_lookup c added.by_path s
              ≡ (if bytes_eq s path then some (f.seq + 1) else text_lookup c f.by_path s))
    unfolding add_ooid_path add_key
    IsText-added s =
        let (t, e, _) = tree_add_lookups c f.by_path path s (f.seq + 1) w.text h room in
        rw same_int (t, rw unknown at e)

    IsNumeric-added :
        (v : ℕ)
        → v < 2 ^ 32
        → IsNumeric added.by_ooid
          × (num_lookup added.by_ooid v
              ≡ (if v == f.seq + 1 then some (length f.heap) else num_lookup f.by_ooid v))
    unfolding add_ooid_path add_key
    IsNumeric-added v l =
        let k = f.seq + 1 in
        let (t, e, _) =
          tree_num_add_refines f.by_ooid k (length f.heap) v w.numeric (omega arith) l room' in
        rw same_int (t, rw (w.fresh k (omega arith) (omega arith)) at e)

    added_heap : List ℕ
    added_heap = f.heap ++ (path ++ 0 ∷ ooid_bytes (f.seq + 1))

    heap-added : added.heap ≡ added_heap
    unfolding add_ooid_path added_heap
    heap-added = refl

    seq-added : added.seq ≡ f.seq + 1
    unfolding add_ooid_path
    seq-added = refl

    -- The new path stands at the old end of the heap.
    pub Names-new : Names added (f.seq + 1) path
    unfolding added_heap
    Names-new = (
      length f.heap,
      rw ((IsNumeric-added (f.seq + 1) (omega arith)).1, ==_refl (f.seq + 1)),
      rw heap-added (str_at-append f.heap path (ooid_bytes (f.seq + 1)) h),
      λ rest.
          rw
            (
              heap-added,
              append_assoc f.heap (path ++ 0 ∷ ooid_bytes (f.seq + 1)) rest,
              append_assoc path (0 ∷ ooid_bytes (f.seq + 1)) rest,
            )
            (str_at-append f.heap path _ h ∙ sym (str_at-append f.heap path _ h)),
    )

    pub Names-old : (s : List ℕ) (v : ℕ) → v ≤ f.seq → Names f v s → Names added v s
    unfolding added_heap
    Names-old s v l (off, a, b, e) = (
      off,
      rw ((IsNumeric-added v (omega arith)).1, ==_false v (f.seq + 1) (omega arith)) a,
      rw heap-added (e _ ∙ b),
      rw heap-added (EndsIn-append f.heap _ off e),
    )

    named-added :
        (s : List ℕ) (v : ℕ)
        → text_lookup c added.by_path s ≡ some v
        → (0 < v) × (v ≤ added.seq) × Names added v s
    named-added s v e = elim (Bool-cases (bytes_eq s path)) [
      | inl z ↦
          let q : f.seq + 1 ≡ v = some_eq (f.seq + 1) v (rw z at (sym (IsText-added s).1 ∙ e)) in
          (omega arith, omega (arith, seq-added), rw (← q, (bytes_eq_iff s path).0 z) Names-new)
      | inr d ↦
          let (a, b, n) = w.named s v (rw d at (sym (IsText-added s).1 ∙ e)) in
          (a, omega (arith, seq-added), Names-old s v b n)
    ]

    pub add_ooid_path-Inv : Inv added
    add_ooid_path-Inv = record {
      text = (IsText-added []).0;
      numeric = (IsNumeric-added 0 (omega arith)).0;
      small = rw seq-added top;
      named = named-added;
      fresh = λ v a b.
          rw ((IsNumeric-added v b).1, ==_false v (f.seq + 1) (omega (arith, seq-added)))
            (w.fresh v (omega (arith, seq-added)) b);
    }
