-- ===== src/Tree/Text/Sound.antt =====
-- The tree of strings with fence 0, as the hub and the watcher make it, holds a map from strings.
use okscada.Prelude.{
  ℕ, ◌%◌, ◌<◌, ◌≡◌, refl, sym, ◌∙◌, ap, ◌≢◌, inl, inr, true, false, List, [], ◌∷◌, ◌++◌, Option,
  none, some, length, arith, if◌then◌else◌, append_assoc, Bool-cases,
}
use native.Mathlib.Decide.{dec_lt}
use okscada.Prelude.CString.{str_at, str_at-append, IsCStr, StringCompare, bytes_eq, bytes_eq_iff}
use okscada.Tree.{Tree, descend, ushort_mod}
use okscada.Tree.Walk.{TreeNode, node, found, no_links, nchars}
use okscada.Tree.Walk.Append.{appended, appended-Extends}
use okscada.Tree.Insert.{IsSound, Inserted, descend-agree, insert_at-Inserted}
use okscada.Tree.Numeric.{value, value-Inserted, value-none, insert_guard}
use okscada.Tree.Text.{str_root, str_probe, str_branch_insert}

-- The string at `key` ends inside the buffer: what is put behind the buffer does not change it.
abbrev pub EndsIn : List ℕ → ℕ → Type 0
EndsIn buf key = (rest : List ℕ) → str_at (buf ++ rest) key ≡ str_at buf key

pub record IsText (t : Tree) : Type 0 where
  pub sound : IsSound t
  pub plain : t.fence ≡ 0
  pub good : t.bad ≡ false
  pub lens : (i : ℕ) → 0 < i → i < length t.e_arr → (node t.e_arr i).len ≡ 0
  pub keys : (i : ℕ) → 0 < i → i < length t.e_arr → EndsIn t.s_buf (node t.e_arr i).key

pub EndsIn-append : (buf rest : List ℕ) (key : ℕ) → EndsIn buf key → EndsIn (buf ++ rest) key
EndsIn-append buf rest key h more =
    rw (append_assoc buf rest more) (h (rest ++ more) ∙ sym (h rest))

pub EndsIn-new : (buf s : List ℕ) → IsCStr s → EndsIn (buf ++ (s ++ 0 ∷ [])) (length buf)
EndsIn-new buf s h rest =
    rw (append_assoc buf (s ++ 0 ∷ []) rest, append_assoc s (0 ∷ []) rest)
      (str_at-append buf s rest h ∙ sym (str_at-append buf s [] h))

unequal : (s str : List ℕ) → bytes_eq s str ≡ false → s ≢ str
unequal s str d e = ground (arith, bytes_eq_iff s str)

pub str_root-lt : (s : List ℕ) → str_root s < nchars
str_root-lt [] = omega arith
str_root-lt (b ∷ bs) = omega arith

module _ (c : StringCompare) where
  -- The map that a tree of strings stands for.
  unfoldable pub text_lookup : Tree → List ℕ → Option ℕ
  text_lookup t s = value t (found (descend (str_probe c t.s_buf s) t (str_root s)))

  str_probe_zero :
      (buf s : List ℕ) (key len : ℕ) → len ≡ 0 → str_at buf key ≡ s → str_probe c buf s key len ≡ 0
  str_probe_zero buf s key len z e = rw (z, e) ((c.strcmp_iff s s).1 refl)

  str_probe_ne :
      (buf s : List ℕ) (key len : ℕ) → len ≡ 0 → str_at buf key ≢ s → str_probe c buf s key len ≢ 0
  str_probe_ne buf s key len z ne e = ne (sym ((c.strcmp_iff s (str_at buf key)).0 (rw z at e)))

  -- More text in the buffer changes no search.
  pub descend-more :
      (t : Tree) (s rest : List ℕ)
      → IsText t
      → descend (str_probe c (t.s_buf ++ rest) s) t (str_root s)
        ≡ descend (str_probe c t.s_buf s) t (str_root s)
  descend-more t s rest v =
      descend-agree (str_probe c (t.s_buf ++ rest) s) (str_probe c t.s_buf s) t (str_root s) v.sound
        (λ i a b. rw (v.keys i a b rest)) (str_root-lt s)

  -- `u` is `t` with one more string.
  pub record TextUpdated (t u : Tree) (str : List ℕ) (v : ℕ) : Type 0 where
    pub text : IsText u
    pub lookups :
        (s : List ℕ) → text_lookup u s ≡ (if bytes_eq s str then some v else text_lookup t s)

  module _ (t : Tree) (str : List ℕ) (v : ℕ) (w : IsText t) (h : IsCStr str) where
    abbrev pub more : Tree
    more = record t { s_buf = t.s_buf ++ (str ++ 0 ∷ []) }

    abbrev pub text_node : TreeNode
    text_node = record { val = v; key = length t.s_buf; len = 0; link = no_links }

    more-IsSound : IsSound more
    more-IsSound = record { up = w.sound.up; root_size = w.sound.root_size; roots = w.sound.roots }

    module _ (u : Tree)
        (x : Inserted (str_probe c more.s_buf str) more u (str_root str) text_node) where
      at_new : str_at more.s_buf (length t.s_buf) ≡ str
      at_new = str_at-append t.s_buf str [] h

      lens-Inserted : (i : ℕ) → 0 < i → i < length u.e_arr → (node u.e_arr i).len ≡ 0
      lens-Inserted i a b = elim (dec_lt i (length t.e_arr)) [
        | yes l ↦ x.extends.same_len i a l ∙ w.lens i a l
        | no g ↦
            let e : i ≡ length t.e_arr = omega (arith, x.extends.size) in rw (e, x.extends.last)
      ]

      keys-Inserted : (i : ℕ) → 0 < i → i < length u.e_arr → EndsIn u.s_buf (node u.e_arr i).key
      keys-Inserted i a b = rw x.same_buf (elim (dec_lt i (length t.e_arr)) [
        | yes l ↦
            rw (x.extends.same_key i a l) (EndsIn-append t.s_buf (str ++ 0 ∷ []) _ (w.keys i a l))
        | no g ↦
            let e : i ≡ length t.e_arr = omega (arith, x.extends.size) in
            rw (e, x.extends.last) (EndsIn-new t.s_buf str h)
      ])

      lookup-Inserted :
          (s : List ℕ) → text_lookup u s ≡ (if bytes_eq s str then some v else text_lookup t s)
      unfolding text_lookup
      lookup-Inserted s = elim (Bool-cases (bytes_eq s str)) [
        | inl e ↦
            rw (e, (bytes_eq_iff s str).0 e, x.same_buf, x.self)
              (ap (λ m. some m.val) x.extends.last)
        | inr d ↦
            let ne : str ≢ s = λ z. unequal s str d (sym z) in
            rw (d, x.same_buf)
              (value-Inserted (str_probe c more.s_buf s) more u (str_root str) text_node
                  (str_probe c more.s_buf str) (str_root s) more-IsSound (str_root-lt s) x
                  (str_probe_ne more.s_buf s (length t.s_buf) 0 refl (rw at_new ne))
                ∙ ap (λ o. value t (found o)) (descend-more t s (str ++ 0 ∷ []) w))
      ]

      pub Inserted-TextUpdated : TextUpdated t u str v
      Inserted-TextUpdated = record {
        text = record {
          sound = x.sound;
          plain = x.same_fence ∙ w.plain;
          good = x.same_bad ∙ w.good;
          lens = lens-Inserted;
          keys = keys-Inserted;
        };
        lookups = lookup-Inserted;
      }

    -- The new node goes in where the search for its string has found nothing.
    pub str_branch_insert-TextUpdated :
        length t.e_arr < ushort_mod
        → text_lookup t str ≡ none
        → let (u, rc) =
            str_branch_insert c
              (record more { e_arr = appended t.e_arr text_node })
              (length t.e_arr % ushort_mod) in
          TextUpdated t u str v × (rc ≡ true)
    unfolding text_lookup str_branch_insert
    str_branch_insert-TextUpdated room e =
        let pos = w.sound.up.nonempty in
        let small : length t.e_arr % ushort_mod ≡ length t.e_arr = omega arith in
        let none_found =
          value-none t (found (descend (str_probe c t.s_buf str) t (str_root str))) e in
        let (x, done) =
          insert_at-Inserted more text_node more-IsSound refl (str_root str) (str_root-lt str)
            (str_probe c more.s_buf str)
            (str_probe_zero more.s_buf str (length t.s_buf) 0 refl (str_at-append t.s_buf str [] h))
            (ap found (descend-more t str (str ++ 0 ∷ []) w) ∙ none_found) in
        rw
          (
            small,
            insert_guard t (length t.e_arr) (omega arith) w.good,
            (appended-Extends t.e_arr text_node refl).last,
            str_at-append t.s_buf str [] h,
          )
          (Inserted-TextUpdated _ x, done)
