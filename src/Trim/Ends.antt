-- ===== src/Trim/Ends.antt =====
-- What the blanks around a line are.
use okscada.Prelude.{
  ℕ, ◌≡◌, refl, sym, ap, ◌∙◌, Bool, true, false, ◌&&◌, List, [], ◌∷◌, ◌++◌, append_assoc,
  Bool-cases, inl, inr,
}
use okscada.Trim.{skip_blanks, cut_blanks, cut, str_trim, ohub_trim, blank, ohub_blank}

module _ (p : ℕ → Bool) where
  abbrev pub all : List ℕ → Bool
  all [] = true
  all (c ∷ s) = p c && all s

  abbrev pub first_blank : List ℕ → Bool
  first_blank [] = false
  first_blank (c ∷ s) = p c

  abbrev pub last_blank : List ℕ → Bool
  last_blank [] = false
  last_blank (c ∷ []) = p c
  last_blank (c ∷ d ∷ s) = last_blank (d ∷ s)

  -- What a line is made of: blanks, a text that neither starts nor ends with a blank, and blanks.
  pub record IsTrimmed (s t : List ℕ) : Type 0 where
    pub pre : List ℕ
    pub post : List ℕ
    pub parts : s ≡ pre ++ (t ++ post)
    pub pre_blank : all pre ≡ true
    pub post_blank : all post ≡ true
    pub first_text : first_blank t ≡ false
    pub last_text : last_blank t ≡ false

  skip-parts :
      (s : List ℕ)
      → (pre : List ℕ) × (s ≡ pre ++ skip_blanks p s)
        × (all pre ≡ true)
        × (first_blank (skip_blanks p s) ≡ false)
  unfolding skip_blanks
  skip-parts [] = ([], refl, refl, refl)
  skip-parts (c ∷ s) = elim (Bool-cases (p c)) [
    | inl e ↦ let (pre, a, b, d) = skip-parts s in rw e (c ∷ pre, ap (λ x. c ∷ x) a, rw e b, d)
    | inr e ↦ rw e ([], refl, refl, e)
  ]

  -- The blanks that the cut takes off the end.
  abbrev pub IsCut : List ℕ → List ℕ → Type 0
  IsCut s t =
      (post : List ℕ) × (s ≡ t ++ post)
      × (all post ≡ true)
      × (last_blank t ≡ false)
      × (first_blank s ≡ false → first_blank t ≡ false)

  cut-IsCut :
      (c : ℕ) (s t post : List ℕ) (b : Bool)
      → p c ≡ b
      → s ≡ t ++ post
      → all post ≡ true
      → last_blank t ≡ false
      → IsCut (c ∷ s) (cut p b c t)
  cut-IsCut c s [] post true e a q l = (c ∷ post, ap (λ x. c ∷ x) a, rw e q, refl, λ h. refl)
  cut-IsCut c s [] post false e a q l = (post, ap (λ x. c ∷ x) a, q, e, λ h. h)
  cut-IsCut c s (d ∷ t) post true e a q l = (post, ap (λ x. c ∷ x) a, q, l, λ h. h)
  cut-IsCut c s (d ∷ t) post false e a q l = (post, ap (λ x. c ∷ x) a, q, l, λ h. h)

  cut_blanks-IsCut : (s : List ℕ) → IsCut s (cut_blanks p s)
  unfolding cut_blanks
  cut_blanks-IsCut [] = ([], refl, refl, refl, λ h. refl)
  cut_blanks-IsCut (c ∷ s) =
      let (post, a, q, l, f) = cut_blanks-IsCut s in
      cut-IsCut c s (cut_blanks p s) post (p c) refl a q l

  last_blank-suffix : (a t : List ℕ) → last_blank (a ++ t) ≡ false → last_blank t ≡ false
  last_blank-suffix [] t h = h
  last_blank-suffix (c ∷ []) [] h = refl
  last_blank-suffix (c ∷ []) (d ∷ t) h = h
  last_blank-suffix (c ∷ d ∷ a) t h = last_blank-suffix (d ∷ a) t h

  left_first : (s : List ℕ) → IsTrimmed s (cut_blanks p (skip_blanks p s))
  left_first s =
      let (pre, a, b, d) = skip-parts s in
      let (post, a', q, l, f) = cut_blanks-IsCut (skip_blanks p s) in
      record {
        pre = pre;
        post = post;
        parts = a ∙ ap (λ x. pre ++ x) a';
        pre_blank = b;
        post_blank = q;
        first_text = f d;
        last_text = l;
      }

  right_first : (s : List ℕ) → IsTrimmed s (skip_blanks p (cut_blanks p s))
  right_first s =
      let (post, a', q, l, f) = cut_blanks-IsCut s in
      let (pre, a, b, d) = skip-parts (cut_blanks p s) in
      record {
        pre = pre;
        post = post;
        parts = a' ∙ ap (λ x. x ++ post) a ∙ append_assoc pre (skip_blanks p (cut_blanks p s)) post;
        pre_blank = b;
        post_blank = q;
        first_text = d;
        last_text = last_blank-suffix pre (skip_blanks p (cut_blanks p s)) (rw (sym a) l);
      }

-- `strTrim` and `ohubTrim` take the blanks off both ends of a line, and nothing else: the line is the
-- result between blanks, and the result neither starts nor ends with a blank.
pub trims-IsTrimmed :
    (s : List ℕ) → IsTrimmed blank s (str_trim s) × IsTrimmed ohub_blank s (ohub_trim s)
unfolding str_trim ohub_trim
trims-IsTrimmed s = (left_first blank s, right_first ohub_blank s)
