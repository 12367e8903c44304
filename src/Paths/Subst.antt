-- ===== src/Paths/Subst.antt =====
-- The variables in a path.
use okscada.Prelude.{
  ℕ, zero, suc, ◌≤◌, ◌≡◌, refl, ap, ◌∙◌, Bool, true, false, not, ◌&&◌, List, [], ◌∷◌, ◌++◌, Option,
  length, ◌==◌, if◌then◌else◌, arith, Bool-cases, inl, inr,
}
use okscada.Paths.{dollar, span, turn, at_dollar, braced, subst_loop, subst_env, is_name, value}

-- Each `$` doubled.
unfoldable pub quote : List ℕ → List ℕ
quote [] = []
quote (c ∷ s) = if c == dollar then dollar ∷ dollar ∷ quote s else c ∷ quote s

abbrev pub lacks : ℕ → List ℕ → Bool
lacks c [] = true
lacks c (x ∷ s) = not (x == c) && lacks c s

both : (a b : Bool) → a && b ≡ true → (a ≡ true) × (b ≡ true)
both true b e = (refl, e)
both false b e = cc

module _ (is_alnum : ℕ → Bool) (getenv : List ℕ → Option (List ℕ)) where
  length-span : (p : ℕ → Bool) (s : List ℕ) → length (span p s).1 ≤ length s
  unfolding span
  length-span p [] = omega arith
  length-span p (c ∷ s) = ground (arith, length-span p s)

  length-braced :
      (s : List ℕ) (q : List ℕ × List ℕ)
      → length q.1 ≤ length s
      → length (braced is_alnum getenv s q).1 ≤ length s
  length-braced s (name, []) h = omega arith
  length-braced s (name, c ∷ rest) h = omega (arith, h)

  length-named_span :
      (c : ℕ) (s : List ℕ)
      → is_name is_alnum getenv c ≡ true
      → length (span (is_name is_alnum getenv) (c ∷ s)).1 ≤ length s
  unfolding span
  length-named_span c s e = rw e (length-span (is_name is_alnum getenv) s)

  length-at_dollar : (s : List ℕ) → length (at_dollar is_alnum getenv s).1 ≤ length s
  length-at_dollar [] = omega arith
  length-at_dollar (c ∷ s) = elim (Bool-cases (c == dollar)) [
    | inl e ↦ rw e (omega arith)
    | inr e ↦ elim (Bool-cases (c == 123)) [
      | inl f ↦
          let w : length (braced is_alnum getenv s (span (λ x. not (x == 125)) s)).1 ≤ length s =
            length-braced s (span (λ x. not (x == 125)) s) (length-span (λ x. not (x == 125)) s) in
          rw (e, f) (omega (arith, w))
      | inr f ↦ elim (Bool-cases (is_name is_alnum getenv c)) [
        | inl g ↦ let w = length-named_span c s g in rw (e, f, g) (omega (arith, w))
        | inr g ↦ rw (e, f, g) (omega arith)
      ]
    ]
  ]

  -- A turn leaves less than it was given.
  length-turn : (c : ℕ) (s : List ℕ) → length (turn is_alnum getenv c s).1 ≤ length s
  length-turn c s = elim (Bool-cases (c == dollar)) [
    | inl e ↦ rw e (length-at_dollar s)
    | inr e ↦ rw e (omega arith)
  ]

  subst_loop-fuel :
      (m n : ℕ) (s : List ℕ)
      → length s ≤ m
      → length s ≤ n
      → subst_loop is_alnum getenv m s ≡ subst_loop is_alnum getenv n s
  unfolding subst_loop
  subst_loop-fuel zero zero s h k = refl
  subst_loop-fuel zero (suc n) [] h k = refl
  subst_loop-fuel zero (suc n) (c ∷ s) h k = elim h [ ]
  subst_loop-fuel (suc m) zero [] h k = refl
  subst_loop-fuel (suc m) zero (c ∷ s) h k = elim k [ ]
  subst_loop-fuel (suc m) (suc n) [] h k = refl
  subst_loop-fuel (suc m) (suc n) (c ∷ s) h k =
      let w = length-turn c s in
      ap (λ x. (turn is_alnum getenv c s).0 ++ x)
        (subst_loop-fuel m n (turn is_alnum getenv c s).1 (omega (arith, w, h))
          (omega (arith, w, k)))

  -- The loop of `ohubSubstEnv` comes to its end: each turn writes what stands at the start of the
  -- string, and the rest is substituted in the same way.
  pub subst_env-turn :
      (c : ℕ) (s : List ℕ)
      → subst_env is_alnum getenv (c ∷ s)
        ≡ (turn is_alnum getenv c s).0 ++ subst_env is_alnum getenv (turn is_alnum getenv c s).1
  unfolding subst_env subst_loop
  subst_env-turn c s =
      let rest = (turn is_alnum getenv c s).1 in
      ap (λ x. (turn is_alnum getenv c s).0 ++ x)
        (subst_loop-fuel (length s) (length rest) rest (length-turn c s) (omega arith))

  span-closed :
      (name rest : List ℕ)
      → lacks 125 name ≡ true
      → span (λ x. not (x == 125)) (name ++ 125 ∷ rest) ≡ (name, 125 ∷ rest)
  unfolding span
  span-closed [] rest e = refl
  span-closed (c ∷ name) rest e =
      let (f, g) = both (not (c == 125)) (lacks 125 name) e in rw (f, span-closed name rest g) refl

  -- `${name}`, for a name without a closing brace, is replaced by the value of the variable, or by
  -- nothing where it is not set, and what follows is substituted in the same way.
  pub subst_env-braced :
      (name rest : List ℕ)
      → lacks 125 name ≡ true
      → subst_env is_alnum getenv (dollar ∷ 123 ∷ (name ++ 125 ∷ rest))
        ≡ value is_alnum getenv name ++ subst_env is_alnum getenv rest
  subst_env-braced name rest e =
      subst_env-turn dollar (123 ∷ (name ++ 125 ∷ rest)) ∙ rw (span-closed name rest e) refl
