-- ===== src/Mask/Sound.antt =====
-- What `strMask` accepts fits the mask.
use okscada.Prelude.{
  ℕ, zero, suc, ◌≤◌, ◌<◌, ◌≡◌, refl, sym, subst, ap, ◌∙◌, true, false, List, [], ◌∷◌, ◌++◌, some,
  length, ◌==◌, arith, Bool-cases, Option-cases, inl, inr, ==_iff,
}
use okscada.Prelude.CString.{bytes_eq, bytes_eq_iff}
use okscada.Mask.{star, literal, behind, skip_stars, search, is_empty, str_mask}

-- A string fits a mask: a star stands for any bytes, every other byte for itself.
pub data Fits : List ℕ → List ℕ → Type 0 where
  ends : Fits [] []
  same : {c : ℕ} {s r : List ℕ} → Fits s r → Fits (c ∷ s) (c ∷ r)
  nothing : {s r : List ℕ} → Fits s r → Fits s (star ∷ r)
  anything : {c : ℕ} {s r : List ℕ} → Fits s (star ∷ r) → Fits (c ∷ s) (star ∷ r)

itself : (s : List ℕ) → Fits s s
itself [] = ends
itself (c ∷ s) = same (itself s)

one_star : (s : List ℕ) → Fits s (star ∷ [])
one_star [] = nothing ends
one_star (c ∷ s) = anything (one_star s)

behind-Fits : (lit s t r : List ℕ) → behind lit s ≡ some t → Fits t r → Fits s (lit ++ r)
unfolding behind
behind-Fits [] s t r e f = subst (λ x. Fits x r) (sym (some_same s t e)) f
  where
    some_same : (a b : List ℕ) → some a ≡ some b → a ≡ b
    some_same a b e = cc
behind-Fits (c ∷ lit) [] t r e f = cc
behind-Fits (c ∷ lit) (b ∷ s) t r e f = elim (Bool-cases (c == b)) [
  | inl z ↦
      subst (λ x. Fits (x ∷ s) (c ∷ (lit ++ r))) ((==_iff c b).0 z)
        (same (behind-Fits lit s t r (rw z at e) f))
  | inr z ↦ cc (rw z at e)
]

-- What fits behind the place that is found fits behind a star.
search-Fits : (lit s t r : List ℕ) → search lit s ≡ some t → Fits t r → Fits s (star ∷ (lit ++ r))
unfolding search
search-Fits lit [] t r e f = cc
search-Fits lit (b ∷ s) t r e f = elim (Option-cases (behind lit (b ∷ s))) [
  | inl z ↦ anything (search-Fits lit s t r (rw (z, search) at e) f)
  | inr (u, z) ↦ nothing (behind-Fits lit (b ∷ s) t r (z ∙ rw (z, search) at e) f)
]

literal-append : (r : List ℕ) → (literal r).0 ++ (literal r).1 ≡ r
unfolding literal
literal-append [] = refl
literal-append (c ∷ r) = elim (Bool-cases (c == star)) [
  | inl z ↦ rw z refl
  | inr z ↦ rw z (ap (λ x. c ∷ x) (literal-append r))
]

-- More stars ahead change nothing.
stars : (s r : List ℕ) → Fits s (star ∷ skip_stars r) → Fits s (star ∷ r)
unfolding skip_stars
stars s [] f = f
stars s (c ∷ r) f = elim (Bool-cases (c == star)) [
  | inl z ↦
      subst (λ x. Fits s (star ∷ x ∷ r)) (sym ((==_iff c star).0 z))
        (nothing (stars s r (rw z at f)))
  | inr z ↦ rw z at f
]

starts_star :
    (r : List ℕ)
    → is_empty (literal r).1 ≡ false
    → (r' : List ℕ) × ((literal r).1 ≡ star ∷ r') × (skip_stars (literal r).1 ≡ skip_stars r')
unfolding literal skip_stars
starts_star [] e = cc
starts_star (c ∷ r) e = elim (Bool-cases (c == star)) [
  | inl z ↦
      let q : c ≡ star = (==_iff c star).0 z in
      (r, rw z (ap (λ x. x ∷ r) q), rw (z, literal, skip_stars) (rw z refl))
  | inr z ↦ rw z (starts_star r (rw z at e))
]

literal_shorter : (r : List ℕ) → length (literal r).1 ≤ length r
unfolding literal
literal_shorter [] = omega arith
literal_shorter (c ∷ r) = elim (Bool-cases (c == star)) [
  | inl z ↦ rw z (omega arith)
  | inr z ↦ rw z (omega (arith, literal_shorter r))
]

skip_shorter : (r : List ℕ) → length (skip_stars r) ≤ length r
unfolding skip_stars
skip_shorter [] = omega arith
skip_shorter (c ∷ r) = elim (Bool-cases (c == star)) [
  | inl z ↦ rw z (omega (arith, skip_shorter r))
  | inr z ↦ rw z (omega arith)
]

empty_is : (r : List ℕ) → is_empty r ≡ true → r ≡ []
empty_is [] e = refl
empty_is (c ∷ r) e = cc

on_fuel-Fits : (fuel : ℕ) (s r : List ℕ) → str_mask fuel s r ≡ true → Fits s r
unfolding str_mask
on_fuel-Fits zero s r e = cc
on_fuel-Fits (suc fuel) s r e =
    let lit = (literal r).0 in
    let rest = (literal r).1 in
    let r' = skip_stars rest in
    let whole = subst (λ x. Fits s x) (literal-append r) in
    elim (Bool-cases (bytes_eq r (star ∷ []))) [
      | inl a ↦ subst (λ x. Fits s x) (sym ((bytes_eq_iff r (star ∷ [])).0 a)) (one_star s)
      | inr a ↦ elim (Bool-cases (is_empty rest)) [
        | inl b ↦
            subst (λ x. Fits s x) (sym ((bytes_eq_iff r s).0 (rw (a, b, str_mask) at e))) (itself s)
        | inr b ↦
            let (r₁, q, k) = starts_star r b in
            let step = λ (t : List ℕ) (f : Fits t (star ∷ r')).
              subst (λ x. Fits t x) (sym q) (stars t r₁ (subst (λ x. Fits t (star ∷ x)) k f)) in
            elim (Option-cases (behind lit s)) [
              | inl g ↦ cc (rw (a, b, g, str_mask) at e)
              | inr (t, g) ↦ elim (Bool-cases (is_empty r')) [
                | inl d ↦ whole (
                    behind-Fits lit s t rest g
                      (step t (subst (λ x. Fits t (star ∷ x)) (sym (empty_is r' d)) (one_star t))))
                | inr d ↦ elim (Option-cases (search (literal r').0 t)) [
                  | inl h ↦ cc (rw (a, b, g, d, h, str_mask) at e)
                  | inr (u, h) ↦
                      let later =
                        on_fuel-Fits fuel u (literal r').1 (rw (a, b, g, d, h, str_mask) at e) in
                      whole (
                        behind-Fits lit s t rest g (
                          step t (
                            subst (λ x. Fits t (star ∷ x)) (literal-append r')
                              (search-Fits (literal r').0 t u (literal r').1 h later))))
                ]
              ]
            ]
      ]
    ]

-- With fuel for the mask, more fuel changes nothing: the loop ends.
str_mask_ends :
    (f g : ℕ) (s r : List ℕ) → length r < f → length r < g → str_mask f s r ≡ str_mask g s r
unfolding str_mask
str_mask_ends zero g s r a b = absurd (omega (arith, a))
str_mask_ends (suc f) zero s r a b = absurd (omega (arith, b))
str_mask_ends (suc f) (suc g) s r a b =
    let rest = (literal r).1 in
    elim (Bool-cases (is_empty rest)) [
      | inl d ↦ rw d refl
      | inr d ↦
          let (r₁, q, k) = starts_star r d in
          let shorter : length (literal (skip_stars rest)).1 < length r = omega (
            arith,
            literal_shorter (skip_stars rest),
            ap (λ x. length x) k,
            skip_shorter r₁,
            ap (λ x. length x) q,
            literal_shorter r,
          ) in
          let same = λ (u : List ℕ).
            str_mask_ends f g u (literal (skip_stars rest)).1 (omega (arith, shorter, a))
              (omega (arith, shorter, b)) in
          elim (Option-cases (behind (literal r).0 s)) [
            | inl x ↦ rw (x, str_mask) refl
            | inr (t, x) ↦ elim (Option-cases (search (literal (skip_stars rest)).0 t)) [
              | inl y ↦ rw (x, y, str_mask) refl
              | inr (u, y) ↦ rw (x, y, same u, str_mask) refl
            ]
          ]
    ]

-- With fuel for the mask, a string that `strMask` accepts fits the mask, and is accepted with any other fuel for the mask.
pub str_mask-Fits :
    (fuel more : ℕ) (s r : List ℕ)
    → length r < fuel
    → length r < more
    → str_mask fuel s r ≡ true
    → Fits s r × (str_mask more s r ≡ true)
str_mask-Fits fuel more s r a b e =
    (on_fuel-Fits fuel s r e, sym (str_mask_ends fuel more s r a b) ∙ e)
