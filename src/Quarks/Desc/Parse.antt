-- ===== src/Quarks/Desc/Parse.antt =====
-- The names and the indices that are read from a description.
use okscada.Prelude.{
  ℕ, zero, suc, ◌+◌, ◌-◌, ◌*◌, ◌%◌, ◌≤◌, ◌≡◌, ◌≢◌, refl, ◌∙◌, true, List, [], ◌∷◌, ◌++◌, Option,
  none, some, length, length-append, leb, if◌then◌else◌, arith, Bool-cases, inl, inr, append_assoc,
}
use okscada.Ooid.{int_mod}
use okscada.Quarks.Desc.{
  split_at, split_desc, is_digit, starts_digit, scan_num, index_at, with_char, with_index, extract,
}

abbrev pub Without : ℕ → List ℕ → Type 0
Without x [] = Unit {0}
Without x (c ∷ s) = (c ≢ x) × Without x s

split_at-append : (x : ℕ) (a b : List ℕ) → Without x a → split_at x (a ++ x ∷ b) ≡ some (a, b)
unfolding split_at
split_at-append x [] b h = ground arith
split_at-append x (c ∷ a) b (n, h) = rw (split_at-append x a b h) (ground (arith, n))

Without-append : (x : ℕ) (a b : List ℕ) → Without x a → Without x b → Without x (a ++ b)
Without-append x [] b h k = k
Without-append x (c ∷ a) b (n, h) k = (n, Without-append x a b h k)

-- A subject without '/' and '@', a module without '@' and any path, joined as "subject/module@path", are read back.
pub split_desc-join :
    (subject module_name path : List ℕ)
    → Without 47 subject
    → Without 64 subject
    → Without 64 module_name
    → split_desc (subject ++ (47 ∷ module_name ++ (64 ∷ path))) ≡ (subject, module_name, path)
unfolding split_desc
split_desc-join subject module_name path a b c =
    let names = subject ++ 47 ∷ module_name in
    let h : Without 64 names = Without-append 64 subject (47 ∷ module_name) b (omega arith, c) in
    rw
      (
        ← append_assoc subject (47 ∷ module_name) (64 ∷ path),
        split_at-append 64 names path h,
        split_at-append 47 subject module_name a,
        split_desc,
      )
      refl

-- What a path is made of: a byte, or an index by its digits.
pub data Piece : Type 0 where
  char : ℕ → Piece
  index : List ℕ → Piece

abbrev pub AllDigits : List ℕ → Type 0
AllDigits [] = Unit {0}
AllDigits (d ∷ ds) = (is_digit d ≡ true) × AllDigits ds

-- A byte is not '[', and an index has a digit and nothing else.
abbrev pub IsPiece : Piece → Type 0
IsPiece (char c) = c ≢ 91
IsPiece (index ds) = (starts_digit ds ≡ true) × AllDigits ds

abbrev pub AllPieces : List Piece → Type 0
AllPieces [] = Unit {0}
AllPieces (x ∷ xs) = IsPiece x × AllPieces xs

unfoldable pub print : List Piece → List ℕ
print [] = []
print (char c ∷ ps) = c ∷ print ps
print (index ds ∷ ps) = 91 ∷ ds ++ (93 ∷ print ps)

-- The decimal number of the digits, on top of `n`.
unfoldable pub number : ℕ → List ℕ → ℕ
number n [] = n
number n (d ∷ ds) = number (n * 10 + (d - 48)) ds

unfoldable pub template : List Piece → List ℕ
template [] = []
template (char c ∷ ps) = c ∷ template ps
template (index ds ∷ ps) = 63 ∷ template ps

unfoldable pub indices : List Piece → List ℕ
indices [] = []
indices (char c ∷ ps) = indices ps
indices (index ds ∷ ps) = number 0 ds % int_mod ∷ indices ps

scan_num-number :
    (ds rest : List ℕ) (n : ℕ)
    → AllDigits ds
    → scan_num (n % int_mod) (ds ++ 93 ∷ rest) ≡ (number n ds % int_mod, 93 ∷ rest)
unfolding scan_num number
scan_num-number [] rest n h = refl
scan_num-number (d ∷ ds) rest n (e, h) =
    let same : (n % int_mod * 10 + (d - 48)) % int_mod ≡ (n * 10 + (d - 48)) % int_mod =
      omega arith in
    rw (e, same) (scan_num-number ds rest (n * 10 + (d - 48)) h)

starts_append : (ds rest : List ℕ) → starts_digit ds ≡ true → starts_digit (ds ++ rest) ≡ true
starts_append [] rest e = cc
starts_append (d ∷ ds) rest e = e

index_at-index :
    (ds rest : List ℕ)
    → IsPiece (index ds)
    → index_at 91 (ds ++ 93 ∷ rest) ≡ some (number 0 ds % int_mod, rest)
unfolding index_at
index_at-index ds rest (e, h) =
    rw (starts_append ds (93 ∷ rest) e, scan_num-number ds rest 0 h) refl

index_at-char : (c : ℕ) (s : List ℕ) → c ≢ 91 → index_at c s ≡ none
unfolding index_at
index_at-char c s h = ground arith

pieces_room : (ds : List ℕ) (r : List ℕ) (f : ℕ) → length (91 ∷ ds ++ 93 ∷ r) ≤ suc f → length r ≤ f
pieces_room ds r f h = omega (arith, length-append ds (93 ∷ r))

step_char :
    (f i c : ℕ) (s : List ℕ)
    → index_at c s ≡ none
    → extract (suc f) i (c ∷ s) ≡ with_char c (extract f i s)
unfolding extract
step_char f i c s e = rw (e, extract) refl

step_index :
    (f i c n : ℕ) (s rest : List ℕ)
    → index_at c s ≡ some (n, rest)
    → extract (suc f) i (c ∷ s) ≡ (if leb 4 i then none else with_index n (extract f (suc i) rest))
unfolding extract
step_index f i c n s rest e = rw (e, extract) refl

-- What is read of a path behind `i` indices.
abbrev pub reading : ℕ → List Piece → Option (List ℕ × List ℕ)
reading i ps = if leb (i + length (indices ps)) 4 then some (template ps, indices ps) else none

extract-reading :
    (ps : List Piece) (f i : ℕ)
    → AllPieces ps
    → i ≤ 4
    → length (print ps) ≤ f
    → extract f i (print ps) ≡ reading i ps
unfolding extract print template indices
extract-reading [] zero i h l r = ground arith
extract-reading [] (suc f) i h l r = ground arith
extract-reading (char c ∷ ps) zero i h l r = absurd (omega (arith, r))
extract-reading (index ds ∷ ps) zero i h l r = absurd (omega (arith, r))
extract-reading (char c ∷ ps) (suc f) i (n, h) l r =
    let rest = extract-reading ps f i h l (omega (arith, r)) in
    step_char f i c (print ps) (index_at-char c (print ps) n) ∙ (rw rest (ground arith))
extract-reading (index ds ∷ ps) (suc f) i (n, h) l r =
    let rest = extract-reading ps f (suc i) h in
    let room = pieces_room ds (print ps) f r in
    step_index f i 91 _ _ _ (index_at-index ds (print ps) n) ∙ (elim (Bool-cases (leb 4 i)) [
      | inl e ↦ rw e (ground (arith, e))
      | inr e ↦ rw (e, rest (ground (arith, e)) room) (ground arith)
    ])

-- A path of bytes other than '[' and of indices in brackets, with fuel for its length: with at most four indices, its
-- bytes with a '?' for each index and the indices modulo 2^32 are read; with more, the answer is that there are too
-- many.
pub extract-print :
    (ps : List Piece) (f : ℕ)
    → AllPieces ps
    → length (print ps) ≤ f
    → extract f 0 (print ps)
      ≡ (if leb (length (indices ps)) 4 then some (template ps, indices ps) else none)
extract-print ps f h r =
    let plain : 0 + length (indices ps) ≡ length (indices ps) = omega arith in
    rw plain at (extract-reading ps f 0 h (omega arith) r)
