-- ===== src/Prelude/CString.antt =====
-- C strings: the bytes before the terminating 0, and `strcmp` and `strncmp` as <string.h> promises
-- them. Only the sign of their result is promised; the hash tree uses its two low bits, whatever
-- they are, so the functions are an argument of what calls them.
use okscada.Prelude.Tests.{◌==◌, if◌then◌else◌}
use okscada.Prelude.Lists.{take, drop, length}
use Prim.Native.Nat.{ℕ, ◌≤◌}
use mathlib.Core.Path.{◌≡◌, refl}
use mathlib.Core.Bool.{Bool, true, false, ◌&&◌}
use mathlib.Core.Logic.{◌↔◌, ◌≢◌}
use mathlib.Core.List.{List, [], ◌∷◌, ◌++◌}
use native.Mathlib.Omega.{arith}

-- The string that starts at the head of the buffer.
abbrev pub c_str : List ℕ → List ℕ
c_str [] = []
c_str (b ∷ bs) = let rest = c_str bs in if b == 0 then [] else b ∷ rest

-- No byte of the string is the terminator.
abbrev pub IsCStr : List ℕ → Type 0
IsCStr [] = Unit {0}
IsCStr (b ∷ bs) = (1 ≤ b) × IsCStr bs

pub c_str-append : (s rest : List ℕ) → IsCStr s → c_str (s ++ 0 ∷ rest) ≡ s
c_str-append [] rest h = refl
c_str-append (b ∷ s) rest h = ground (arith, c_str-append s rest h.1)

-- The results are `int`s, taken as 32-bit patterns.
pub record StringCompare : Type 0 where
  pub strcmp : List ℕ → List ℕ → ℕ
  pub strncmp : List ℕ → List ℕ → ℕ → ℕ
  pub strcmp_iff : (a b : List ℕ) → (strcmp a b ≡ 0) ↔ (a ≡ b)
  pub strncmp_iff : (a b : List ℕ) (n : ℕ) → (strncmp a b n ≡ 0) ↔ (take n a ≡ take n b)

abbrev pub bytes_eq : List ℕ → List ℕ → Bool
bytes_eq [] [] = true
bytes_eq [] (b ∷ bs) = false
bytes_eq (a ∷ as') [] = false
bytes_eq (a ∷ as') (b ∷ bs) = a == b && bytes_eq as' bs

pub bytes_eq_iff : (a b : List ℕ) → (bytes_eq a b ≡ true) ↔ (a ≡ b)
bytes_eq_iff [] [] = ground arith
bytes_eq_iff [] (b ∷ bs) = ground arith
bytes_eq_iff (a ∷ as') [] = ground arith
bytes_eq_iff (a ∷ as') (b ∷ bs) = ground (arith, bytes_eq_iff as' bs)

pub bytes_eq_refl : (a : List ℕ) → bytes_eq a a ≡ true
bytes_eq_refl a = (bytes_eq_iff a a).1 refl

pub bytes_eq-false : (a b : List ℕ) → a ≢ b → bytes_eq a b ≡ false
bytes_eq-false a b ne = ground (arith, bytes_eq_iff a b)

-- The string at an offset of a buffer.
abbrev pub str_at : List ℕ → ℕ → List ℕ
str_at buf off = c_str (drop off buf)

pub drop-length {ℓ} : {A : Type ℓ} (xs ys : List A) → drop (length xs) (xs ++ ys) ≡ ys
drop-length [] ys = refl
drop-length (x ∷ xs) ys = drop-length xs ys

-- The string that was put at the end of the buffer, whatever follows it.
pub str_at-append :
    (buf s rest : List ℕ) → IsCStr s → str_at (buf ++ (s ++ 0 ∷ rest)) (length buf) ≡ s
str_at-append buf s rest h = rw (drop-length buf (s ++ 0 ∷ rest)) (c_str-append s rest h)
