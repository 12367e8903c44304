-- ===== src/Subj/Fields.antt =====
-- What the bit fields of words hold.
use okscada.Prelude.{
  ℕ, ◌+◌, ◌-◌, ◌*◌, ◌/◌, ◌%◌, ◌≤◌, ◌<◌, ◌≡◌, ◌⊎◌, inl, inr, Bool, ◌&&◌, ltb, ltb→lt, if◌then◌else◌,
  arith, Bool-cases,
}
use okscada.Subj.{Word, Memory, get_field, set_field, load, store}

-- The low bits of a word, extended by zeros or by the highest of them.
abbrev pub extended : ℕ → ℕ → Bool → Word → Word
extended width blen hibit d i = if ltb i blen then d i else ltb i width && (hibit && d (blen - 1))

-- A field is in the word, and is shorter than an `int`.
pub record Fits (width boff blen : ℕ) : Type 0 where
  pub some_bits : 0 < blen
  pub short : blen < 32
  pub inside : boff + blen ≤ width
  pub is_int : width ≤ 32

pub set_field-inside :
    (width boff blen : ℕ) (v d : Word) (i : ℕ)
    → Fits width boff blen
    → i < blen
    → set_field width boff blen v d (i + boff) ≡ d i
set_field-inside width boff blen v d i f h =
    let b : boff % 32 ≡ boff = omega (arith, f.some_bits, f.inside, f.is_int) in
    let l : blen % 32 ≡ blen = omega (arith, f.short) in
    rw (b, l) (ground (arith, h, f.inside, f.short))

-- The shifts take their counts modulo 32.
pub set_field-outside :
    (width boff blen : ℕ) (v d : Word) (i : ℕ)
    → i < width
    → (i < boff % 32) ⊎ (boff % 32 + blen % 32 ≤ i)
    → set_field width boff blen v d i ≡ v i
set_field-outside width boff blen v d i h o = ground (arith, h, o)

-- The field of a word that has the bits of `d` there is `d`, extended to the width.
pub get_field-extended :
    (width boff blen : ℕ) (hibit : Bool) (v d : Word) (i : ℕ)
    → Fits width boff blen
    → ((j : ℕ) → j < blen → v (j + boff) ≡ d j)
    → get_field width boff blen hibit v i ≡ extended width blen hibit d i
get_field-extended width boff blen hibit v d i f same =
    let b : boff % 32 ≡ boff = omega (arith, f.some_bits, f.inside, f.is_int) in
    let l : blen % 32 ≡ blen = omega (arith, f.short) in
    let t : (blen - 1) % 32 ≡ blen - 1 = omega (arith, f.short) in
    let top : v (blen - 1 + boff) ≡ d (blen - 1) = same (blen - 1) (omega (arith, f.some_bits)) in
    rw (b, l, t)
      (elim (Bool-cases (ltb i blen)) [
        | inl e ↦ ground (arith, top, same i (ltb→lt i blen e), f.inside, f.some_bits)
        | inr e ↦ ground (arith, top, f.inside, f.some_bits)
      ])

-- A word that is stored is loaded again.
pub load-store :
    (n : ℕ) (m : Memory) (a : ℕ) (w : Word) (i : ℕ) → i < 8 * n → load n (store n m a w) a i ≡ w i
load-store n m a w i h =
    let q : i / 8 < n = omega (arith, h) in
    let e : 8 * (a + i / 8 - a) + i % 8 ≡ i = omega arith in rw e (ground (arith, h, q, e))

-- A bit of another byte stays as it was.
pub store-apart :
    (n : ℕ) (m : Memory) (a : ℕ) (w : Word) (x k : ℕ)
    → (x < a) ⊎ (a + n ≤ x)
    → store n m a w x k ≡ m x k
store-apart n m a w x k o = ground (arith, o)
