-- ===== src/Segments.antt =====
-- hub/hub-subject.c: the first pass of `ohubHandleSegments`, which checks a packet of segment addresses.
-- `buf` is the memory from the start of the packet on, as unsigned bytes: a byte from 128 on is a negative `char`. What
-- is read behind the packet is whatever stands there.
pub mod Packet
pub mod Accepted
pub mod Taken
pub mod Work
pub mod Effects
use okscada.Prelude.{
  ℕ, zero, suc, ◌+◌, Bool, true, false, not, ◌||◌, Option, none, some, ltb, leb, ◌==◌,
  if◌then◌else◌,
}

abbrev pub and_then {ℓ} : {A B : Type ℓ} → Option A → (A → Option B) → Option B
and_then none f = none
and_then (some a) f = f a

module _ (buf : ℕ → ℕ) (len : ℕ) where
  -- A name with its length ahead of it: the place behind it, or a failure.
  unfoldable pub check_name : ℕ → Option ℕ
  check_name p =
      let q = buf p in
      if q == 0 || (leb 40 q || ltb len (p + 1 + q)) then none else some (p + 1 + q)

  -- A count that is not negative.
  unfoldable pub check_count : ℕ → Option ℕ
  check_count p = if leb 128 (buf p) then none else some (p + 1)

  -- A name and a count, and what is counted.
  abbrev pub check_part : (ℕ → ℕ → Option ℕ) → ℕ → Option ℕ
  check_part body p = and_then (check_name p) (λ a. and_then (check_count a) (λ b. body (buf a) b))

  -- The segments, of five bytes each.
  pub check_segments : ℕ → ℕ → Option ℕ
  check_segments zero p = some p
  check_segments (suc n) p =
      let rest = check_segments n (p + 5) in if ltb len (p + 5) then none else rest

  -- The modules of a subject.
  pub check_modules : ℕ → ℕ → Option ℕ
  check_modules zero p = some p
  check_modules (suc n) p = and_then (check_part check_segments p) (λ a. check_modules n a)

  pub check_subjects : ℕ → ℕ → Option ℕ
  check_subjects zero p = some p
  check_subjects (suc n) p = and_then (check_part check_modules p) (λ a. check_subjects n a)

  abbrev pub ends_packet : Option ℕ → Bool
  ends_packet none = false
  ends_packet (some p) = if buf p == 0 then p + 1 == len else false

  -- The first pass: whether the packet is taken.
  pub check_packet : Bool
  check_packet =
      if ltb 1 (buf 0)
      then false
      else ends_packet (and_then (check_count 1) (λ p. check_subjects (buf 1) p))
