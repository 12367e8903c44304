-- ===== src/Segments/Packet.antt =====
-- What a packet of segment addresses is.
use okscada.Prelude.{
  ℕ, zero, suc, ◌+◌, ◌≤◌, ◌<◌, ◌≡◌, refl, subst, List, [], ◌∷◌, ◌++◌, length, arith,
}

-- A segment: its name, and the four bytes of its address.
pub record Segment : Type 0 where
  pub name : ℕ
  pub a : ℕ
  pub b : ℕ
  pub c : ℕ
  pub d : ℕ

pub record ModulePart : Type 0 where
  pub module_name : List ℕ
  pub segments : List Segment

pub record SubjectPart : Type 0 where
  pub subject_name : List ℕ
  pub modules : List ModulePart

pub record Packet : Type 0 where
  pub clean : ℕ
  pub subjects : List SubjectPart

unfoldable pub segment_bytes : List Segment → List ℕ
segment_bytes [] = []
segment_bytes (s ∷ ss) = s.name ∷ s.a ∷ s.b ∷ s.c ∷ s.d ∷ segment_bytes ss

-- A name with its length, a count, and what is counted.
abbrev pub part_bytes : List ℕ → ℕ → List ℕ → List ℕ
part_bytes name n body = (length name ∷ name) ++ n ∷ body

unfoldable pub module_bytes : List ModulePart → List ℕ
module_bytes [] = []
module_bytes (m ∷ ms) =
    part_bytes m.module_name (length m.segments) (segment_bytes m.segments) ++ module_bytes ms

unfoldable pub subject_bytes : List SubjectPart → List ℕ
subject_bytes [] = []
subject_bytes (s ∷ ss) =
    part_bytes s.subject_name (length s.modules) (module_bytes s.modules) ++ subject_bytes ss

unfoldable pub packet_bytes : Packet → List ℕ
packet_bytes x = x.clean ∷ length x.subjects ∷ subject_bytes x.subjects ++ 0 ∷ []

-- Names have from 1 to 39 bytes, counts are below 128.
abbrev pub IsName : List ℕ → Type 0
IsName s = (1 ≤ length s) × (length s < 40)

abbrev pub AreModules : List ModulePart → Type 0
AreModules [] = Unit {0}
AreModules (m ∷ ms) = IsName m.module_name × (length m.segments < 128) × AreModules ms

abbrev pub AreSubjects : List SubjectPart → Type 0
AreSubjects [] = Unit {0}
AreSubjects (s ∷ ss) =
    IsName s.subject_name × (length s.modules < 128) × AreModules s.modules × AreSubjects ss

abbrev pub IsPacket : Packet → Type 0
IsPacket x = (x.clean < 2) × (length x.subjects < 128) × AreSubjects x.subjects

-- The memory has these bytes from the place on.
abbrev pub Holds : (ℕ → ℕ) → ℕ → List ℕ → Type 0
Holds buf p [] = Unit {0}
Holds buf p (x ∷ xs) = (buf p ≡ x) × Holds buf (p + 1) xs

unfoldable pub read : (ℕ → ℕ) → ℕ → ℕ → List ℕ
read buf p zero = []
read buf p (suc n) = buf p ∷ read buf (p + 1) n

pub read-Holds : (buf : ℕ → ℕ) (p n : ℕ) → Holds buf p (read buf p n)
unfolding read
read-Holds buf p zero = tt
read-Holds buf p (suc n) = (refl, read-Holds buf (p + 1) n)

pub length-read : (buf : ℕ → ℕ) (p n : ℕ) → length (read buf p n) ≡ n
unfolding read
length-read buf p zero = refl
length-read buf p (suc n) = omega (arith, length-read buf (p + 1) n)

pub at_place : (buf : ℕ → ℕ) (p q : ℕ) (xs : List ℕ) → p ≡ q → Holds buf p xs → Holds buf q xs
at_place buf p q xs e h = subst (λ i. Holds buf i xs) e h

pub Holds-append :
    (buf : ℕ → ℕ) (p : ℕ) (xs ys : List ℕ)
    → Holds buf p xs
    → Holds buf (p + length xs) ys
    → Holds buf p (xs ++ ys)
Holds-append buf p [] ys h k = at_place buf (p + 0) p ys (omega arith) k
Holds-append buf p (x ∷ xs) ys (e, h) k =
    (e, Holds-append buf (p + 1) xs ys h (at_place buf _ _ ys (omega arith) k))

pub Holds-split :
    (buf : ℕ → ℕ) (p : ℕ) (xs ys : List ℕ)
    → Holds buf p (xs ++ ys)
    → Holds buf p xs × Holds buf (p + length xs) ys
Holds-split buf p [] ys h = (tt, at_place buf p (p + 0) ys (omega arith) h)
Holds-split buf p (x ∷ xs) ys (e, h) =
    let (a, b) = Holds-split buf (p + 1) xs ys h in ((e, a), at_place buf _ _ ys (omega arith) b)
