-- ===== src/Segments/Taken.antt =====
-- The first pass takes the packets of segment addresses.
use okscada.Prelude.{
  ℕ, ◌+◌, ◌≤◌, ◌<◌, ◌≡◌, ap, ◌∙◌, true, false, List, [], ◌∷◌, Option, some, length, length-append,
  ltb, leb, arith, ◌↔◌,
}
use okscada.Segments.{
  check_name, check_count, check_part, check_segments, check_modules, check_subjects, check_packet,
}
use okscada.Segments.Packet.{
  Segment, ModulePart, SubjectPart, Packet, segment_bytes, module_bytes, subject_bytes,
  packet_bytes, part_bytes, IsName, AreModules, AreSubjects, Holds, at_place, Holds-split,
}
use okscada.Segments.Accepted.{IsHeld, accepted-IsHeld}

module _ (buf : ℕ → ℕ) (len : ℕ) where
  name_ok :
      (s : List ℕ) (p : ℕ)
      → IsName s
      → buf p ≡ length s
      → p + 1 + length s ≤ len
      → check_name buf len p ≡ some (p + 1 + length s)
  unfolding check_name
  name_ok s p (a, b) e l = rw e (ground (arith, a, b, l))

  part_ok :
      (body : ℕ → ℕ → Option ℕ) (name : List ℕ) (n : ℕ) (bs : List ℕ) (p : ℕ)
      → IsName name
      → n < 128
      → Holds buf p (part_bytes name n bs)
      → p + length (part_bytes name n bs) ≤ len
      → ((b : ℕ) → Holds buf b bs → b + length bs ≤ len → body n b ≡ some (b + length bs))
      → check_part buf len body p ≡ some (p + length (part_bytes name n bs))
  unfolding check_count
  part_ok body name n bs p is l h room inside =
      let total = length-append name (n ∷ bs) in
      let (h₁, (e, h₂)) = Holds-split buf p (length name ∷ name) (n ∷ bs) h in
      let a = p + 1 + length name in
      let count : buf a ≡ n = ap buf (omega arith) ∙ e in
      let here = name_ok name p is h₁.0 (omega (arith, room, total)) in
      let done =
        inside (a + 1) (at_place buf _ (a + 1) bs (omega arith) h₂) (omega (arith, room, total)) in
      let small : leb 128 n ≡ false = ground (arith, l) in
      rw (here, count, small, done) (ap some (omega (arith, total)))

  segments_ok :
      (ss : List Segment) (p : ℕ)
      → Holds buf p (segment_bytes ss)
      → p + length (segment_bytes ss) ≤ len
      → check_segments buf len (length ss) p ≡ some (p + length (segment_bytes ss))
  unfolding check_segments segment_bytes
  segments_ok [] p h l = ap some (omega arith)
  segments_ok (s ∷ ss) p (_, (_, (_, (_, (_, h))))) l =
      let rest =
        segments_ok ss (p + 5) (at_place buf _ (p + 5) (segment_bytes ss) (omega arith) h)
          (omega (arith, l)) in
      rw rest (ground (arith, l))

  modules_ok :
      (ms : List ModulePart) (p : ℕ)
      → AreModules ms
      → Holds buf p (module_bytes ms)
      → p + length (module_bytes ms) ≤ len
      → check_modules buf len (length ms) p ≡ some (p + length (module_bytes ms))
  unfolding check_modules module_bytes
  modules_ok [] p are h l = ap some (omega arith)
  modules_ok (m ∷ ms) p (is, few, are) h l =
      let part = part_bytes m.module_name (length m.segments) (segment_bytes m.segments) in
      let total = length-append part (module_bytes ms) in
      let (h₁, h₂) = Holds-split buf p part (module_bytes ms) h in
      let here =
        part_ok (check_segments buf len) m.module_name (length m.segments)
          (segment_bytes m.segments) p is few h₁ (omega (arith, l, total))
          (segments_ok m.segments) in
      let rest = modules_ok ms (p + length part) are h₂ (omega (arith, l, total)) in
      rw (here, rest) (ap some (omega (arith, total)))

  subjects_ok :
      (ss : List SubjectPart) (p : ℕ)
      → AreSubjects ss
      → Holds buf p (subject_bytes ss)
      → p + length (subject_bytes ss) ≤ len
      → check_subjects buf len (length ss) p ≡ some (p + length (subject_bytes ss))
  unfolding check_subjects subject_bytes
  subjects_ok [] p are h l = ap some (omega arith)
  subjects_ok (s ∷ ss) p (is, few, inner, are) h l =
      let part = part_bytes s.subject_name (length s.modules) (module_bytes s.modules) in
      let total = length-append part (subject_bytes ss) in
      let (h₁, h₂) = Holds-split buf p part (subject_bytes ss) h in
      let here =
        part_ok (check_modules buf len) s.subject_name (length s.modules) (module_bytes s.modules) p
          is few h₁ (omega (arith, l, total)) (λ b k. modules_ok s.modules b inner k) in
      let rest = subjects_ok ss (p + length part) are h₂ (omega (arith, l, total)) in
      rw (here, rest) (ap some (omega (arith, total)))

  held_accepted : (x : Packet) → IsHeld buf len x → check_packet buf len ≡ true
  unfolding check_packet check_count packet_bytes
  held_accepted x ((a, b, are), l, (e, (n, h))) =
      let total = length-append (subject_bytes x.subjects) (0 ∷ []) in
      let (h₁, (z, _)) = Holds-split buf 2 (subject_bytes x.subjects) (0 ∷ []) h in
      let body = subjects_ok x.subjects 2 are h₁ (omega (arith, l, total)) in
      let flag : ltb 1 x.clean ≡ false = ground (arith, a) in
      let few : leb 128 (length x.subjects) ≡ false = ground (arith, b) in
      rw (e, n, flag, few, body, z) (ground (arith, l, total))

  -- Whatever stands behind it, a packet is taken just when the memory has, in its length, a flag of 0 or 1, the counted
  -- subjects with their counted modules and segments, and a last 0, with names of 1 to 39 bytes and counts below 128.
  pub check_packet_iff : (check_packet buf len ≡ true) ↔ ((x : Packet) × IsHeld buf len x)
  check_packet_iff = (accepted-IsHeld buf len, λ (x, h). held_accepted x h)
