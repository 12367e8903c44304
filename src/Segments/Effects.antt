-- ===== src/Segments/Effects.antt =====
-- The second pass over a packet does what the packet says.
use okscada.Prelude.{
  ℕ, ◌+◌, ◌*◌, ◌≡◌, refl, ap, ◌∙◌, true, List, [], ◌∷◌, Option, length, length-append, arith,
}
use okscada.Prelude.CString.{c_str}
use okscada.Segments.Packet.{
  Segment, ModulePart, SubjectPart, Packet, segment_bytes, module_bytes, subject_bytes,
  packet_bytes, part_bytes, Holds, read, at_place, Holds-split,
}
use okscada.Segments.Accepted.{IsHeld}
use okscada.Segments.Taken.{check_packet_iff}
use okscada.Segments.Work.{
  Hub, set_segment, address, module_named, find_subject, named_on, start, finish, work_segments,
  work_modules, work_subjects, handle_segments,
}

-- The segments, modules and subjects of a packet, one after the other.
unfoldable pub apply_segments : Option ℕ → List Segment → Hub → Hub
apply_segments target [] h = h
apply_segments target (s ∷ ss) h =
    apply_segments target ss (set_segment target s.name (address s.a s.b s.c s.d) h)

unfoldable pub apply_modules : Option ℕ → List ModulePart → Hub → Hub
apply_modules owner [] h = h
apply_modules owner (m ∷ ms) h =
    let target = module_named owner (c_str m.module_name) h.modules in
    apply_modules owner ms (apply_segments target m.segments h)

unfoldable pub apply_subjects : ℕ → List SubjectPart → Hub → Hub
apply_subjects agent [] h = h
apply_subjects agent (s ∷ ss) h =
    let name = c_str s.subject_name in
    let owner = find_subject agent name 0 h.subjects in
    apply_subjects agent ss (named_on owner name (apply_modules owner s.modules h))

-- The whole packet: a clean start makes the states of the agent's subjects undefined, and those that stay so are
-- turned off.
unfoldable pub apply_packet : ℕ → Packet → Hub → Hub
apply_packet agent x h = finish agent (apply_subjects agent x.subjects (start x.clean agent h))

length-segment_bytes : (ss : List Segment) → length (segment_bytes ss) ≡ 5 * length ss
unfolding segment_bytes
length-segment_bytes [] = refl
length-segment_bytes (s ∷ ss) = omega (arith, length-segment_bytes ss)

module _ (buf : ℕ → ℕ) where
  read_held : (s : List ℕ) (p : ℕ) → Holds buf p s → read buf p (length s) ≡ s
  unfolding read
  read_held [] p h = refl
  read_held (x ∷ s) p (e, h) = rw (e, read_held s (p + 1) h) refl

  work_segments-apply :
      (target : Option ℕ) (ss : List Segment) (p : ℕ) (h : Hub)
      → Holds buf p (segment_bytes ss)
      → work_segments buf target (length ss) p h ≡ apply_segments target ss h
  unfolding work_segments apply_segments segment_bytes
  work_segments-apply target [] p h k = refl
  work_segments-apply target (s ∷ ss) p h (e₀, (e₁, (e₂, (e₃, (e₄, k))))) =
      let k' = at_place buf _ (p + 5) (segment_bytes ss) (omega arith) k in
      rw (e₀, e₁, e₂, e₃, e₄, work_segments) (work_segments-apply target ss (p + 5) _ k')

  work_modules-apply :
      (owner : Option ℕ) (ms : List ModulePart) (p : ℕ) (h : Hub)
      → Holds buf p (module_bytes ms)
      → work_modules buf owner (length ms) p h
        ≡ (p + length (module_bytes ms), apply_modules owner ms h)
  unfolding work_modules apply_modules module_bytes
  work_modules-apply owner [] p h k = let f : ℕ → ℕ × Hub = λ e. (e, h) in ap f (omega arith)
  work_modules-apply owner (m ∷ ms) p h k =
      let n = length m.segments in
      let part = part_bytes m.module_name n (segment_bytes m.segments) in
      let total = length-append part (module_bytes ms) in
      let inner = length-append m.module_name (n ∷ segment_bytes m.segments) in
      let fives = length-segment_bytes m.segments in
      let (k₁, k₂) = Holds-split buf p part (module_bytes ms) k in
      let (k₃, (e, k₄)) =
        Holds-split buf p (length m.module_name ∷ m.module_name) (n ∷ segment_bytes m.segments)
          k₁ in
      let a = p + 1 + length m.module_name in
      let count : buf a ≡ n = ap buf (omega arith) ∙ e in
      let target = module_named owner (c_str m.module_name) h.modules in
      let h' = apply_segments target m.segments h in
      let segs =
        work_segments-apply target m.segments (a + 1) h
          (at_place buf _ (a + 1) (segment_bytes m.segments) (omega arith) k₄) in
      let place : p + length part ≡ a + 1 + 5 * n = omega (arith, inner, fives) in
      let rest =
        work_modules-apply owner ms (a + 1 + 5 * n) h'
          (at_place buf _ _ (module_bytes ms) place k₂) in
      let f : ℕ → ℕ × Hub = λ e. (e, apply_modules owner ms h') in
      rw (k₃.0, read_held m.module_name (p + 1) k₃.1, count, segs, rest, work_modules)
        (ap f (omega (arith, total, place)))

  work_subjects-apply :
      (agent : ℕ) (ss : List SubjectPart) (p : ℕ) (h : Hub)
      → Holds buf p (subject_bytes ss)
      → work_subjects buf agent (length ss) p h ≡ apply_subjects agent ss h
  unfolding work_subjects apply_subjects subject_bytes
  work_subjects-apply agent [] p h k = refl
  work_subjects-apply agent (s ∷ ss) p h k =
      let n = length s.modules in
      let part = part_bytes s.subject_name n (module_bytes s.modules) in
      let inner = length-append s.subject_name (n ∷ module_bytes s.modules) in
      let (k₁, k₂) = Holds-split buf p part (subject_bytes ss) k in
      let (k₃, (e, k₄)) =
        Holds-split buf p (length s.subject_name ∷ s.subject_name) (n ∷ module_bytes s.modules)
          k₁ in
      let a = p + 1 + length s.subject_name in
      let count : buf a ≡ n = ap buf (omega arith) ∙ e in
      let owner = find_subject agent (c_str s.subject_name) 0 h.subjects in
      let mods =
        work_modules-apply owner s.modules (a + 1) h
          (at_place buf _ (a + 1) (module_bytes s.modules) (omega arith) k₄) in
      let place : p + length part ≡ a + 1 + length (module_bytes s.modules) =
        omega (arith, inner) in
      rw (k₃.0, read_held s.subject_name (p + 1) k₃.1, count, mods, work_subjects)
        (work_subjects-apply agent ss _ _ (at_place buf _ _ (subject_bytes ss) place k₂))

  -- Where the memory has a packet in its length, whatever stands behind it, the packet is taken and the hub is what
  -- becomes of it by the subjects, modules and segments of the packet in their order.
  pub handle_segments-apply :
      (len agent : ℕ) (x : Packet) (h : Hub)
      → IsHeld buf len x
      → handle_segments buf len agent h ≡ (apply_packet agent x h, true)
  unfolding handle_segments packet_bytes apply_packet
  handle_segments-apply len agent x h i =
      let taken = (check_packet_iff buf len).1 (x, i) in
      let (e, (n, k)) = i.2 in
      let (k₁, _) = Holds-split buf 2 (subject_bytes x.subjects) (0 ∷ []) k in
      rw (taken, e, n, work_subjects-apply agent x.subjects 2 (start x.clean agent h) k₁) refl
