-- ===== src/Segments/Accepted.antt =====
-- What the first pass takes is a packet of segment addresses.
use okscada.Prelude.{
  ℕ, zero, suc, ◌+◌, ◌<◌, ◌≡◌, refl, sym, subst, ap, ◌∙◌, true, ◌||◌, List, [], ◌∷◌, Option, none,
  some, length, length-append, ltb, leb, ◌==◌, arith, Bool-cases, Option-cases, inl, inr,
}
use okscada.Segments.{
  check_name, check_count, check_part, check_segments, check_modules, check_subjects, ends_packet,
  check_packet,
}
use okscada.Segments.Packet.{
  Segment, Packet, segment_bytes, module_bytes, subject_bytes, packet_bytes, part_bytes, IsName,
  AreModules, AreSubjects, IsPacket, Holds, read, read-Holds, length-read, at_place, Holds-append,
}

module _ (buf : ℕ → ℕ) (len : ℕ) where
  -- What stands ahead of the place that is returned.
  abbrev Found : {X : Type 0} → (List X → List ℕ) → (List X → Type 0) → ℕ → ℕ → Option ℕ → Type 0
  Found bytes Are n p none = Unit {0}
  Found {X} bytes Are n p (some e) =
      (xs : List X) × (length xs ≡ n)
      × Are xs
      × Holds buf p (bytes xs)
      × (e ≡ p + length (bytes xs))

  abbrev FoundPart : {X : Type 0} → (List X → List ℕ) → (List X → Type 0) → ℕ → Option ℕ → Type 0
  FoundPart bytes Are p none = Unit {0}
  FoundPart {X} bytes Are p (some e) =
      (name : List ℕ) × (xs : List X) × IsName name
      × (length xs < 128)
      × Are xs
      × Holds buf p (part_bytes name (length xs) (bytes xs))
      × (e ≡ p + length (part_bytes name (length xs) (bytes xs)))

  abbrev FoundName : ℕ → Option ℕ → Type 0
  FoundName p none = Unit {0}
  FoundName p (some e) =
      (s : List ℕ) × IsName s × Holds buf p (length s ∷ s) × (e ≡ p + 1 + length s)

  check_name-FoundName : (p : ℕ) → FoundName p (check_name buf len p)
  unfolding check_name
  check_name-FoundName p =
      elim (Bool-cases (buf p == 0 || (leb 40 (buf p) || ltb len (p + 1 + buf p)))) [
        | inl e ↦ rw e tt
        | inr e ↦
            let s = read buf (p + 1) (buf p) in
            let l = length-read buf (p + 1) (buf p) in
            rw e (
              s,
              (ground (arith, e, l), ground (arith, e, l)),
              (sym l, read-Holds buf (p + 1) (buf p)),
              omega (arith, l),
            )
      ]

  part-Found :
      {X : Type 0} (bytes : List X → List ℕ) (Are : List X → Type 0) (p a n : ℕ) (o : Option ℕ)
      → FoundName p (some a)
      → buf a ≡ n
      → n < 128
      → Found bytes Are n (a + 1) o
      → FoundPart bytes Are p o
  part-Found bytes Are p a n none h e l f = tt
  part-Found bytes Are p a n (some z) (s, is, h, q) e l (xs, k, are, g, r) = (
    s,
    xs,
    is,
    omega (arith, k, l),
    are,
    Holds-append buf p (length s ∷ s) (length xs ∷ bytes xs) h
        (at_place buf a _ (length xs ∷ bytes xs) (omega (arith, q)) (e ∙ sym k, g)),
    omega (arith, q, r, length-append s (length xs ∷ bytes xs)),
  )

  check_part-FoundPart :
      {X : Type 0} (bytes : List X → List ℕ) (Are : List X → Type 0) (body : ℕ → ℕ → Option ℕ)
      → ((n p : ℕ) → Found bytes Are n p (body n p))
      → (p : ℕ) → FoundPart bytes Are p (check_part buf len body p)
  unfolding check_count
  check_part-FoundPart bytes Are body h p = elim (Option-cases (check_name buf len p)) [
    | inl e ↦ rw e tt
    | inr (a, e) ↦ elim (Bool-cases (leb 128 (buf a))) [
      | inl f ↦ rw (e, f) tt
      | inr f ↦
          rw (e, f)
            (part-Found bytes Are p a (buf a) (body (buf a) (a + 1))
              (subst (FoundName p) e (check_name-FoundName p)) refl (ground (arith, f))
              (h (buf a) (a + 1)))
    ]
  ]

  abbrev Anything : List Segment → Type 0
  Anything ss = Unit {0}

  segments-more :
      (n p : ℕ) (o : Option ℕ)
      → Found segment_bytes Anything n (p + 5) o
      → Found segment_bytes Anything (suc n) p o
  unfolding segment_bytes
  segments-more n p none f = tt
  segments-more n p (some e) (ss, k, _, h, q) = (
    record {
      name = buf p;
      a = buf (p + 1);
      b = buf (p + 1 + 1);
      c = buf (p + 1 + 1 + 1);
      d = buf (p + 1 + 1 + 1 + 1);
    }
        ∷ ss,
    ap suc k,
    tt,
    (
      refl,
      (refl, (refl, (refl, (refl, at_place buf (p + 5) _ (segment_bytes ss) (omega arith) h)))),
    ),
    omega (arith, q),
  )

  check_segments-Found : (n p : ℕ) → Found segment_bytes Anything n p (check_segments buf len n p)
  unfolding check_segments segment_bytes
  check_segments-Found zero p = ([], refl, tt, tt, omega arith)
  check_segments-Found (suc n) p = elim (Bool-cases (ltb len (p + 5))) [
    | inl e ↦ rw e tt
    | inr e ↦ rw e (segments-more n p _ (check_segments-Found n (p + 5)))
  ]

  modules-more :
      (n p a : ℕ) (o : Option ℕ)
      → FoundPart segment_bytes Anything p (some a)
      → Found module_bytes AreModules n a o
      → Found module_bytes AreModules (suc n) p o
  unfolding module_bytes
  modules-more n p a none f g = tt
  modules-more n p a (some e) (name, ss, is, l, _, h, q) (ms, k, are, h', r) =
      let part = part_bytes name (length ss) (segment_bytes ss) in
      (
        record { module_name = name; segments = ss } ∷ ms,
        ap suc k,
        (is, l, are),
        Holds-append buf p part (module_bytes ms) h (at_place buf a _ (module_bytes ms) q h'),
        omega (arith, q, r, length-append part (module_bytes ms)),
      )

  check_modules-Found : (n p : ℕ) → Found module_bytes AreModules n p (check_modules buf len n p)
  unfolding check_modules module_bytes
  check_modules-Found zero p = ([], refl, tt, tt, omega arith)
  check_modules-Found (suc n) p =
      let here =
        check_part-FoundPart segment_bytes Anything (check_segments buf len) check_segments-Found
          p in
      elim (Option-cases (check_part buf len (check_segments buf len) p)) [
        | inl e ↦ rw (e, check_modules) tt
        | inr (a, e) ↦
            rw (e, check_modules)
              (modules-more n p a _ (subst (FoundPart segment_bytes Anything p) e here)
                (check_modules-Found n a))
      ]

  subjects-more :
      (n p a : ℕ) (o : Option ℕ)
      → FoundPart module_bytes AreModules p (some a)
      → Found subject_bytes AreSubjects n a o
      → Found subject_bytes AreSubjects (suc n) p o
  unfolding subject_bytes
  subjects-more n p a none f g = tt
  subjects-more n p a (some e) (name, ms, is, l, are, h, q) (ss, k, are', h', r) =
      let part = part_bytes name (length ms) (module_bytes ms) in
      (
        record { subject_name = name; modules = ms } ∷ ss,
        ap suc k,
        (is, l, are, are'),
        Holds-append buf p part (subject_bytes ss) h (at_place buf a _ (subject_bytes ss) q h'),
        omega (arith, q, r, length-append part (subject_bytes ss)),
      )

  check_subjects-Found :
      (n p : ℕ) → Found subject_bytes AreSubjects n p (check_subjects buf len n p)
  unfolding check_subjects subject_bytes
  check_subjects-Found zero p = ([], refl, tt, tt, omega arith)
  check_subjects-Found (suc n) p =
      let here =
        check_part-FoundPart module_bytes AreModules (check_modules buf len) check_modules-Found
          p in
      elim (Option-cases (check_part buf len (check_modules buf len) p)) [
        | inl e ↦ rw (e, check_subjects) tt
        | inr (a, e) ↦
            rw (e, check_subjects)
              (subjects-more n p a _ (subst (FoundPart module_bytes AreModules p) e here)
                (check_subjects-Found n a))
      ]

  -- The packet of that length that stands in memory.
  abbrev pub IsHeld : Packet → Type 0
  IsHeld x = IsPacket x × (len ≡ length (packet_bytes x)) × Holds buf 0 (packet_bytes x)

  ended-IsHeld :
      (o : Option ℕ)
      → buf 0 < 2
      → buf 1 < 128
      → Found subject_bytes AreSubjects (buf 1) 2 o
      → ends_packet buf len o ≡ true
      → (x : Packet) × IsHeld x
  unfolding packet_bytes
  ended-IsHeld none a b f e = cc
  ended-IsHeld (some p) a b (ss, k, are, h, q) e =
      let (zero_byte, end) : (buf p ≡ 0) × (p + 1 ≡ len) = (ground (arith, e), ground (arith, e)) in
      let x : Packet = record { clean = buf 0; subjects = ss } in
      (
        x,
        (
          (a, omega (arith, k, b), are),
          omega (arith, end, q, length-append (subject_bytes ss) (0 ∷ [])),
          (
            refl,
            (
              sym k,
              Holds-append buf 2 (subject_bytes ss) (0 ∷ []) h (ap buf (sym q) ∙ zero_byte, tt),
            ),
          ),
        ),
      )

  pub accepted-IsHeld : check_packet buf len ≡ true → (x : Packet) × IsHeld x
  unfolding check_packet check_count
  accepted-IsHeld e = elim (Bool-cases (ltb 1 (buf 0))) [
    | inl f ↦ cc (rw f at e)
    | inr f ↦ elim (Bool-cases (leb 128 (buf 1))) [
      | inl g ↦ cc (rw (f, g) at e)
      | inr g ↦
          ended-IsHeld (check_subjects buf len (buf 1) 2) (ground (arith, f)) (ground (arith, g))
            (check_subjects-Found (buf 1) 2) (rw (f, g) at e)
    ]
  ]
