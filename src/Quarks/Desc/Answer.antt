-- ===== src/Quarks/Desc/Answer.antt =====
-- What `ohubFindQuarkByDesc` answers.
use okscada.Prelude.{
  ℕ, ◌+◌, ◌%◌, ◌≡◌, refl, ap, ◌∙◌, ◌||◌, List, [], ◌∷◌, Option, none, some, length, get_elem?,
  get_or, ltb, arith, Bool-cases, Option-cases, inl, inr,
}
use okscada.Prelude.CString.{StringCompare}
use okscada.Ooid.{Factory, Memory, ulong_mod, make_static_ooid}
use okscada.Trim.{ohub_trim}
use okscada.Quarks.{Record, Quark, Module, four_zeros, record_to_quark, phys_of}
use okscada.Quarks.Desc.{
  Result, ok, crunch, ranged, full_path, record_found, desc_read, extract, find_record, quark_of,
  find_quark_by_desc, split_desc, is_some, split_at, max_path,
}
use okscada.Quarks.Desc.Range.{Fit, shift, off_of, placed, off_of-shift, Crunched, crunch-Crunched}
use okscada.Quarks.Address.{refine_address_lem}

module _ (c : StringCompare) (mem : Memory) where
  -- The answer by its result.
  abbrev pub Verdict : Factory → Factory → List Module → Quark → Result → Type 0
  Verdict f f' mods q ok =
      (Fit q q.ind 0 × Fit q q.ind 1 × Fit q q.ind 2 × Fit q q.ind 3)
      × (q.off % ulong_mod ≡ (q.off0 + shift 4 0 q.ind q.coef) % ulong_mod)
      × (q.phys_addr ≡ phys_of mods q)
      × (make_static_ooid c mem f q.path ≡ (f', q.ooid))
  Verdict f f' mods q r = (f' ≡ f) × (q.ooid ≡ 0) × (q.phys_addr ≡ 0)

  abbrev pub Answer : Factory → Factory × List Module × Quark × Result → Type 0
  Answer f (f', mods, q, r) = Verdict f f' mods q r

  -- A quark as it is before the loop over the indices.
  pub record Blank (q : Quark) : Type 0 where
    pub start : q.off ≡ q.off0
    pub zeros : q.ind ≡ four_zeros
    pub no_ooid : q.ooid ≡ 0
    pub no_addr : q.phys_addr ≡ 0

  -- The quark behind the loop, with all indices in range.
  abbrev InPlace : Quark → Type 0
  InPlace q =
      (Fit q q.ind 0 × Fit q q.ind 1 × Fit q q.ind 2 × Fit q q.ind 3)
      × (q.off % ulong_mod ≡ (q.off0 + shift 4 0 q.ind q.coef) % ulong_mod)

  pub four_placed :
      (ind : List ℕ)
      → placed 4 0 ind four_zeros
        ≡ get_or ind 0 0 ∷ get_or ind 1 0 ∷ get_or ind 2 0 ∷ get_or ind 3 0 ∷ []
  unfolding placed
  four_placed ind = refl

  Crunched-InPlace :
      (ind : List ℕ) (q q' : Quark) → Blank q → Crunched 4 0 ind q (q', none) → InPlace q'
  unfolding shift
  Crunched-InPlace ind q q' b (fit, same) =
      let places = ap (placed 4 0 ind) b.zeros ∙ four_placed ind in
      let moved : off_of 4 0 ind q.coef q.off % ulong_mod
          ≡ (q.off0 + shift 4 0 ind q.coef) % ulong_mod =
        off_of-shift 4 0 ind q.coef q.off
        ∙ ap (λ o. (o + shift 4 0 ind q.coef) % ulong_mod) b.start in
      rw (same, places)
        (
          (
            fit 0 (omega arith) (omega arith),
            fit 1 (omega arith) (omega arith),
            fit 2 (omega arith) (omega arith),
            fit 3 (omega arith) (omega arith),
          ),
          moved,
        )

  ranged-Verdict :
      (f : Factory) (mods : List Module) (ind : List ℕ) (q : Quark) (r : Quark × Option ℕ)
      → Blank q
      → Crunched 4 0 ind q r
      → let (f', q', v) = ranged c mem f mods r in Verdict f f' mods q' v
  unfolding phys_of
  ranged-Verdict f mods ind q (q', some j) b (_, _, _, _, s, t) =
      (refl, s ∙ b.no_ooid, t ∙ b.no_addr)
  ranged-Verdict f mods ind q (q', none) b h =
      let (i, j) = Crunched-InPlace ind q q' b h in
      rw (refine_address_lem mods q') (i, j, refl, refl)

  Blank-path : (q : Quark) (path : List ℕ) → Blank q → Blank (record q { path = path })
  Blank-path q path b = record {
    start = b.start;
    zeros = b.zeros;
    no_ooid = b.no_ooid;
    no_addr = b.no_addr;
  }

  pub quark_of-Blank : (mods : List Module) (rec : Record) → Blank (quark_of mods rec)
  unfolding quark_of record_to_quark
  quark_of-Blank mods rec = elim (Option-cases (get_elem? mods rec.obj_ikey)) [
    | inl e ↦
        rw (e, quark_of) (record { start = refl; zeros = refl; no_ooid = refl; no_addr = refl })
    | inr (m, e) ↦
        rw (e, quark_of) (record { start = refl; zeros = refl; no_ooid = refl; no_addr = refl })
  ]

  record_found-Answer :
      (f : Factory) (xpath ind : List ℕ) (o : List Module × Option (Module × Record))
      → Answer f (record_found c mem f xpath ind o)
  record_found-Answer f xpath ind (mods, none) = (refl, refl, refl)
  record_found-Answer f xpath ind (mods, some (m, rec)) =
      let q = record (quark_of mods rec) { path = full_path c mem m xpath } in
      ranged-Verdict f mods ind q (crunch 4 0 ind q) (Blank-path _ _ (quark_of-Blank mods rec))
        (crunch-Crunched 4 0 ind q)

  desc_read-Answer :
      (f : Factory) (mods : List Module) (p : List ℕ × List ℕ × List ℕ)
      → Answer f (desc_read c mem f mods p)
  desc_read-Answer f mods (subject, module_name, xpath) =
      elim (Option-cases (extract (length xpath) 0 xpath)) [
        | inl e ↦ rw (e, desc_read) (refl, refl, refl)
        | inr ((path, ind), e) ↦
            rw (e, desc_read)
              (record_found-Answer f xpath ind (find_record c module_name subject path mods))
      ]

  -- For any factory, modules and description: with the result "OK" the four indices of the quark pass the test against
  -- its dimensions, its offset is that of the record moved by the products of indices and coefficients, modulo 2^64, its
  -- address is that of its segment, and the identifier and the factory are what `ohubMakeStaticOoid` gives for its path;
  -- with any other result the factory is as it was, and the quark has neither identifier nor address.
  pub find_quark_by_desc-Answer :
      (f : Factory) (mods : List Module) (spath : List ℕ)
      → Answer f (find_quark_by_desc c mem f mods spath)
  unfolding find_quark_by_desc
  find_quark_by_desc-Answer f mods spath =
      elim (Bool-cases (ltb (max_path + 4) (length spath + 2))) [
        | inl e ↦ rw e (refl, refl, refl)
        | inr e ↦ elim (Bool-cases (is_some (split_at 63 spath) || is_some (split_at 33 spath))) [
          | inl g ↦ rw (e, g) (refl, refl, refl)
          | inr g ↦ rw (e, g) (desc_read-Answer f mods (split_desc (ohub_trim spath)))
        ]
      ]
