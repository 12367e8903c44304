-- ===== src/Quarks/Desc/Sought.antt =====
-- The quark that `ohubFindQuarkByDesc` gives, by the description and the record that it names.
use okscada.Prelude.{
  ℕ, ◌+◌, ◌%◌, ◌^◌, ◌<◌, ◌≡◌, ◌⊎◌, List, [], ◌∷◌, ◌++◌, some, length, map, get_elem?, get_or,
}
use okscada.Prelude.CString.{StringCompare}
use okscada.Ooid.{Factory, Memory, ulong_mod, make_static_ooid}
use okscada.Trim.{ohub_trim}
use okscada.Quarks.{Record, Quark, Module, of_short, phys_of}
use okscada.Quarks.Desc.{Result, ok, full_path, extract, find_record, quark_of, split_desc}
use okscada.Quarks.Desc.Range.{shift}

-- There is no dimension and the index is 0, or the dimension is not negative and the index is less.
abbrev pub Within : ℕ → ℕ → Type 0
Within n k = ((n ≡ 0) × (k ≡ 0)) ⊎ ((n < 2 ^ 31) × (k < n))

module _ (c : StringCompare) (mem : Memory) where
  -- The parts of the description, the record that they lead to, and what the quark has of it. The dimensions of the
  -- record are `short` and the indices `int`.
  pub record Found (f f' : Factory) (mods mods' : List Module) (spath : List ℕ) (q : Quark)
      : Type 0 where
    pub subject : List ℕ
    pub module_name : List ℕ
    pub xpath : List ℕ
    pub base : List ℕ
    pub ind : List ℕ
    pub m : Module
    pub rec : Record
    pub parts : split_desc (ohub_trim spath) ≡ (subject, module_name, xpath)
    pub read : extract (length xpath) 0 xpath ≡ some (base, ind)
    pub found : find_record c module_name subject base mods ≡ (mods', some (m, rec))
    pub indices : q.ind ≡ get_or ind 0 0 ∷ get_or ind 1 0 ∷ get_or ind 2 0 ∷ get_or ind 3 0 ∷ []
    pub in_range :
        (home : Module) (j : ℕ)
        → get_elem? mods' rec.obj_ikey ≡ some home
        → j < 4
        → get_or (map of_short rec.dim) j 0 < 2 ^ 32
        → get_or ind j 0 < 2 ^ 32
        → Within (get_or (map of_short rec.dim) j 0) (get_or ind j 0)
    pub offset :
        (home : Module)
        → get_elem? mods' rec.obj_ikey ≡ some home
        → q.off % ulong_mod ≡ (rec.off + shift 4 0 ind rec.coef) % ulong_mod
    pub address : q.phys_addr ≡ phys_of mods' q
    pub path : q.path ≡ m.subject_name ++ (47 ∷ m.nick_name ++ (64 ∷ xpath))
    pub named : make_static_ooid c mem f q.path ≡ (f', q.ooid)

  abbrev pub Verdict :
      Factory → Factory → List Module → List Module → List ℕ → Quark → Result → Type 0
  Verdict f f' mods mods' spath q ok = Found f f' mods mods' spath q
  Verdict f f' mods mods' spath q r = (f' ≡ f) × (q.ooid ≡ 0) × (q.phys_addr ≡ 0)

  abbrev pub Sought :
      Factory → List Module → List ℕ → Factory × List Module × Quark × Result → Type 0
  Sought f mods spath (f', mods', q, r) = Verdict f f' mods mods' spath q r

  abbrev start_quark : List Module → Module → List ℕ → Record → Quark
  start_quark mods m xpath rec = record (quark_of mods rec) { path = full_path c mem m xpath }
