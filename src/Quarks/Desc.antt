-- ===== src/Quarks/Desc.antt =====
-- hub/hub-quarks.c: `ohubFindQuarkByDesc`.
pub mod Parse
pub mod Range
pub mod Answer
pub mod Sought
pub mod Search
use okscada.Prelude.{
  ℕ, zero, suc, ◌+◌, ◌-◌, ◌*◌, ◌%◌, ◌^◌, Bool, true, false, not, ◌&&◌, ◌||◌, List, [], ◌∷◌, ◌++◌,
  Option, none, some, length, get_elem?, get_or, replicate, set, ltb, leb, ◌==◌, if◌then◌else◌,
}
use okscada.Prelude.CString.{StringCompare}
use okscada.Ooid.{Factory, Memory, ulong_mod, int_mod, of_int, make_static_ooid}
use okscada.Tree.{Tree}
use okscada.Tree.Text.{tree_find}
use okscada.Trim.{ohub_trim}
use okscada.Quarks.{Record, Quark, Module, zero_quark, record_to_quark, refine_quark_address}

abbrev pub max_path : ℕ
max_path = 140

-- What `strchr` finds first: what is ahead of it and what is behind.
pub split_at : ℕ → List ℕ → Option (List ℕ × List ℕ)
split_at x [] = none
split_at x (c ∷ s) =
    let rest = split_at x s in
    if c == x then some ([], s) else elim rest [ none ↦ none | some (a, b) ↦ some (c ∷ a, b) ]

abbrev pub split_names : List ℕ → List ℕ → Option (List ℕ × List ℕ) → List ℕ × List ℕ × List ℕ
split_names names t none = (names, [], t)
split_names names t (some (subject, module_name)) = (subject, module_name, t)

-- The subject, the module and the path of a description: "subject/module@path", "subject@path" or "path".
pub split_desc : List ℕ → List ℕ × List ℕ × List ℕ
split_desc s = elim (split_at 64 s) [
  | none ↦ ([], [], s)
  | some (names, t) ↦ split_names names t (split_at 47 names)
]

abbrev pub is_digit : ℕ → Bool
is_digit c = leb 48 c && leb c 57

-- The number at the start of the string, on top of `n`, and what follows it.
pub scan_num : ℕ → List ℕ → ℕ × List ℕ
scan_num n [] = (n, [])
scan_num n (c ∷ s) =
    let r = scan_num ((n * 10 + (c - 48)) % int_mod) s in if is_digit c then r else (n, c ∷ s)

abbrev pub starts_digit : List ℕ → Bool
starts_digit [] = false
starts_digit (c ∷ s) = is_digit c

abbrev pub closed : ℕ × List ℕ → Option (ℕ × List ℕ)
closed (n, []) = none
closed (n, c ∷ s) = if c == 93 then some (n, s) else none

-- The index that is written here, as "[12]", and what follows it.
unfoldable pub index_at : ℕ → List ℕ → Option (ℕ × List ℕ)
index_at c s = if c == 91 && starts_digit s then closed (scan_num 0 s) else none

abbrev pub with_char : ℕ → Option (List ℕ × List ℕ) → Option (List ℕ × List ℕ)
with_char c none = none
with_char c (some (t, ind)) = some (c ∷ t, ind)

abbrev pub with_index : ℕ → Option (List ℕ × List ℕ) → Option (List ℕ × List ℕ)
with_index n none = none
with_index n (some (t, ind)) = some (63 ∷ t, n ∷ ind)

-- The loop that puts '?' for each index, where `i` indices have been read: the path and the indices, or `none` for
-- more than four. The fuel is at least the length of the string.
pub extract : ℕ → ℕ → List ℕ → Option (List ℕ × List ℕ)
extract zero i s = some ([], [])
extract (suc f) i [] = some ([], [])
extract (suc f) i (c ∷ s) = elim (index_at c s) [
  | none ↦ with_char c (extract f i s)
  | some (n, rest) ↦
      let more = extract f (suc i) rest in if leb 4 i then none else with_index n more
]

-- An `int` moved so that the order of the patterns is that of the numbers.
abbrev pub sign_moved : ℕ → ℕ
sign_moved v = (v + 2 ^ 31) % int_mod

-- `(n == 0 && k != 0) || (n != 0 && k >= n) || k < 0`.
unfoldable pub out_of_range : ℕ → ℕ → Bool
out_of_range n k =
    (n == 0 && not (k == 0))
    || ((not (n == 0) && leb (sign_moved n) (sign_moved k)) || leb (2 ^ 31) k)

-- `off += k * coef`.
abbrev pub moved_off : ℕ → ℕ → ℕ → ℕ
moved_off off k coef = (off + of_int (k * coef % int_mod)) % ulong_mod

-- The loop over the indices from `i` on, `fuel` of them: the quark, and the index that is out of range.
pub crunch : ℕ → ℕ → List ℕ → Quark → Quark × Option ℕ
crunch zero i ind q = (q, none)
crunch (suc fuel) i ind q =
    let k = get_or ind i 0 in
    let q' = record q { off = moved_off q.off k (get_or q.coef i 0); ind = set q.ind i k } in
    let rest = crunch fuel (suc i) ind q' in
    if out_of_range (get_or q.dim i 0) k then (q, some i) else rest

-- The quark of a record; a record of a module that the domain lacks leaves it as it was.
pub quark_of : List Module → Record → Quark
quark_of mods rec = elim (record_to_quark mods rec) [ none ↦ zero_quark | some q ↦ q ]

-- What is returned, or written to `sresult`; "NOT_FOUND" has the names behind it.
pub data Result : Type 0 where
  ok path_too_long wrong_metachar too_many_indexes not_found : Result
  out_of_range_at : ℕ → Result

-- The number that is returned, by its absolute value.
abbrev pub code : Result → ℕ
code ok = 0
code path_too_long = 1
code wrong_metachar = 3
code too_many_indexes = 2
code not_found = 3
code (out_of_range_at i) = 4

abbrev pub is_some {ℓ} : {A : Type ℓ} → Option A → Bool
is_some none = false
is_some (some a) = true

abbrev pub is_empty : List ℕ → Bool
is_empty [] = true
is_empty (c ∷ s) = false

module _ (c : StringCompare) where
  -- The name is empty, or `strcmp` tells that it is the other.
  abbrev pub name_fits : List ℕ → List ℕ → Bool
  name_fits name other = is_empty name || c.strcmp name other == 0

  -- `ohubFindCanonicalRecord`. The search leaves its depth in the trees. A number that the module has no record of ends
  -- the loop.
  pub find_canonical_record :
      List ℕ → List ℕ → List ℕ → List Module → List Module × Option (Module × Record)
  find_canonical_record module_name subject path [] = ([], none)
  find_canonical_record module_name subject path (m ∷ ms) =
      let (ms', r) = find_canonical_record module_name subject path ms in
      let (t, v) = tree_find c m.quarks_byname path in
      let m' = record m { quarks_byname = t } in
      if not (name_fits module_name m.nick_name) || not (name_fits subject m.subject_name)
      then (m ∷ ms', r)
      else elim v [
        | none ↦ (m' ∷ ms', r)
        | some k ↦
            (m' ∷ ms, elim (get_elem? m.records k) [ none ↦ none | some rec ↦ some (m', rec) ])
      ]

  -- The search for the path, and then for a string of that name.
  pub find_record : List ℕ → List ℕ → List ℕ → List Module → List Module × Option (Module × Record)
  find_record module_name subject path mods =
      let (mods₁, r) = find_canonical_record module_name subject path mods in
      let again = find_canonical_record module_name subject (path ++ 43 ∷ []) mods₁ in
      elim r [ none ↦ again | some x ↦ (mods₁, some x) ]

  module _ (mem : Memory) where
    -- The part behind the loop over the indices.
    abbrev pub ranged : Factory → List Module → Quark × Option ℕ → Factory × Quark × Result
    ranged f mods (q, some i) = (f, q, out_of_range_at i)
    ranged f mods (q, none) =
        let q' = (refine_quark_address mods q).0 in
        let (f', ooid) = make_static_ooid c mem f q'.path in (f', record q' { ooid = ooid }, ok)

    -- "%s/%s@%s".
    abbrev pub full_path : Module → List ℕ → List ℕ
    full_path m xpath = m.subject_name ++ (47 ∷ m.nick_name ++ (64 ∷ xpath))

    -- The part behind the search.
    abbrev pub record_found :
        Factory
        → List ℕ
        → List ℕ
        → List Module × Option (Module × Record)
        → Factory × List Module × Quark × Result
    record_found f xpath ind (mods, none) = (f, mods, zero_quark, not_found)
    record_found f xpath ind (mods, some (m, rec)) =
        let q = quark_of mods rec in
        let (f', q', r) = ranged f mods (crunch 4 0 ind (record q { path = full_path m xpath })) in
        (f', mods, q', r)

    abbrev pub desc_read :
        Factory → List Module → List ℕ × List ℕ × List ℕ → Factory × List Module × Quark × Result
    desc_read f mods (subject, module_name, xpath) = elim (extract (length xpath) 0 xpath) [
      | none ↦ (f, mods, zero_quark, too_many_indexes)
      | some (path, ind) ↦ record_found f xpath ind (find_record module_name subject path mods)
    ]

    -- `ohubFindQuarkByDesc`.
    pub find_quark_by_desc : Factory → List Module → List ℕ → Factory × List Module × Quark × Result
    find_quark_by_desc f mods spath =
        if ltb (max_path + 4) (length spath + 2)
        then (f, mods, zero_quark, path_too_long)
        else if is_some (split_at 63 spath) || is_some (split_at 33 spath)
        then (f, mods, zero_quark, wrong_metachar)
        else desc_read f mods (split_desc (ohub_trim spath))
